-- ===== src/Accounts.antt =====
-- lib/email.js, lib/pendingRegistrations.js, lib/verifications.js and lib/users.js: how an account
-- comes to be and what changes it.
pub mod Email
pub mod Pending
pub mod Verifications
pub mod Redemption
pub mod Users
pub mod Operations
pub mod Credentials
pub mod Tests
