-- ===== src/Totp.antt =====
-- lib/totp.js: two-factor codes: the text form of secrets, the challenges and the recovery codes.
pub mod Base32
pub mod Codes
pub mod Challenges
pub mod Tests
