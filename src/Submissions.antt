-- ===== src/Submissions.antt =====
-- lib/proposalSubmissions.js
pub mod Types
pub mod Create
pub mod Transitions
pub mod Machine
pub mod Tests
