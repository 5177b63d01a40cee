-- ===== src/Receipts.antt =====
-- lib/voteReceipts.js
pub mod Types
pub mod Parse
pub mod Table
pub mod Upsert
pub mod Queries
pub mod Cache
pub mod Summary
pub mod Decide
pub mod Reconcile
pub mod Tests
