-- ===== src/Dispatcher.antt =====
-- lib/proposalDispatcher.js: one pass of the worker that takes submissions to the chain.
pub mod Errors
pub mod Advance
pub mod Effects
pub mod Calls
pub mod Settles
pub mod Tests
