-- ===== src/Relay.antt =====
-- lib/gov.js: the relay of a batch of signed votes to Core.
pub mod Codes
pub mod Visit
pub mod Validate
pub mod Lookup
pub mod Batch
pub mod Pool
pub mod Safety
pub mod Writes
pub mod Tests
