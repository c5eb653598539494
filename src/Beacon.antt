-- ===== src/Beacon.antt =====
-- The package beacon/: the measurement beacon's wire format and its responder.
pub mod Wire
pub mod Address
pub mod PathKey
pub mod NonceCache
pub mod Rate
pub mod Table
pub mod Responder
mod Tests
