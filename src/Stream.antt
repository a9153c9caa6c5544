-- ===== src/Stream.antt =====
-- stream/: the store library. A fault, the path derivation, the validator and the store.
pub mod Platform
pub mod Fault
pub mod Encode
pub mod Paths
pub mod Json
pub mod Spread
pub mod Validate
pub mod Record
pub mod Store
pub mod Teachings
pub mod Samples
pub mod Tests
