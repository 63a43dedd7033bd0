-- ===== src/Edge.antt =====
-- crates/fortis-edge: the public front of the backends, here its peer-to-peer swap service.
pub mod Table
pub mod Records
pub mod Store
pub mod Matcher
pub mod Messages
pub mod Watchtower
