-- ===== src/Types.antt =====
-- crates/dns-types: the types that the other crates share.
pub mod Error
pub mod Codes
pub mod Route
pub mod Names
