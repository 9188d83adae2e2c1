-- ===== src/Protocol.antt =====
-- crates/dns-protocol: the wire codec.
pub mod Wire
pub mod TcpFrame
pub mod Header
pub mod Name
pub mod Question
pub mod Rr
pub mod Message
