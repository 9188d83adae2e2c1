-- ===== src/Pipeline.antt =====
-- crates/border-dns-pipeline/src/lib.rs: the path of a query. The tables, caches and stores that the
-- source shares are passed along as a state. Parameters stand for the clock, the parsers of
-- addresses, the files and the upstream exchange; the score, which the source computes in floating
-- point, is a parameter too.
pub mod Build
pub mod Blocking
pub mod Resolve
pub mod Reply
pub mod Repeat
pub mod Sinkhole
pub mod Examples
