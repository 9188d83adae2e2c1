-- ===== src/Block.antt =====
-- crates/border-dns-domain-knowledge/src/block_matcher.rs: the block list.
pub mod Glob
pub mod Trie
pub mod Rules
pub mod WellFormed
pub mod Insertion
pub mod Search
pub mod Answer
pub mod Matcher
pub mod Blocked
pub mod Meaning
pub mod Coverage
mod Examples
