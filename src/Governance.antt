-- ===== src/Governance.antt =====
-- The governance of domains: crates/border-dns-facts (state, thresholds) and
-- crates/border-dns-route-policy/src/governance_transition.rs (transitions).
pub mod State
pub mod Transition
pub mod Maintenance
pub mod Store
mod Examples
