-- ===== src/Governance/Maintenance.antt =====
-- The decay of the stored states and what the query path writes: the loop body of
-- crates/border-dns-runtime/src/governance_worker.rs and stage 5.6 of
-- crates/border-dns-pipeline/src/lib.rs. The scores are left out of the state, as is the store,
-- which a domain's entry stands for here.
pub mod Decay
pub mod Runs
use border_dns.Prelude.{ℕ, ◌+◌, Bool, true, false, not, ◌||◌, ◌&&◌, ◌==◌, if◌then◌else◌}
use border_dns.Governance.State.{
  GovernanceThresholds, same_phase, new, DomainGovernanceState, decay_24h_counters,
}
use border_dns.Governance.Transition.{GovernanceTransitionInput, evaluate_governance_transition}

-- The entry after a tick at `now`: the decayed state is stored under the next version when the
-- version, the mixed count or the count of hard conflicts differs.
unfoldable pub maintain : ℕ → DomainGovernanceState → DomainGovernanceState
maintain now state =
    let decayed = decay_24h_counters now state in
    if not (decayed.state_version == state.state_version)
      || (not (decayed.mixed_count_24h == state.mixed_count_24h)
          || not (decayed.hard_conflict_count_24h == state.hard_conflict_count_24h))
    then record decayed { state_version = decayed.state_version + 1 }
    else state

-- What the query path gives the transition: of the answer's evidence it has the score and whether
-- the addresses are mixed, and it never reports a conflict.
unfoldable pub query_input :
    GovernanceThresholds → Bool → Bool → DomainGovernanceState → GovernanceTransitionInput
query_input thresholds can_promote is_mixed state = record {
  state = state;
  latest_can_promote = can_promote;
  latest_is_mixed = is_mixed;
  latest_tls_mismatch = false;
  latest_hard_conflict = false;
  latest_soft_conflict = false;
  latest_local_aligned = can_promote;
  latest_third_party_aligned = false;
  is_first_seen = (state.observation_count == 0) && same_phase state.phase new;
  upstream_failure = false;
  thresholds = thresholds;
}

-- The entry after a query, whose score says whether it can promote.
unfoldable pub record_transition : ℕ → GovernanceTransitionInput → DomainGovernanceState
record_transition review_hours input =
    let transition = evaluate_governance_transition review_hours input in
    if transition.phase_changed || input.is_first_seen
    then record input.state {
      phase = transition.new_phase;
      observation_count = input.state.observation_count + 1;
      can_promote = input.latest_can_promote;
      state_version = input.state.state_version + 1;
    }
    else input.state
