-- ===== src/Governance/Examples.antt =====
-- The theorems on concrete states.
use border_dns.Prelude.{ℕ, ◌*◌, ◌≡◌, ◌↔◌, ◌≢◌, refl, true, false, not, none, some, arith}
use border_dns.Governance.State.{
  suggested, stable, review, fallback, same_phase, DomainGovernanceState, new_state,
  default_thresholds, decay_24h_counters, decayed, older,
}
use border_dns.Governance.Transition.{
  GovernanceTransitionInput, evaluate_governance_transition, evaluate_phase, evaluate_suggested,
  check_stable, check_stable_local_only, stable_local_only_ok, evaluate_review,
  check_fallback_from_review, check_review_triggers, review_duration_fallback,
}
use border_dns.Governance.Transition.Edges.{Edge}
use border_dns.Governance.Transition.Diagram.{evaluate_governance_transition-Edge}
use border_dns.Governance.Transition.Changed.{review_falls_by_duration, review_changed_iff}
use border_dns.Governance.Maintenance.{maintain, query_input, record_transition}
use border_dns.Governance.Maintenance.Decay.{Ticked, maintain-decay}
use border_dns.Governance.Maintenance.Runs.{
  Positive, created, queried, ticked, Young, Young-Reachable,
}

abbrev fresh : DomainGovernanceState
fresh = record {
  phase = suggested;
  observation_count = 60;
  local_alignment_count = 20;
  third_party_alignment_count = 0;
  distinct_third_party_observers = 0;
  mixed_count_24h = 0;
  soft_conflict_count_24h = 0;
  hard_conflict_count_24h = 0;
  tls_mismatch_count_24h = 0;
  route_opposite_count_24h = 0;
  consecutive_no_conflict_count = 25;
  consecutive_failure_count = 0;
  can_promote = true;
  promotion_frozen = false;
  last_observed_at = 5;
  last_transition_at = 5;
  last_mixed_at = none;
  last_hard_conflict_at = none;
  last_tls_mismatch_at = some 5;
  last_route_opposite_at = none;
  last_soft_conflict_at = none;
  state_version = 61;
}

abbrev input_of : DomainGovernanceState → GovernanceTransitionInput
input_of s = record {
  state = s;
  latest_can_promote = true;
  latest_is_mixed = false;
  latest_tls_mismatch = false;
  latest_hard_conflict = false;
  latest_soft_conflict = false;
  latest_local_aligned = true;
  latest_third_party_aligned = false;
  is_first_seen = false;
  upstream_failure = false;
  thresholds = default_thresholds;
}

abbrev reviewed : ℕ → DomainGovernanceState
reviewed hard_conflicts = record fresh { phase = review; hard_conflict_count_24h = hard_conflicts }

abbrev day_later : ℕ
day_later = 25 * 3600 * 1000000000

-- The promotion happens.
promoted : (evaluate_governance_transition 0 (input_of fresh)).new_phase ≡ stable
unfolding evaluate_governance_transition evaluate_phase evaluate_suggested check_stable
    check_stable_local_only stable_local_only_ok check_review_triggers same_phase
promoted = refl

evaluate_governance_transition-Edge_example :
    Edge 0 (input_of fresh) suggested (evaluate_governance_transition 0 (input_of fresh)).new_phase
evaluate_governance_transition-Edge_example = evaluate_governance_transition-Edge 0 (input_of fresh)

suggested_not_review : suggested ≢ review
suggested_not_review h = cc

falls : (evaluate_governance_transition 7 (input_of (reviewed 2))).new_phase ≡ fallback
unfolding evaluate_governance_transition evaluate_phase evaluate_review check_fallback_from_review
    check_review_triggers same_phase
falls = refl

review_falls_by_duration_example :
    (evaluate_governance_transition 7 (input_of (reviewed 2))).reason_code
    ≡ review_duration_fallback
review_falls_by_duration_example =
    review_falls_by_duration 7 (input_of (reviewed 2)) refl refl (omega arith) (omega arith) falls

review_changed_iff_example :
    ((evaluate_governance_transition 7 (input_of (reviewed 6))).phase_changed
      ≡ not
          (same_phase (evaluate_governance_transition 7 (input_of (reviewed 6))).new_phase review))
    ↔ (check_review_triggers (input_of (reviewed 6)) ≡ none)
review_changed_iff_example = review_changed_iff 7 (input_of (reviewed 6)) refl refl

quiet : check_review_triggers (input_of (record fresh { tls_mismatch_count_24h = 1 })) ≡ none
unfolding check_review_triggers
quiet = refl

abbrev mismatched : DomainGovernanceState
mismatched = record fresh { phase = fallback; tls_mismatch_count_24h = 3 }

-- Decay would set the count of TLS mismatches to zero.
mismatches_decay : (decay_24h_counters day_later mismatched).tls_mismatch_count_24h ≡ 0
unfolding decay_24h_counters decayed older
mismatches_decay = refl

default-Positive : Positive default_thresholds
default-Positive = record {
  tls_mismatch = omega arith;
  hard_conflict = omega arith;
  route_opposite = omega arith;
  mixed_degrade = omega arith;
  consecutive_failure = omega arith;
  alignment = omega arith;
  alignment_alone = omega arith;
}

abbrev after_run : DomainGovernanceState
after_run = maintain day_later (
    record_transition 0 (
      query_input default_thresholds true false
        (record_transition 0 (query_input default_thresholds true false (new_state 0)))))

Young-Reachable_example : Young after_run.phase
Young-Reachable_example =
    Young-Reachable default_thresholds after_run default-Positive
      (ticked day_later (queried 0 true false (queried 0 true false (created 0))))

maintain-decay_example : Ticked day_later mismatched (maintain day_later mismatched)
maintain-decay_example = maintain-decay day_later mismatched
