-- ===== src/Governance/Transition.antt =====
-- crates/border-dns-route-policy/src/governance_transition.rs: the phase that an observation leads
-- to. The notes for a reader of the log are left out of the result.
pub mod Edges
pub mod Diagram
pub mod Changed
use border_dns.Prelude.{
  ℕ, ◌%◌, ◌^◌, Bool, true, false, not, ◌&&◌, ◌||◌, Option, none, some, ltb, leb, ◌==◌,
  if◌then◌else◌, unwrap_or,
}
use border_dns.Governance.State.{
  GovernancePhase, new, learning, suggested, stable, review, fallback, same_phase, ThirdPartyMode,
  enabled, disabled, StablePromotionThresholds, LocalOnlyStableThresholds, FallbackThresholds,
  GovernanceThresholds, DomainGovernanceState,
}

pub record GovernanceTransitionInput : Type 0 where
  pub state : DomainGovernanceState
  pub latest_can_promote : Bool
  pub latest_is_mixed : Bool
  pub latest_tls_mismatch : Bool
  pub latest_hard_conflict : Bool
  pub latest_soft_conflict : Bool
  pub latest_local_aligned : Bool
  pub latest_third_party_aligned : Bool
  pub is_first_seen : Bool
  pub upstream_failure : Bool
  pub thresholds : GovernanceThresholds

pub data TransitionReason : Type 0 where
  first_seen no_change_needed local_evidence_promote third_party_alignment_promote :
      TransitionReason
  stable_promotion_with_peers stable_promotion_local_only : TransitionReason
  mixed_freeze mixed_degrade_to_review hard_conflict_to_review tls_mismatch_to_review :
      TransitionReason
  route_opposite_to_review consecutive_failure_to_review review_cleared review_duration_fallback :
      TransitionReason
  review_hard_conflict_fallback review_route_opposite_fallback fallback_expired manual_reset :
      TransitionReason

pub record GovernanceTransitionResult : Type 0 where
  pub new_phase : GovernancePhase
  pub phase_changed : Bool
  pub freeze_promotion : Bool
  pub remove_state : Bool
  pub reason_code : TransitionReason

-- A result that keeps the state: its phase, whether it changed, whether promotion is frozen, why.
abbrev pub goes : GovernancePhase → Bool → Bool → TransitionReason → GovernanceTransitionResult
goes phase changed freeze reason = record {
  new_phase = phase;
  phase_changed = changed;
  freeze_promotion = freeze;
  remove_state = false;
  reason_code = reason;
}

abbrev pub no_change : GovernancePhase → GovernanceTransitionResult
no_change current_phase = goes current_phase false false no_change_needed

unfoldable pub check_review_triggers : GovernanceTransitionInput → Option GovernanceTransitionResult
check_review_triggers input =
    let s = input.state in
    let t = input.thresholds.review in
    let mixed = input.thresholds.mixed_evidence in
    if leb t.tls_mismatch_threshold s.tls_mismatch_count_24h
    then some (goes review true true tls_mismatch_to_review)
    else if leb t.hard_conflict_threshold s.hard_conflict_count_24h
    then some (goes review true true hard_conflict_to_review)
    else if leb t.route_opposite_threshold s.route_opposite_count_24h
    then some (goes review true true route_opposite_to_review)
    else if leb mixed.mixed_degrade_threshold s.mixed_count_24h
    then some (goes review true true mixed_degrade_to_review)
    else if leb t.consecutive_failure_threshold s.consecutive_failure_count
    then some (goes review true true consecutive_failure_to_review)
    else none

unfoldable pub promotion_reason : GovernanceTransitionInput → TransitionReason
promotion_reason input =
    if input.latest_third_party_aligned
    then third_party_alignment_promote
    else local_evidence_promote

unfoldable pub evaluate_learning : GovernanceTransitionInput → GovernanceTransitionResult
evaluate_learning input =
    let s = input.state in
    let mixed = input.thresholds.mixed_evidence in
    if leb mixed.mixed_freeze_threshold s.mixed_count_24h
    then goes learning false true mixed_freeze
    else if input.latest_can_promote
        && ((s.hard_conflict_count_24h == 0) && ltb s.mixed_count_24h mixed.mixed_freeze_threshold)
    then goes suggested true false (promotion_reason input)
    else no_change s.phase

-- The count of observations is cut to 32 bits.
unfoldable pub stable_with_third_party_ok : DomainGovernanceState → StablePromotionThresholds → Bool
stable_with_third_party_ok s t =
    leb t.min_observations (s.observation_count % 2 ^ 32)
    && (leb t.min_local_alignment s.local_alignment_count
        && (leb t.min_third_party_alignment s.third_party_alignment_count
            && (leb t.min_distinct_third_party s.distinct_third_party_observers
                && (leb s.hard_conflict_count_24h t.max_hard_conflict_24h
                    && (leb s.mixed_count_24h t.max_mixed_24h
                        && leb t.min_no_conflict_streak s.consecutive_no_conflict_count)))))

unfoldable pub check_stable_with_third_party :
    GovernanceTransitionInput → StablePromotionThresholds → Option GovernanceTransitionResult
check_stable_with_third_party input t =
    if stable_with_third_party_ok input.state t
    then some (goes stable true false stable_promotion_with_peers)
    else none

unfoldable pub stable_local_only_ok : DomainGovernanceState → LocalOnlyStableThresholds → Bool
stable_local_only_ok s t =
    leb t.min_observations (s.observation_count % 2 ^ 32)
    && (leb t.min_local_alignment s.local_alignment_count
        && (leb s.hard_conflict_count_24h t.max_hard_conflict_24h
            && (leb s.mixed_count_24h t.max_mixed_24h
                && leb t.min_no_conflict_streak s.consecutive_no_conflict_count)))

unfoldable pub check_stable_local_only :
    GovernanceTransitionInput → LocalOnlyStableThresholds → Option GovernanceTransitionResult
check_stable_local_only input t =
    if stable_local_only_ok input.state t
    then some (goes stable true false stable_promotion_local_only)
    else none

unfoldable pub check_stable :
    ThirdPartyMode → GovernanceTransitionInput → Option GovernanceTransitionResult
check_stable enabled input =
    check_stable_with_third_party input input.thresholds.stable_with_third_party
check_stable disabled input = check_stable_local_only input input.thresholds.stable_local_only

unfoldable pub freeze_or_stay : GovernanceTransitionInput → GovernanceTransitionResult
freeze_or_stay input =
    if leb input.thresholds.mixed_evidence.mixed_freeze_threshold input.state.mixed_count_24h
    then goes suggested false true mixed_freeze
    else no_change input.state.phase

unfoldable pub evaluate_suggested : GovernanceTransitionInput → GovernanceTransitionResult
evaluate_suggested input =
    unwrap_or (check_stable input.thresholds.third_party_mode input) (freeze_or_stay input)

unfoldable pub evaluate_stable : GovernanceTransitionInput → GovernanceTransitionResult
evaluate_stable input = no_change stable

-- `review_hours` is what the clock gives: the whole hours since the last transition, as a `u32`.
unfoldable pub check_fallback_from_review :
    ℕ → GovernanceTransitionInput → FallbackThresholds → Option GovernanceTransitionResult
check_fallback_from_review review_hours input t =
    let s = input.state in
    if leb t.review_max_duration_hours review_hours
    then some (goes fallback true true review_duration_fallback)
    else if leb t.fallback_hard_conflict_threshold s.hard_conflict_count_24h
    then some (goes fallback true true review_hard_conflict_fallback)
    else if leb t.fallback_route_opposite_threshold s.route_opposite_count_24h
    then some (goes fallback true true review_route_opposite_fallback)
    else none

unfoldable pub clear_or_stay : GovernanceTransitionInput → GovernanceTransitionResult
clear_or_stay input =
    let s = input.state in
    if (s.hard_conflict_count_24h == 0)
      && (ltb s.mixed_count_24h input.thresholds.mixed_evidence.mixed_freeze_threshold
          && leb 10 s.consecutive_no_conflict_count)
    then goes learning true false review_cleared
    else no_change s.phase

unfoldable pub evaluate_review : ℕ → GovernanceTransitionInput → GovernanceTransitionResult
evaluate_review review_hours input =
    unwrap_or (check_fallback_from_review review_hours input input.thresholds.fallback)
      (clear_or_stay input)

unfoldable pub evaluate_fallback : GovernanceTransitionInput → GovernanceTransitionResult
evaluate_fallback input =
    let s = input.state in
    if not input.latest_hard_conflict
      && (not input.latest_tls_mismatch
          && (not input.latest_is_mixed
              && ((s.hard_conflict_count_24h == 0) && (s.tls_mismatch_count_24h == 0))))
    then goes learning true false fallback_expired
    else no_change s.phase

-- The source's arm for a new domain is unreachable: such a domain is answered before.
unfoldable pub evaluate_phase :
    ℕ → GovernancePhase → GovernanceTransitionInput → GovernanceTransitionResult
evaluate_phase review_hours learning input = evaluate_learning input
evaluate_phase review_hours suggested input = evaluate_suggested input
evaluate_phase review_hours stable input = evaluate_stable input
evaluate_phase review_hours review input = evaluate_review review_hours input
evaluate_phase review_hours fallback input = evaluate_fallback input
evaluate_phase review_hours new input = no_change new

unfoldable pub evaluate_governance_transition :
    ℕ → GovernanceTransitionInput → GovernanceTransitionResult
evaluate_governance_transition review_hours input =
    let current_phase = input.state.phase in
    if input.is_first_seen || same_phase current_phase new
    then goes learning (not (same_phase current_phase learning)) false first_seen
    else if same_phase current_phase fallback
    then evaluate_phase review_hours current_phase input
    else unwrap_or (check_review_triggers input) (evaluate_phase review_hours current_phase input)
