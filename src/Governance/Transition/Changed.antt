-- ===== src/Governance/Transition/Changed.antt =====
-- Whether a result says that the phase changed, and why a review ends.
use border_dns.Prelude.{
  ℕ, ◌≤◌, ◌≡◌, ◌↔◌, none, ◌≢◌, refl, false, arith, unwrap_or, if◌then◌else◌, not, ◌||◌,
}
use border_dns.Governance.State.{
  GovernancePhase, new, learning, suggested, stable, review, fallback, same_phase,
}
use border_dns.Governance.Transition.{
  GovernanceTransitionInput, GovernanceTransitionResult, evaluate_governance_transition,
  evaluate_phase, evaluate_learning, evaluate_suggested, evaluate_stable, evaluate_review,
  evaluate_fallback, check_review_triggers, check_stable, check_stable_with_third_party,
  check_stable_local_only, check_fallback_from_review, freeze_or_stay, goes, first_seen,
  clear_or_stay, review_duration_fallback,
}

-- The result tells truly whether it leaves the phase.
abbrev Tells : GovernancePhase → GovernanceTransitionResult → Type 0
Tells p r = r.phase_changed ≡ not (same_phase r.new_phase p)

module _ (hours : ℕ) (input : GovernanceTransitionInput) where
  learning-Tells : input.state.phase ≡ learning → Tells learning (evaluate_learning input)
  unfolding evaluate_learning same_phase
  learning-Tells h = ground arith

  suggested-Tells : input.state.phase ≡ suggested → Tells suggested (evaluate_suggested input)
  unfolding evaluate_suggested freeze_or_stay check_stable check_stable_with_third_party
      check_stable_local_only same_phase
  suggested-Tells h = ground arith

  review-Tells : input.state.phase ≡ review → Tells review (evaluate_review hours input)
  unfolding evaluate_review check_fallback_from_review clear_or_stay same_phase
  review-Tells h = ground arith

  fallback-Tells : input.state.phase ≡ fallback → Tells fallback (evaluate_fallback input)
  unfolding evaluate_fallback same_phase
  fallback-Tells h = ground arith

  phase-Tells :
      (p : GovernancePhase) → input.state.phase ≡ p → Tells p (evaluate_phase hours p input)
  unfolding evaluate_phase evaluate_stable same_phase
  phase-Tells new h = refl
  phase-Tells learning h = learning-Tells h
  phase-Tells suggested h = suggested-Tells h
  phase-Tells stable h = refl
  phase-Tells review h = review-Tells h
  phase-Tells fallback h = fallback-Tells h

  -- Of the phases that the triggers are checked in, all but the review are left by them.
  triggered-Tells :
      (p : GovernancePhase)
      → p ≢ review
      → input.state.phase ≡ p
      → Tells p (unwrap_or (check_review_triggers input) (evaluate_phase hours p input))
  unfolding check_review_triggers same_phase
  triggered-Tells new n h = ground (arith, phase-Tells new h)
  triggered-Tells learning n h = ground (arith, phase-Tells learning h)
  triggered-Tells suggested n h = ground (arith, phase-Tells suggested h)
  triggered-Tells stable n h = ground (arith, phase-Tells stable h)
  triggered-Tells review n h = absurd (n refl)
  triggered-Tells fallback n h = ground (arith, phase-Tells fallback h)

  -- The transition, over the phase that it reads.
  abbrev transition : GovernancePhase → GovernanceTransitionResult
  transition p =
      if input.is_first_seen || same_phase p new
      then goes learning (not (same_phase p learning)) false first_seen
      else if same_phase p fallback
      then evaluate_phase hours p input
      else unwrap_or (check_review_triggers input) (evaluate_phase hours p input)

  started-Tells :
      (p : GovernancePhase) → Tells p (goes learning (not (same_phase p learning)) false first_seen)
  unfolding same_phase
  started-Tells new = refl
  started-Tells learning = refl
  started-Tells suggested = refl
  started-Tells stable = refl
  started-Tells review = refl
  started-Tells fallback = refl

  transition-Tells :
      (p : GovernancePhase) → p ≢ review → input.state.phase ≡ p → Tells p (transition p)
  transition-Tells p n h = ground (arith, started-Tells p, phase-Tells p h, triggered-Tells p n h)

-- The flag `phase_changed` tells truly whether the new phase is another one, for every input whose
-- phase is not the review.
pub phase_changed-differs :
    (hours : ℕ) (input : GovernanceTransitionInput)
    → input.state.phase ≢ review
    → (evaluate_governance_transition hours input).phase_changed
      ≡ not (same_phase (evaluate_governance_transition hours input).new_phase input.state.phase)
unfolding evaluate_governance_transition
phase_changed-differs hours input n = transition-Tells hours input input.state.phase n refl

-- When the thresholds of the fallback are not under those of the review, as by default, a domain
-- under review and not first seen goes to the fallback by its duration only: whatever the counts of
-- hard conflicts and opposite routes, the reason is never one of them.
pub review_falls_by_duration :
    (hours : ℕ) (input : GovernanceTransitionInput)
    → input.state.phase ≡ review
    → input.is_first_seen ≡ false
    → input.thresholds.review.hard_conflict_threshold
      ≤ input.thresholds.fallback.fallback_hard_conflict_threshold
    → input.thresholds.review.route_opposite_threshold
      ≤ input.thresholds.fallback.fallback_route_opposite_threshold
    → (evaluate_governance_transition hours input).new_phase ≡ fallback
    → (evaluate_governance_transition hours input).reason_code ≡ review_duration_fallback
unfolding evaluate_governance_transition evaluate_phase evaluate_review check_fallback_from_review
    clear_or_stay check_review_triggers same_phase
review_falls_by_duration hours input p s h r n = ground arith

-- For a domain under review, not first seen, the flag `phase_changed` tells truly whether the new
-- phase is another one exactly when no review trigger fires: a domain that meets a threshold of the
-- review again stays under review, and the result says that the phase changed.
pub review_changed_iff :
    (hours : ℕ) (input : GovernanceTransitionInput)
    → input.state.phase ≡ review
    → input.is_first_seen ≡ false
    → ((evaluate_governance_transition hours input).phase_changed
        ≡ not (same_phase (evaluate_governance_transition hours input).new_phase input.state.phase))
      ↔ (check_review_triggers input ≡ none)
unfolding evaluate_governance_transition evaluate_phase evaluate_review check_fallback_from_review
    clear_or_stay check_review_triggers same_phase
review_changed_iff hours input p s = (λ h. ground arith, λ h. ground arith)
