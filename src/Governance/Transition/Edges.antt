-- ===== src/Governance/Transition/Edges.antt =====
-- The diagram of the phases: the edges, and what the input shows at each.
use border_dns.Prelude.{ℕ, ◌≤◌, ◌<◌, ◌≡◌, true, false}
use border_dns.Governance.State.{
  GovernancePhase, new, learning, suggested, stable, review, fallback, same_phase, enabled,
  disabled, DomainGovernanceState, GovernanceThresholds,
}
use border_dns.Governance.Transition.{GovernanceTransitionInput}

-- A count of the state has reached the threshold that puts a domain under review.
pub data Challenged (t : GovernanceThresholds) (s : DomainGovernanceState) : Type 0 where
  tls : t.review.tls_mismatch_threshold ≤ s.tls_mismatch_count_24h → Challenged t s
  hard : t.review.hard_conflict_threshold ≤ s.hard_conflict_count_24h → Challenged t s
  route : t.review.route_opposite_threshold ≤ s.route_opposite_count_24h → Challenged t s
  mixed : t.mixed_evidence.mixed_degrade_threshold ≤ s.mixed_count_24h → Challenged t s
  failures : t.review.consecutive_failure_threshold ≤ s.consecutive_failure_count → Challenged t s

-- The counts that no promotion to the stable phase goes without, for both modes.
pub data Promotable (t : GovernanceThresholds) (s : DomainGovernanceState) : Type 0 where
  with_peers :
      t.third_party_mode ≡ enabled
      → t.stable_with_third_party.min_observations ≤ s.observation_count
      → t.stable_with_third_party.min_local_alignment ≤ s.local_alignment_count
      → t.stable_with_third_party.min_third_party_alignment ≤ s.third_party_alignment_count
      → t.stable_with_third_party.min_distinct_third_party ≤ s.distinct_third_party_observers
      → s.hard_conflict_count_24h ≤ t.stable_with_third_party.max_hard_conflict_24h
      → s.mixed_count_24h ≤ t.stable_with_third_party.max_mixed_24h
      → t.stable_with_third_party.min_no_conflict_streak ≤ s.consecutive_no_conflict_count
      → Promotable t s
  local_only :
      t.third_party_mode ≡ disabled
      → t.stable_local_only.min_observations ≤ s.observation_count
      → t.stable_local_only.min_local_alignment ≤ s.local_alignment_count
      → s.hard_conflict_count_24h ≤ t.stable_local_only.max_hard_conflict_24h
      → s.mixed_count_24h ≤ t.stable_local_only.max_mixed_24h
      → t.stable_local_only.min_no_conflict_streak ≤ s.consecutive_no_conflict_count
      → Promotable t s

-- What a review ends in when it lasts too long or the conflicts go on.
pub data Sustained (hours : ℕ) (t : GovernanceThresholds) (s : DomainGovernanceState) : Type 0 where
  long : t.fallback.review_max_duration_hours ≤ hours → Sustained hours t s
  conflicts :
      t.fallback.fallback_hard_conflict_threshold ≤ s.hard_conflict_count_24h → Sustained hours t s
  opposites :
      t.fallback.fallback_route_opposite_threshold ≤ s.route_opposite_count_24h
      → Sustained hours t s

-- The edges from phase to phase, each with what the input shows.
pub data Edge (hours : ℕ) (input : GovernanceTransitionInput)
    : GovernancePhase → GovernancePhase → Type 0 where
  stay : (p : GovernancePhase) → Edge hours input p p
  start : Edge hours input new learning
  restart : (p : GovernancePhase) → input.is_first_seen ≡ true → Edge hours input p learning
  suggest :
      input.latest_can_promote ≡ true
      → input.state.hard_conflict_count_24h ≡ 0
      → input.state.mixed_count_24h < input.thresholds.mixed_evidence.mixed_freeze_threshold
      → Edge hours input learning suggested
  stabilise : Promotable input.thresholds input.state → Edge hours input suggested stable
  degrade :
      (p : GovernancePhase)
      → same_phase p fallback ≡ false
      → Challenged input.thresholds input.state
      → Edge hours input p review
  clear :
      input.state.hard_conflict_count_24h ≡ 0
      → input.state.mixed_count_24h < input.thresholds.mixed_evidence.mixed_freeze_threshold
      → 10 ≤ input.state.consecutive_no_conflict_count
      → Edge hours input review learning
  fall : Sustained hours input.thresholds input.state → Edge hours input review fallback
  recover :
      input.state.hard_conflict_count_24h ≡ 0
      → input.state.tls_mismatch_count_24h ≡ 0
      → Edge hours input fallback learning
