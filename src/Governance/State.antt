-- ===== src/Governance/State.antt =====
-- crates/border-dns-facts/src/schema/enums.rs, src/thresholds/thresholds.rs and
-- src/review/governance_state.rs: phases, thresholds, the state of a domain and the decay of its
-- counters. A point in time is the number of its nanosecond. The domain, the routes, the
-- scores, the count of events and the summary of third parties, which no function here reads, are
-- left out of the state.
use border_dns.Prelude.{ℕ, ◌-◌, ◌*◌, Bool, true, false, Option, none, some, ltb, if◌then◌else◌}

pub data GovernancePhase : Type 0 where
  new learning suggested stable review fallback : GovernancePhase

-- The derived comparison.
unfoldable pub same_phase : GovernancePhase → GovernancePhase → Bool
same_phase new new = true
same_phase learning learning = true
same_phase suggested suggested = true
same_phase stable stable = true
same_phase review review = true
same_phase fallback fallback = true
same_phase _ _ = false

pub data ThirdPartyMode : Type 0 where
  disabled enabled : ThirdPartyMode

pub record MixedEvidenceThresholds : Type 0 where
  pub mixed_freeze_threshold : ℕ
  pub mixed_degrade_threshold : ℕ
  pub mixed_window_hours : ℕ

pub record StablePromotionThresholds : Type 0 where
  pub min_observations : ℕ
  pub min_local_alignment : ℕ
  pub min_third_party_alignment : ℕ
  pub min_distinct_third_party : ℕ
  pub max_mixed_24h : ℕ
  pub max_hard_conflict_24h : ℕ
  pub min_no_conflict_streak : ℕ

pub record LocalOnlyStableThresholds : Type 0 where
  pub min_observations : ℕ
  pub min_local_alignment : ℕ
  pub max_mixed_24h : ℕ
  pub max_hard_conflict_24h : ℕ
  pub min_no_conflict_streak : ℕ

pub record ReviewThresholds : Type 0 where
  pub hard_conflict_threshold : ℕ
  pub tls_mismatch_threshold : ℕ
  pub route_opposite_threshold : ℕ
  pub mixed_degrade_threshold : ℕ
  pub consecutive_failure_threshold : ℕ

pub record FallbackThresholds : Type 0 where
  pub review_max_duration_hours : ℕ
  pub fallback_hard_conflict_threshold : ℕ
  pub fallback_route_opposite_threshold : ℕ

pub record GovernanceThresholds : Type 0 where
  pub mixed_evidence : MixedEvidenceThresholds
  pub stable_with_third_party : StablePromotionThresholds
  pub stable_local_only : LocalOnlyStableThresholds
  pub review : ReviewThresholds
  pub fallback : FallbackThresholds
  pub third_party_mode : ThirdPartyMode

abbrev pub default_mixed_evidence : MixedEvidenceThresholds
default_mixed_evidence = record {
  mixed_freeze_threshold = 3;
  mixed_degrade_threshold = 10;
  mixed_window_hours = 24;
}

abbrev pub default_stable_with_third_party : StablePromotionThresholds
default_stable_with_third_party = record {
  min_observations = 20;
  min_local_alignment = 5;
  min_third_party_alignment = 2;
  min_distinct_third_party = 2;
  max_mixed_24h = 2;
  max_hard_conflict_24h = 0;
  min_no_conflict_streak = 10;
}

abbrev pub default_stable_local_only : LocalOnlyStableThresholds
default_stable_local_only = record {
  min_observations = 50;
  min_local_alignment = 15;
  max_mixed_24h = 2;
  max_hard_conflict_24h = 0;
  min_no_conflict_streak = 20;
}

abbrev pub default_review : ReviewThresholds
default_review = record {
  hard_conflict_threshold = 3;
  tls_mismatch_threshold = 2;
  route_opposite_threshold = 3;
  mixed_degrade_threshold = 10;
  consecutive_failure_threshold = 5;
}

abbrev pub default_fallback : FallbackThresholds
default_fallback = record {
  review_max_duration_hours = 6;
  fallback_hard_conflict_threshold = 5;
  fallback_route_opposite_threshold = 5;
}

abbrev pub default_thresholds : GovernanceThresholds
default_thresholds = record {
  mixed_evidence = default_mixed_evidence;
  stable_with_third_party = default_stable_with_third_party;
  stable_local_only = default_stable_local_only;
  review = default_review;
  fallback = default_fallback;
  third_party_mode = disabled;
}

pub record DomainGovernanceState : Type 0 where
  pub phase : GovernancePhase
  pub observation_count : ℕ
  pub local_alignment_count : ℕ
  pub third_party_alignment_count : ℕ
  pub distinct_third_party_observers : ℕ
  pub mixed_count_24h : ℕ
  pub soft_conflict_count_24h : ℕ
  pub hard_conflict_count_24h : ℕ
  pub tls_mismatch_count_24h : ℕ
  pub route_opposite_count_24h : ℕ
  pub consecutive_no_conflict_count : ℕ
  pub consecutive_failure_count : ℕ
  pub can_promote : Bool
  pub promotion_frozen : Bool
  pub last_observed_at : ℕ
  pub last_transition_at : ℕ
  pub last_mixed_at : Option ℕ
  pub last_hard_conflict_at : Option ℕ
  pub last_tls_mismatch_at : Option ℕ
  pub last_route_opposite_at : Option ℕ
  pub last_soft_conflict_at : Option ℕ
  pub state_version : ℕ

unfoldable pub new_state : ℕ → DomainGovernanceState
new_state now = record {
  phase = new;
  observation_count = 0;
  local_alignment_count = 0;
  third_party_alignment_count = 0;
  distinct_third_party_observers = 0;
  mixed_count_24h = 0;
  soft_conflict_count_24h = 0;
  hard_conflict_count_24h = 0;
  tls_mismatch_count_24h = 0;
  route_opposite_count_24h = 0;
  consecutive_no_conflict_count = 0;
  consecutive_failure_count = 0;
  can_promote = false;
  promotion_frozen = false;
  last_observed_at = now;
  last_transition_at = now;
  last_mixed_at = none;
  last_hard_conflict_at = none;
  last_tls_mismatch_at = none;
  last_route_opposite_at = none;
  last_soft_conflict_at = none;
  state_version = 1;
}

-- Twenty-four hours.
abbrev pub window : ℕ
window = 24 * 3600 * 1000000000

-- `now - t > window`; a time that is still to come is not older.
unfoldable pub older : ℕ → Option ℕ → Bool
older now none = false
older now (some t) = ltb window (now - t)

-- A counter, reset when its last event is older than the window.
unfoldable pub decayed : ℕ → Option ℕ → ℕ → ℕ
decayed now last count = if older now last then 0 else count

unfoldable pub decay_24h_counters : ℕ → DomainGovernanceState → DomainGovernanceState
decay_24h_counters now s = record s {
  mixed_count_24h = decayed now s.last_mixed_at s.mixed_count_24h;
  soft_conflict_count_24h = decayed now s.last_soft_conflict_at s.soft_conflict_count_24h;
  hard_conflict_count_24h = decayed now s.last_hard_conflict_at s.hard_conflict_count_24h;
  tls_mismatch_count_24h = decayed now s.last_tls_mismatch_at s.tls_mismatch_count_24h;
  route_opposite_count_24h = decayed now s.last_route_opposite_at s.route_opposite_count_24h;
}
