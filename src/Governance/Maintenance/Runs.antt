-- ===== src/Governance/Maintenance/Runs.antt =====
-- The states that queries and ticks lead to from a domain's creation.
use border_dns.Prelude.{ℕ, ◌<◌, ◌≡◌, refl, Bool, arith, if-elim}
use border_dns.Governance.State.{
  GovernancePhase, new, learning, suggested, GovernanceThresholds, DomainGovernanceState, new_state,
  decay_24h_counters,
}
use border_dns.Governance.Transition.{GovernanceTransitionInput}
use border_dns.Governance.Transition.Edges.{
  Edge, stay, start, restart, suggest, stabilise, degrade, clear, fall, recover, Challenged, tls,
  hard, route, mixed, failures, Promotable, with_peers, local_only,
}
use border_dns.Governance.Transition.Diagram.{evaluate_governance_transition-Edge}
use border_dns.Governance.Maintenance.{maintain, record_transition, query_input}
use border_dns.Governance.Maintenance.Decay.{decayed_le}

-- The states of a domain under the given thresholds, by creations, queries and ticks in any order.
pub data Reachable (t : GovernanceThresholds) : DomainGovernanceState → Type 0 where
  created : (now : ℕ) → Reachable t (new_state now)
  queried :
      (hours : ℕ) (can_promote is_mixed : Bool) {s : DomainGovernanceState}
      → Reachable t s
      → Reachable t (record_transition hours (query_input t can_promote is_mixed s))
  ticked : (now : ℕ) {s : DomainGovernanceState} → Reachable t s → Reachable t (maintain now s)

-- The thresholds that a zero count does not meet.
pub record Positive (t : GovernanceThresholds) : Type 0 where
  pub tls_mismatch : 0 < t.review.tls_mismatch_threshold
  pub hard_conflict : 0 < t.review.hard_conflict_threshold
  pub route_opposite : 0 < t.review.route_opposite_threshold
  pub mixed_degrade : 0 < t.mixed_evidence.mixed_degrade_threshold
  pub consecutive_failure : 0 < t.review.consecutive_failure_threshold
  pub alignment : 0 < t.stable_with_third_party.min_local_alignment
  pub alignment_alone : 0 < t.stable_local_only.min_local_alignment

-- Before any promotion to the stable phase and any review.
pub data Young : GovernancePhase → Type 0 where
  new_young : Young new
  learning_young : Young learning
  suggested_young : Young suggested

record Quiet (s : DomainGovernanceState) : Type 0 where
  young : Young s.phase
  no_mixed : s.mixed_count_24h ≡ 0
  no_hard : s.hard_conflict_count_24h ≡ 0
  no_tls : s.tls_mismatch_count_24h ≡ 0
  no_route : s.route_opposite_count_24h ≡ 0
  no_failure : s.consecutive_failure_count ≡ 0
  no_alignment : s.local_alignment_count ≡ 0

not_Challenged :
    {t : GovernanceThresholds} {s : DomainGovernanceState}
    → Positive t
    → Quiet s
    → Challenged t s
    → ⊥
not_Challenged p q (tls h) = omega (arith, p.tls_mismatch, q.no_tls)
not_Challenged p q (hard h) = omega (arith, p.hard_conflict, q.no_hard)
not_Challenged p q (route h) = omega (arith, p.route_opposite, q.no_route)
not_Challenged p q (mixed h) = omega (arith, p.mixed_degrade, q.no_mixed)
not_Challenged p q (failures h) = omega (arith, p.consecutive_failure, q.no_failure)

not_Promotable :
    {t : GovernanceThresholds} {s : DomainGovernanceState}
    → Positive t
    → Quiet s
    → Promotable t s
    → ⊥
not_Promotable p q (with_peers m o l h d c x n) = omega (arith, p.alignment, q.no_alignment)
not_Promotable p q (local_only m o l c x n) = omega (arith, p.alignment_alone, q.no_alignment)

Young-Edge :
    {hours : ℕ} {input : GovernanceTransitionInput} {p q : GovernancePhase}
    → Positive input.thresholds
    → Quiet input.state
    → Young p
    → Edge hours input p q
    → Young q
Young-Edge t s y (stay p) = y
Young-Edge t s y start = learning_young
Young-Edge t s y (restart p h) = learning_young
Young-Edge t s y (suggest a b c) = suggested_young
Young-Edge t s y (stabilise h) = absurd (not_Promotable t s h)
Young-Edge t s y (degrade p n h) = absurd (not_Challenged t s h)
Young-Edge t s y (clear a b c) = learning_young
Young-Edge t s y (fall h) = elim y [ ]
Young-Edge t s y (recover a b) = learning_young

Quiet-record_transition :
    (hours : ℕ) (input : GovernanceTransitionInput)
    → Positive input.thresholds
    → Quiet input.state
    → Quiet (record_transition hours input)
unfolding record_transition
Quiet-record_transition hours input t s =
    if-elim Quiet _
      (λ _. record {
        young = Young-Edge t s s.young (evaluate_governance_transition-Edge hours input);
        no_mixed = s.no_mixed;
        no_hard = s.no_hard;
        no_tls = s.no_tls;
        no_route = s.no_route;
        no_failure = s.no_failure;
        no_alignment = s.no_alignment;
      })
      (λ _. s)

Quiet-maintain : (now : ℕ) (s : DomainGovernanceState) → Quiet s → Quiet (maintain now s)
unfolding maintain decay_24h_counters
Quiet-maintain now s q =
    if-elim Quiet _
      (λ _. record {
        young = q.young;
        no_mixed = omega (arith, decayed_le now s.last_mixed_at s.mixed_count_24h, q.no_mixed);
        no_hard =
            omega
              (arith, decayed_le now s.last_hard_conflict_at s.hard_conflict_count_24h, q.no_hard);
        no_tls =
            omega (arith, decayed_le now s.last_tls_mismatch_at s.tls_mismatch_count_24h, q.no_tls);
        no_route =
            omega (
              arith,
              decayed_le now s.last_route_opposite_at s.route_opposite_count_24h,
              q.no_route,
            );
        no_failure = q.no_failure;
        no_alignment = q.no_alignment;
      })
      (λ _. q)

Quiet-new_state : (now : ℕ) → Quiet (new_state now)
unfolding new_state
Quiet-new_state now = record {
  young = new_young;
  no_mixed = refl;
  no_hard = refl;
  no_tls = refl;
  no_route = refl;
  no_failure = refl;
  no_alignment = refl;
}

Quiet-Reachable :
    {t : GovernanceThresholds} {s : DomainGovernanceState} → Positive t → Reachable t s → Quiet s
unfolding query_input
Quiet-Reachable p (created now) = Quiet-new_state now
Quiet-Reachable {t} p (queried hours can_promote is_mixed {s} r) =
    Quiet-record_transition hours (query_input t can_promote is_mixed s) p (Quiet-Reachable p r)
Quiet-Reachable p (ticked now {s} r) = Quiet-maintain now s (Quiet-Reachable p r)

-- Under thresholds that a zero count does not meet, such as the default, no sequence of queries and
-- ticks from a domain's creation brings it to the stable phase, to review or to fallback: the code
-- that stores a transition counts observations only.
pub Young-Reachable :
    (t : GovernanceThresholds) (s : DomainGovernanceState)
    → Positive t
    → Reachable t s
    → Young s.phase
Young-Reachable t s p r = let q = Quiet-Reachable p r in q.young
