-- ===== src/Governance/Transition/Diagram.antt =====
-- Every transition is an edge of the diagram of the phases.
use border_dns.Prelude.{
  ℕ, ◌≤◌, ◌≡◌, inl, inr, refl, sym, ap, ◌∙◌, true, false, Option, arith, ltb, leb, Bool-cases, ◌%◌,
  ◌^◌, if-elim, unwrap_or, unwrap_or-elim, Answers, answered, unanswered, leb→le, &&-both, ◌==◌,
  not, ◌&&◌, ◌||◌, if◌then◌else◌,
}
use mathlib.Core.Path.{subst}
use border_dns.Governance.State.{
  GovernancePhase, ThirdPartyMode, new, learning, suggested, stable, review, fallback, same_phase,
  enabled, disabled,
}
use border_dns.Governance.Transition.{
  GovernanceTransitionInput, GovernanceTransitionResult, evaluate_governance_transition, goes,
  promotion_reason, mixed_freeze, review_cleared, fallback_expired, no_change, evaluate_phase,
  freeze_or_stay, clear_or_stay, evaluate_learning, evaluate_suggested, evaluate_stable,
  evaluate_review, evaluate_fallback, check_review_triggers, check_stable,
  check_stable_with_third_party, check_stable_local_only, stable_with_third_party_ok,
  stable_local_only_ok, check_fallback_from_review,
}
use border_dns.Governance.Transition.Edges.{
  Challenged, tls, hard, route, mixed, failures, Promotable, with_peers, local_only, Sustained,
  long, conflicts, opposites, Edge, stay, start, restart, suggest, stabilise, degrade, clear, fall,
  recover,
}

-- A count that is cut to 32 bits is at most the count.
wrapped_le : (a b : ℕ) → leb a (b % 2 ^ 32) ≡ true → a ≤ b
wrapped_le a b h = omega (arith, leb→le a (b % 2 ^ 32) h)

equal_zero : (a : ℕ) → (a == 0) ≡ true → a ≡ 0
equal_zero a h = ground arith

module _ (hours : ℕ) (input : GovernanceTransitionInput) where
  -- The result leads along an edge from the phase.
  pub record To (p : GovernancePhase) (r : GovernanceTransitionResult) : Type 0 where
    pub edge : Edge hours input p r.new_phase

  pub triggers-Challenged :
      Answers
        (λ r. Challenged input.thresholds input.state × (r.new_phase ≡ review))
        (check_review_triggers input)
  unfolding check_review_triggers
  triggers-Challenged =
      let P : Option GovernanceTransitionResult → Type 0 =
        Answers (λ r. Challenged input.thresholds input.state × (r.new_phase ≡ review)) in
      if-elim P _ (λ e. answered _ (tls (leb→le _ _ e), refl))
        (λ _.
          if-elim P _ (λ e. answered _ (hard (leb→le _ _ e), refl))
            (λ _.
              if-elim P _ (λ e. answered _ (route (leb→le _ _ e), refl))
                (λ _.
                  if-elim P _ (λ e. answered _ (mixed (leb→le _ _ e), refl))
                    (λ _.
                      if-elim P _ (λ e. answered _ (failures (leb→le _ _ e), refl))
                        (λ _. unanswered)))))

  fallback-Sustained :
      Answers
        (λ r. Sustained hours input.thresholds input.state × (r.new_phase ≡ fallback))
        (check_fallback_from_review hours input input.thresholds.fallback)
  unfolding check_fallback_from_review
  fallback-Sustained =
      let P : Option GovernanceTransitionResult → Type 0 =
        Answers (λ r. Sustained hours input.thresholds input.state × (r.new_phase ≡ fallback)) in
      if-elim P _ (λ e. answered _ (long (leb→le _ _ e), refl))
        (λ _.
          if-elim P _ (λ e. answered _ (conflicts (leb→le _ _ e), refl))
            (λ _. if-elim P _ (λ e. answered _ (opposites (leb→le _ _ e), refl)) (λ _. unanswered)))

  pub check_stable-Promotable :
      (m : ThirdPartyMode)
      → input.thresholds.third_party_mode ≡ m
      → Answers
          (λ r. Promotable input.thresholds input.state × (r.new_phase ≡ stable))
          (check_stable m input)
  unfolding check_stable check_stable_with_third_party check_stable_local_only
      stable_with_third_party_ok stable_local_only_ok
  check_stable-Promotable enabled m =
      if-elim (Answers (λ r. Promotable input.thresholds input.state × (r.new_phase ≡ stable))) _
        (λ e.
          let (o, e) = &&-both _ _ e in
          let (l, e) = &&-both _ _ e in
          let (p, e) = &&-both _ _ e in
          let (d, e) = &&-both _ _ e in
          let (h, e) = &&-both _ _ e in
          let (x, n) = &&-both _ _ e in
          answered _ (
            with_peers m (wrapped_le _ _ o) (leb→le _ _ l) (leb→le _ _ p) (leb→le _ _ d)
                (leb→le _ _ h) (leb→le _ _ x) (leb→le _ _ n),
            refl,
          ))
        (λ _. unanswered)
  check_stable-Promotable disabled m =
      if-elim (Answers (λ r. Promotable input.thresholds input.state × (r.new_phase ≡ stable))) _
        (λ e.
          let (o, e) = &&-both _ _ e in
          let (l, e) = &&-both _ _ e in
          let (h, e) = &&-both _ _ e in
          let (x, n) = &&-both _ _ e in
          answered _ (
            local_only m (wrapped_le _ _ o) (leb→le _ _ l) (leb→le _ _ h) (leb→le _ _ x)
                (leb→le _ _ n),
            refl,
          ))
        (λ _. unanswered)

  -- A phase that is kept.
  kept : {p : GovernancePhase} → input.state.phase ≡ p → To p (no_change input.state.phase)
  kept {p} h = record { edge = subst (λ q. Edge hours input p q) (sym h) (stay p) }

  to :
      {p q : GovernancePhase} {r : GovernanceTransitionResult}
      → r.new_phase ≡ q
      → Edge hours input p q
      → To p r
  to {p} h e = record { edge = subst (λ q. Edge hours input p q) (sym h) e }

  frozen-To : input.state.phase ≡ suggested → To suggested (freeze_or_stay input)
  unfolding freeze_or_stay
  frozen-To h =
      if-elim (To suggested)
        (leb input.thresholds.mixed_evidence.mixed_freeze_threshold input.state.mixed_count_24h)
        {x = goes suggested false true mixed_freeze} (λ _. to refl (stay suggested)) (λ _. kept h)

  suggested-Edge : input.state.phase ≡ suggested → To suggested (evaluate_suggested input)
  unfolding evaluate_suggested
  suggested-Edge h =
      unwrap_or-elim (To suggested) (check_stable input.thresholds.third_party_mode input)
        (freeze_or_stay input) (check_stable-Promotable _ refl) (λ r (p, e). to e (stabilise p))
        (frozen-To h)

  cleared-To : input.state.phase ≡ review → To review (clear_or_stay input)
  unfolding clear_or_stay
  cleared-To h =
      if-elim (To review)
        ((input.state.hard_conflict_count_24h == 0)
          && (ltb input.state.mixed_count_24h input.thresholds.mixed_evidence.mixed_freeze_threshold
              && leb 10 input.state.consecutive_no_conflict_count))
        {x = goes learning true false review_cleared}
        (λ e. to refl (clear (ground arith) (ground arith) (ground arith))) (λ _. kept h)

  review-Edge : input.state.phase ≡ review → To review (evaluate_review hours input)
  unfolding evaluate_review
  review-Edge h =
      unwrap_or-elim (To review) (check_fallback_from_review hours input input.thresholds.fallback)
        (clear_or_stay input) fallback-Sustained (λ r (p, e). to e (fall p)) (cleared-To h)

  fallback-Edge : input.state.phase ≡ fallback → To fallback (evaluate_fallback input)
  unfolding evaluate_fallback
  fallback-Edge h =
      if-elim (To fallback)
        (not input.latest_hard_conflict
          && (not input.latest_tls_mismatch
              && (not input.latest_is_mixed
                  && ((input.state.hard_conflict_count_24h == 0)
                      && (input.state.tls_mismatch_count_24h == 0)))))
        {x = goes learning true false fallback_expired}
        (λ e. to refl (recover (ground arith) (ground arith))) (λ _. kept h)

  learning-Edge : input.state.phase ≡ learning → To learning (evaluate_learning input)
  unfolding evaluate_learning promotion_reason
  learning-Edge h =
      let s = input.state in
      let frozen = input.thresholds.mixed_evidence.mixed_freeze_threshold in
      let promotes =
        input.latest_can_promote
        && ((s.hard_conflict_count_24h == 0) && ltb s.mixed_count_24h frozen) in
      if-elim (To learning) (leb frozen s.mixed_count_24h)
        {x = goes learning false true mixed_freeze}
        {y = if promotes
          then goes suggested true false (promotion_reason input)
          else no_change s.phase}
        (λ _. to refl (stay learning))
        (λ _.
          if-elim (To learning) promotes {x = goes suggested true false (promotion_reason input)}
            (λ e. to refl (suggest (ground arith) (ground arith) (ground arith))) (λ _. kept h))

  phase-Edge : (p : GovernancePhase) → input.state.phase ≡ p → To p (evaluate_phase hours p input)
  unfolding evaluate_phase evaluate_stable
  phase-Edge new h = to refl (stay new)
  phase-Edge learning h = learning-Edge h
  phase-Edge suggested h = suggested-Edge h
  phase-Edge stable h = to refl (stay stable)
  phase-Edge review h = review-Edge h
  phase-Edge fallback h = fallback-Edge h

  not_seen :
      (p : GovernancePhase) → (false || same_phase p new) ≡ true → Edge hours input p learning
  unfolding same_phase
  not_seen new e = start
  not_seen learning e = cc
  not_seen suggested e = cc
  not_seen stable e = cc
  not_seen review e = cc
  not_seen fallback e = cc

  from_seen :
      (p : GovernancePhase)
      → (input.is_first_seen || same_phase p new) ≡ true
      → Edge hours input p learning
  unfolding same_phase
  from_seen p e = elim (Bool-cases input.is_first_seen) [
    | inl h ↦ restart p h
    | inr h ↦ not_seen p (ap (λ b. b || same_phase p new) (sym h) ∙ e)
  ]

  triggered-Edge :
      (p : GovernancePhase)
      → same_phase p fallback ≡ false
      → input.state.phase ≡ p
      → To p (unwrap_or (check_review_triggers input) (evaluate_phase hours p input))
  triggered-Edge p n h =
      unwrap_or-elim (To p) (check_review_triggers input) (evaluate_phase hours p input)
        triggers-Challenged (λ r (c, e). to e (degrade p n c)) (phase-Edge p h)

-- Every evaluation leads along an edge of the diagram, for any thresholds, clock and observation:
-- to the suggested phase only from learning by an observation that may promote, without hard
-- conflicts and with mixed answers under the threshold; to the stable phase only from suggested with
-- the counts of the mode; to review only from a phase other than fallback with a count at its
-- threshold; to fallback only from review; and back to learning from review or fallback only when no
-- hard conflict is counted, or as a domain first seen.
pub evaluate_governance_transition-Edge :
    (hours : ℕ) (input : GovernanceTransitionInput)
    → Edge hours input input.state.phase (evaluate_governance_transition hours input).new_phase
unfolding evaluate_governance_transition
evaluate_governance_transition-Edge hours input =
    let p = input.state.phase in
    let all : To hours input p _ =
      if-elim (To hours input p) _ (λ e. to hours input refl (from_seen hours input p e))
        (λ _.
          if-elim (To hours input p) _ (λ _. phase-Edge hours input p refl)
            (λ n. triggered-Edge hours input p n refl)) in
    all.edge
