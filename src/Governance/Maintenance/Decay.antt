-- ===== src/Governance/Maintenance/Decay.antt =====
-- What decay does to the counters and what the maintenance keeps of it.
use mathlib.Core.Path.{subst}
use border_dns.Prelude.{
  ℕ, ◌+◌, ◌-◌, ◌*◌, ◌≤◌, ◌<◌, ◌≡◌, ◌≢◌, ◌⊎◌, inl, inr, Option, none, some, true, false, ltb, ◌==◌,
  Bool-cases, arith,
}
use border_dns.Governance.State.{DomainGovernanceState, decay_24h_counters, decayed, older, window}
use border_dns.Governance.Transition.{GovernanceTransitionInput, check_review_triggers}
use border_dns.Governance.Maintenance.{maintain}

pub decayed_le : (now : ℕ) (last : Option ℕ) (count : ℕ) → decayed now last count ≤ count
unfolding decayed
decayed_le now last count = ground arith

-- Decay adds no review: when no trigger fires on a state, none fires on it once its counters have
-- decayed, at any time and for any thresholds.
pub check_review_triggers-decay :
    (now : ℕ) (input : GovernanceTransitionInput)
    → check_review_triggers input ≡ none
    → check_review_triggers (record input { state = decay_24h_counters now input.state }) ≡ none
unfolding check_review_triggers decay_24h_counters
check_review_triggers-decay now input h =
    let s = input.state in
    ground (
      arith,
      decayed_le now s.last_mixed_at s.mixed_count_24h,
      decayed_le now s.last_hard_conflict_at s.hard_conflict_count_24h,
      decayed_le now s.last_tls_mismatch_at s.tls_mismatch_count_24h,
      decayed_le now s.last_route_opposite_at s.route_opposite_count_24h,
    )

-- What becomes of a counter by `now`: it lapses when its last event is more than a day old.
pub data Lapses (now : ℕ) : Option ℕ → ℕ → ℕ → Type 0 where
  no_event : (count : ℕ) → Lapses now none count count
  recent : (t count : ℕ) → now - t ≤ 24 * 3600 * 1000000000 → Lapses now (some t) count count
  lapsed : (t count : ℕ) → 24 * 3600 * 1000000000 < now - t → Lapses now (some t) count 0

decayed-Lapses :
    (now : ℕ) (last : Option ℕ) (count : ℕ) → Lapses now last count (decayed now last count)
unfolding decayed older
decayed-Lapses now none count = no_event count
decayed-Lapses now (some t) count = elim (Bool-cases (ltb window (now - t))) [
  | inl e ↦ rw e (lapsed t count (ground arith))
  | inr e ↦ rw e (recent t count (ground arith))
]

-- What a tick makes of an entry.
pub data Ticked (now : ℕ) (s : DomainGovernanceState) : DomainGovernanceState → Type 0 where
  kept :
      Lapses now s.last_mixed_at s.mixed_count_24h s.mixed_count_24h
      → Lapses now s.last_hard_conflict_at s.hard_conflict_count_24h s.hard_conflict_count_24h
      → Ticked now s s
  stored :
      {mixed soft hard tls opposite : ℕ}
      → Lapses now s.last_mixed_at s.mixed_count_24h mixed
      → Lapses now s.last_soft_conflict_at s.soft_conflict_count_24h soft
      → Lapses now s.last_hard_conflict_at s.hard_conflict_count_24h hard
      → Lapses now s.last_tls_mismatch_at s.tls_mismatch_count_24h tls
      → Lapses now s.last_route_opposite_at s.route_opposite_count_24h opposite
      → (mixed ≢ s.mixed_count_24h) ⊎ (hard ≢ s.hard_conflict_count_24h)
      → Ticked now s (record s {
        mixed_count_24h = mixed;
        soft_conflict_count_24h = soft;
        hard_conflict_count_24h = hard;
        tls_mismatch_count_24h = tls;
        route_opposite_count_24h = opposite;
        state_version = s.state_version + 1;
      })

eq_of_eq_true : (a b : ℕ) → (a == b) ≡ true → a ≡ b
eq_of_eq_true a b h = ground arith

ne_of_eq_false : (a b : ℕ) → (a == b) ≡ false → a ≢ b
ne_of_eq_false a b h = ground arith

-- A tick of the maintenance works out the five counters of a day, where a counter whose last event
-- is more than a day old becomes zero and any other stays. When this changes the mixed count or the
-- count of hard conflicts, it stores the entry with all five and under the next version; when it
-- changes neither, the entry stays as it is, with the counts of TLS mismatches, of opposite routes
-- and of soft conflicts however old.
pub maintain-decay : (now : ℕ) (s : DomainGovernanceState) → Ticked now s (maintain now s)
unfolding maintain decay_24h_counters
maintain-decay now s =
    let mixed = decayed-Lapses now s.last_mixed_at s.mixed_count_24h in
    let hard = decayed-Lapses now s.last_hard_conflict_at s.hard_conflict_count_24h in
    let same_version : (s.state_version == s.state_version) ≡ true = ground arith in
    let m = decayed now s.last_mixed_at s.mixed_count_24h in
    let h = decayed now s.last_hard_conflict_at s.hard_conflict_count_24h in
    let store =
      stored mixed (decayed-Lapses now s.last_soft_conflict_at s.soft_conflict_count_24h) hard
        (decayed-Lapses now s.last_tls_mismatch_at s.tls_mismatch_count_24h)
        (decayed-Lapses now s.last_route_opposite_at s.route_opposite_count_24h) in
    elim (Bool-cases (m == s.mixed_count_24h)) [
      | inr e ↦ rw (same_version, e) (store (inl (ne_of_eq_false m s.mixed_count_24h e)))
      | inl e ↦ elim (Bool-cases (h == s.hard_conflict_count_24h)) [
        | inr f ↦
            rw (same_version, e, f) (store (inr (ne_of_eq_false h s.hard_conflict_count_24h f)))
        | inl f ↦
            let m_same = eq_of_eq_true m s.mixed_count_24h e in
            let h_same = eq_of_eq_true h s.hard_conflict_count_24h f in
            rw (same_version, e, f)
              (kept (subst (λ c. Lapses now s.last_mixed_at s.mixed_count_24h c) m_same mixed) (
                subst (λ c. Lapses now s.last_hard_conflict_at s.hard_conflict_count_24h c) h_same
                  hard))
      ]
    ]
