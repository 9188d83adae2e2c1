-- ===== src/Upstream/Race.antt =====
-- The answer of a race between the upstream servers.
use border_dns.Prelude.{ℕ, min, ◌≡◌, ◌⊎◌, ◌↔◌, inl, inr, refl, List, [], ◌∷◌, AnyOf}
use border_dns.Text.{is_empty}
use border_dns.Protocol.Message.{DnsMessage, to_wire}
use border_dns.Upstream.{
  all_failed, Forwarded, answered, failed, UpstreamServer, race, forward_single, results, forward,
}

-- The order in which the tasks finish loses none and makes up none.
abbrev pub Reorders : (List (Forwarded DnsMessage) → List (Forwarded DnsMessage)) → Type 0
Reorders finish_order =
    (r : Forwarded DnsMessage) (rs : List (Forwarded DnsMessage))
    → AnyOf (λ s. s ≡ r) (finish_order rs) ↔ AnyOf (λ s. s ≡ r) rs

race_sound :
    (rs : List (Forwarded DnsMessage)) (m : DnsMessage)
    → race rs ≡ answered m
    → AnyOf (λ s. s ≡ answered m) rs
unfolding race
race_sound [] m h = cc
race_sound (answered n ∷ rs) m h = inl h
race_sound (failed e ∷ rs) m h = inr (race_sound rs m h)

race_complete :
    (rs : List (Forwarded DnsMessage)) (m : DnsMessage)
    → AnyOf (λ s. s ≡ answered m) rs
    → (n : DnsMessage) × (race rs ≡ answered n)
unfolding race
race_complete [] m h = absurd h
race_complete (answered n ∷ rs) m h = (n, refl)
race_complete (failed e ∷ rs) m (inl h) = cc
race_complete (failed e ∷ rs) m (inr h) = race_complete rs m h

race_outcome :
    (rs : List (Forwarded DnsMessage))
    → (race rs ≡ failed all_failed) ⊎ ((m : DnsMessage) × (race rs ≡ answered m))
unfolding race
race_outcome [] = inl refl
race_outcome (answered n ∷ rs) = inr (n, refl)
race_outcome (failed e ∷ rs) = race_outcome rs

module _ (exchange : UpstreamServer → ℕ → List ℕ → Forwarded (List ℕ)) (query : DnsMessage)
    (default_timeout : ℕ) where
  -- A server whose task ends with the message, within the shorter of the two timeouts.
  abbrev pub Responds : DnsMessage → UpstreamServer → Type 0
  Responds m server =
      forward_single exchange (to_wire query) server (min server.timeout_ms default_timeout)
      ≡ answered m

  results-Responds :
      (upstreams : List UpstreamServer) (m : DnsMessage)
      → AnyOf (λ s. s ≡ answered m) (results exchange query upstreams default_timeout)
        ↔ AnyOf (Responds m) upstreams
  unfolding results
  results-Responds [] m = (λ h. h, λ h. h)
  results-Responds (server ∷ upstreams) m =
      let (to, from) = results-Responds upstreams m in
      (
        λ h. elim h [ inl e ↦ inl e | inr r ↦ inr (to r) ],
        λ h. elim h [ inl e ↦ inl e | inr r ↦ inr (from r) ],
      )

  -- Whatever the order in which the tasks finish, a query is answered as soon as one of the upstream
  -- servers responds to it, and then with the response of one of them; when none does, it fails.
  pub forward-Responds :
      (finish_order : List (Forwarded DnsMessage) → List (Forwarded DnsMessage))
      (upstreams : List UpstreamServer)
      → Reorders finish_order
      → ((m : DnsMessage)
          → AnyOf (Responds m) upstreams
          → (n : DnsMessage) × (forward exchange finish_order query upstreams default_timeout
              ≡ answered n)
            × AnyOf (Responds n) upstreams)
        × ((forward exchange finish_order query upstreams default_timeout ≡ failed all_failed)
            ⊎ ((n : DnsMessage) × (forward exchange finish_order query upstreams default_timeout
                  ≡ answered n)
                × AnyOf (Responds n) upstreams))
  unfolding forward is_empty
  forward-Responds finish_order [] p = (λ m h. absurd h, inl refl)
  forward-Responds finish_order (server ∷ upstreams) p =
      let rs = results exchange query (server ∷ upstreams) default_timeout in
      let back : (n : DnsMessage)
          → race (finish_order rs) ≡ answered n
          → AnyOf (Responds n) (server ∷ upstreams) =
        λ n e.
          (results-Responds (server ∷ upstreams) n).0
            ((p (answered n) rs).0 (race_sound (finish_order rs) n e)) in
      (
        λ m h.
            (let (n, e) =
                race_complete (finish_order rs) m
                  ((p (answered m) rs).1 ((results-Responds (server ∷ upstreams) m).1 h)) in
              (n, e, back n e)),
        elim (race_outcome (finish_order rs)) [ inl e ↦ inl e | inr (n, e) ↦ inr (n, e, back n e) ],
      )
