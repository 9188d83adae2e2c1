-- ===== src/Cache/Capacity.antt =====
-- The eviction, and the bound on the number of entries.
use border_dns.Prelude.{
  ℕ, ◌≤◌, ◌<◌, ◌≡◌, inl, inr, refl, Option, none, some, List, [], ◌∷◌, length, All, ltb, leb,
  ltb→le, if-elim, Bool-cases, arith,
}
use border_dns.Types.Codes.{QType}
use border_dns.Types.Route.{Route}
use border_dns.Protocol.Name.{DomainName}
use border_dns.Protocol.Message.{DnsMessage}
use border_dns.Cache.{
  CacheEntry, RouteScopedCache, older_of, find_oldest, evict, evict_oldest, make_room,
  insert_scoped_with_ttl,
}
use border_dns.Cache.Entries.{EntryMap}

module _ (M : EntryMap CacheEntry) where
  -- A key that the search has found is one of the map's.
  abbrev InMap : M.Map → Option ℕ → Type 0
  InMap m none = Unit
  InMap m (some k) = (v : CacheEntry) × (M.get k m ≡ some v)

  find_oldest-InMap :
      (m : M.Map) (entries : List (ℕ × CacheEntry)) (best : Option ℕ × ℕ)
      → All (λ e. (v : CacheEntry) × (M.get e.0 m ≡ some v)) entries
      → InMap m best.0
      → InMap m (find_oldest entries best).0
  unfolding find_oldest
  find_oldest-InMap m [] best a b = b
  find_oldest-InMap m ((key, entry) ∷ entries) (k, t) (e, a) b =
      find_oldest-InMap m entries (older_of key entry (k, t)) a (
        if-elim (λ (x : Option ℕ × ℕ). InMap m x.0) (ltb entry.inserted_at t)
          {x = (some key, entry.inserted_at)} {y = (k, t)} (λ _. e) (λ _. b))

  find_oldest-some :
      (entries : List (ℕ × CacheEntry)) (k t : ℕ)
      → (j : ℕ) × ((find_oldest entries (some k, t)).0 ≡ some j)
  unfolding find_oldest
  find_oldest-some [] k t = (k, refl)
  find_oldest-some ((key, entry) ∷ entries) k t =
      if-elim (λ (x : Option ℕ × ℕ). (j : ℕ) × ((find_oldest entries x).0 ≡ some j))
        (ltb entry.inserted_at t) {x = (some key, entry.inserted_at)} {y = (some k, t)}
        (λ _. find_oldest-some entries key entry.inserted_at) (λ _. find_oldest-some entries k t)

  -- Among entries from before `now`, one at least, the search finds one.
  find_oldest-before :
      (entries : List (ℕ × CacheEntry)) (now : ℕ)
      → All (λ e. e.1.inserted_at < now) entries
      → 0 < length entries
      → (j : ℕ) × ((find_oldest entries (none, now)).0 ≡ some j)
  unfolding find_oldest
  find_oldest-before [] now a l = absurd (omega arith)
  find_oldest-before ((key, entry) ∷ entries) now (b, a) l =
      if-elim (λ (x : Option ℕ × ℕ). (j : ℕ) × ((find_oldest entries x).0 ≡ some j))
        (ltb entry.inserted_at now) {x = (some key, entry.inserted_at)} {y = (none, now)}
        (λ _. find_oldest-some entries key entry.inserted_at)
        (λ e. absurd (omega (arith, ltb→le entry.inserted_at now e)))

module _ (M : EntryMap CacheEntry) (hash : Route → QType → List (List ℕ) → ℕ) where
  abbrev Cache : Type 0
  Cache = RouteScopedCache M hash

  evict-len :
      (oldest : Option ℕ) (j : ℕ) (c : Cache)
      → oldest ≡ some j
      → InMap M c.entries oldest
      → M.len (evict M hash oldest c).entries < M.len c.entries
  unfolding evict
  evict-len none j c e h = cc
  evict-len (some k) j c e (v, h) = M.len-remove k v c.entries h

  evict_oldest-len :
      (now : ℕ) (c : Cache)
      → All (λ e. e.1.inserted_at < now) (M.iter c.entries)
      → 0 < M.len c.entries
      → M.len (evict_oldest M hash now c).entries < M.len c.entries
  unfolding evict_oldest
  evict_oldest-len now c a l =
      let (j, e) =
        find_oldest-before M (M.iter c.entries) now a (omega (arith, M.len-iter c.entries)) in
      evict-len _ j c e
        (find_oldest-InMap M c.entries (M.iter c.entries) (none, now) (M.iter-get c.entries) tt)

  make_room-len :
      (now : ℕ) (c : Cache)
      → All (λ e. e.1.inserted_at < now) (M.iter c.entries)
      → 0 < c.config.max_entries
      → M.len c.entries ≤ c.config.max_entries
      → M.len (make_room M hash now c).entries < c.config.max_entries
  unfolding make_room
  make_room-len now c a p l = elim (Bool-cases (leb c.config.max_entries (M.len c.entries))) [
    | inl e ↦
        rw e
          (let f : 0 < M.len c.entries = ground arith in omega (arith, evict_oldest-len now c a f))
    | inr e ↦ rw e (ground arith)
  ]

  -- An insertion keeps a cache of at most `max_entries` entries, at least one, within that bound,
  -- when all its entries were inserted before the time of the insertion.
  pub insert_scoped_with_ttl-len :
      (now : ℕ) (route : Route) (qtype : QType) (name : DomainName) (message : DnsMessage) (ttl : ℕ)
      (c : Cache)
      → All (λ e. e.1.inserted_at < now) (M.iter c.entries)
      → 0 < c.config.max_entries
      → M.len c.entries ≤ c.config.max_entries
      → M.len (insert_scoped_with_ttl M hash now route qtype name message ttl c).entries
        ≤ c.config.max_entries
  unfolding insert_scoped_with_ttl
  insert_scoped_with_ttl-len now route qtype name message ttl c a p l =
      omega (arith, make_room-len now c a p l, M.len-insert _ _ (make_room M hash now c).entries)
