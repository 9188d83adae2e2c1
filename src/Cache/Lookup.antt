-- ===== src/Cache/Lookup.antt =====
-- What a lookup returns after an insertion, and the lifetimes of the entries.
use border_dns.Prelude.{
  ℕ, ◌-◌, ◌/◌, ◌≡◌, ◌≢◌, refl, sym, ap, ◌∙◌, Option, none, some, List, leb, ◌==◌, ◌⊎◌, inl, inr,
  Bool-cases, if◌then◌else◌, if-elim, arith,
}
use border_dns.Types.Codes.{QType}
use border_dns.Types.Route.{Route}
use border_dns.Protocol.Name.{DomainName, labels}
use border_dns.Protocol.Message.{DnsMessage}
use border_dns.Cache.{
  CacheEntry, CachedResponse, RouteScopedCache, second, is_expired, serve, get_scoped, evict,
  evict_oldest, make_room, insert_scoped_with_ttl, insert_negative_scoped,
}
use border_dns.Cache.Entries.{EntryMap}

module _ (M : EntryMap CacheEntry) (hash : Route → QType → List (List ℕ) → ℕ) where
  abbrev Cache : Type 0
  Cache = RouteScopedCache M hash

  -- The answer of a lookup that finds the entry.
  pub answer_of : ℕ → CacheEntry → Option CachedResponse
  answer_of now e =
      if leb e.ttl_secs ((now - e.inserted_at) / second) then none else some e.response

  -- What a lookup that finds nothing, or an entry, returns.
  pub answer : ℕ → Option CacheEntry → Option CachedResponse
  answer now (some e) = answer_of now e
  answer now none = none

  serve-answer :
      (now key : ℕ) (found : Option CacheEntry) (c : Cache)
      → (serve M hash now key found c).0 ≡ answer now found
  unfolding serve is_expired answer answer_of
  serve-answer now key (some e) c = ground arith
  serve-answer now key none c = refl

  pub get_scoped-answer :
      (now : ℕ) (route : Route) (qtype : QType) (name : DomainName) (c : Cache)
      → (get_scoped M hash now route qtype name c).0
        ≡ answer now (M.get (hash route qtype (labels name)) c.entries)
  unfolding get_scoped
  get_scoped-answer now route qtype name c =
      serve-answer now _ (M.get (hash route qtype (labels name)) c.entries) c

  -- A negative insertion changes no lookup of another key: a route, type and name that hash otherwise
  -- are answered as before, at any time.
  pub insert_negative_scoped_isolated :
      (stored now : ℕ) (route other : Route) (qtype type : QType) (name domain : DomainName)
      (message : DnsMessage) (c : Cache)
      → hash other type (labels domain) ≢ hash route qtype (labels name)
      → (get_scoped M hash now other type domain
          (insert_negative_scoped M hash stored route qtype name message c)).0
        ≡ (get_scoped M hash now other type domain c).0
  unfolding insert_negative_scoped
  insert_negative_scoped_isolated stored now route other qtype type name domain message c d =
      get_scoped-answer now other type domain
        (insert_negative_scoped M hash stored route qtype name message c)
      ∙ ap (answer now) (M.get-insert_other _ _ _ _ d)
      ∙ sym (get_scoped-answer now other type domain c)

  evict-get :
      (oldest : Option ℕ) (key : ℕ) (c : Cache)
      → (M.get key (evict M hash oldest c).entries ≡ M.get key c.entries)
        ⊎ (M.get key (evict M hash oldest c).entries ≡ none)
  unfolding evict
  evict-get none key c = inl refl
  evict-get (some k) key c = elim (Bool-cases (key == k)) [
    | inl e ↦ inr (
        ap (λ j. M.get key (M.remove j c.entries)) (let s : k ≡ key = ground arith in s)
        ∙ M.get-remove key c.entries)
    | inr e ↦ inl (M.get-remove_other k key c.entries (λ s. ground arith))
  ]

  make_room-get :
      (now key : ℕ) (c : Cache)
      → (M.get key (make_room M hash now c).entries ≡ M.get key c.entries)
        ⊎ (M.get key (make_room M hash now c).entries ≡ none)
  unfolding make_room evict_oldest
  make_room-get now key c =
      if-elim
        (λ (room : Cache).
          (M.get key room.entries ≡ M.get key c.entries) ⊎ (M.get key room.entries ≡ none))
        (leb c.config.max_entries (M.len c.entries)) {x = evict_oldest M hash now c} {y = c}
        (λ _. evict-get _ key c) (λ _. inl refl)

  -- An insertion changes no answer for another key: a route, type and name that hash otherwise are
  -- answered as before or, when their entry was evicted, not at all, at any time.
  pub insert_scoped_with_ttl_isolated :
      (stored now : ℕ) (route other : Route) (qtype type : QType) (name domain : DomainName)
      (message : DnsMessage) (ttl : ℕ) (c : Cache)
      → hash other type (labels domain) ≢ hash route qtype (labels name)
      → ((get_scoped M hash now other type domain
            (insert_scoped_with_ttl M hash stored route qtype name message ttl c)).0
          ≡ (get_scoped M hash now other type domain c).0)
        ⊎ ((get_scoped M hash now other type domain
              (insert_scoped_with_ttl M hash stored route qtype name message ttl c)).0
            ≡ none)
  unfolding insert_scoped_with_ttl answer
  insert_scoped_with_ttl_isolated stored now route other qtype type name domain message ttl c d =
      let key = hash other type (labels domain) in
      let same =
        get_scoped-answer now other type domain
          (insert_scoped_with_ttl M hash stored route qtype name message ttl c)
        ∙ ap (answer now) (M.get-insert_other _ key _ (make_room M hash stored c).entries d) in
      elim (make_room-get stored key c) [
        | inl e ↦ inl (same ∙ ap (answer now) e ∙ sym (get_scoped-answer now other type domain c))
        | inr e ↦ inr (same ∙ ap (answer now) e)
      ]

  serve-config :
      (now key : ℕ) (found : Option CacheEntry) (c : Cache)
      → (serve M hash now key found c).1.config ≡ c.config
  unfolding serve
  serve-config now key none c = refl
  serve-config now key (some e) c =
      if-elim (λ (r : Option CachedResponse × Cache). r.1.config ≡ c.config) (is_expired now e)
        (λ _. refl) (λ _. refl)

  pub get_scoped-config :
      (now : ℕ) (route : Route) (qtype : QType) (name : DomainName) (c : Cache)
      → (get_scoped M hash now route qtype name c).1.config ≡ c.config
  unfolding get_scoped
  get_scoped-config now route qtype name c = serve-config now _ _ c
