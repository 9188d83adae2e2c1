-- ===== src/Governance/Store.antt =====
-- crates/border-dns-facts/src/store/governance_store.rs: the governance states of the domains. The
-- concurrent map of a third-party package is an interface; calls are taken one after the other.
use border_dns.Prelude.{
  ℕ, ◌≡◌, ◌≢◌, refl, Bool, true, false, Option, none, some, List, if◌then◌else◌, ◌==◌, arith,
  Option-cases, inl, inr,
}
use border_dns.Text.{Text}
use border_dns.Governance.State.{DomainGovernanceState, new_state}

-- What the store calls of the map, and what it relies on.
pub record StateMap : Type 1 where
  pub Map : Type 0
  pub empty : Map
  pub get : Text → Map → Option DomainGovernanceState
  pub insert : Text → DomainGovernanceState → Map → Map
  pub len : Map → ℕ
  pub keys : Map → List Text
  pub get-insert : (k : Text) (s : DomainGovernanceState) (m : Map) → get k (insert k s m) ≡ some s
  pub get-insert_other :
      (k j : Text) (s : DomainGovernanceState) (m : Map) → j ≢ k → get j (insert k s m) ≡ get j m

module _ (S : StateMap) where
  abbrev pub get : Text → S.Map → Option DomainGovernanceState
  get domain store = S.get domain store

  unfoldable pub found_or_new :
      ℕ → Text → Option DomainGovernanceState → S.Map → DomainGovernanceState × S.Map
  found_or_new now domain (some state) store = (state, store)
  found_or_new now domain none store = (new_state now, S.insert domain (new_state now) store)

  unfoldable pub get_or_create : ℕ → Text → S.Map → DomainGovernanceState × S.Map
  get_or_create now domain store = found_or_new now domain (S.get domain store) store

  unfoldable pub update_found :
      Text → ℕ → DomainGovernanceState → Option DomainGovernanceState → S.Map → Bool × S.Map
  update_found domain expected_version state none store = (false, store)
  update_found domain expected_version state (some entry) store =
      if entry.state_version == expected_version
      then (true, S.insert domain state store)
      else (false, store)

  unfoldable pub update : Text → ℕ → DomainGovernanceState → S.Map → Bool × S.Map
  update domain expected_version state store =
      update_found domain expected_version state (S.get domain store) store

  unfoldable pub force_update : Text → DomainGovernanceState → S.Map → S.Map
  force_update domain state store = S.insert domain state store

  -- `is_empty`
  unfoldable pub has_no_state : S.Map → Bool
  has_no_state store = S.len store == 0

  abbrev pub domains : S.Map → List Text
  domains store = S.keys store

  -- A domain that was asked for has an entry, which the next call finds as it is, at any later time.
  pub get_or_create-get_or_create :
      (now later : ℕ) (domain : Text) (store : S.Map)
      → get_or_create later domain (get_or_create now domain store).1
        ≡ get_or_create now domain store
  unfolding get_or_create found_or_new
  get_or_create-get_or_create now later domain store = elim (Option-cases (S.get domain store)) [
    | inl e ↦ rw (e, S.get-insert domain (new_state now) store) refl
    | inr (s, e) ↦ rw (e, e) refl
  ]

  -- Of two updates from the same version the first to come is applied and the second is refused: when
  -- the entry has the expected version and the first state comes with another, the first update stores
  -- it, and the second changes nothing and says so.
  pub update-update :
      (domain : Text) (version : ℕ) (entry first second : DomainGovernanceState) (store : S.Map)
      → S.get domain store ≡ some entry
      → entry.state_version ≡ version
      → first.state_version ≢ version
      → (update domain version first store ≡ (true, force_update domain first store))
        × (update domain version second (force_update domain first store)
            ≡ (false, force_update domain first store))
  unfolding update update_found force_update
  update-update domain version entry first second store e v n =
      let same : (entry.state_version == version) ≡ true = ground arith in
      let other : (first.state_version == version) ≡ false = ground arith in
      (rw (e, same) refl, rw (S.get-insert domain first store, other) refl)
