-- ===== src/Pipeline/Examples/States.antt =====
-- An association list as the map of the governance states: the first pair of a domain counts.
use border_dns.Prelude.{
  ◌≡◌, ◌≢◌, refl, sym, Option, none, some, List, [], ◌∷◌, length, map, if◌then◌else◌, Bool-cases,
  inl, inr,
}
use border_dns.Text.{Text, text_eq}
use border_dns.Text.Equality.{text_eq_refl, eq_of_text_eq}
use border_dns.Governance.State.{DomainGovernanceState}
use border_dns.Governance.Store.{StateMap}

abbrev pub find : Text → List (Text × DomainGovernanceState) → Option DomainGovernanceState
find k [] = none
find k ((j, s) ∷ m) = if text_eq j k then some s else find k m

pub find-insert :
    (k : Text) (s : DomainGovernanceState) (m : List (Text × DomainGovernanceState))
    → find k ((k, s) ∷ m) ≡ some s
find-insert k s m = rw (text_eq_refl k) refl

pub find-insert_other :
    (k j : Text) (s : DomainGovernanceState) (m : List (Text × DomainGovernanceState))
    → j ≢ k
    → find j ((k, s) ∷ m) ≡ find j m
find-insert_other k j s m d = elim (Bool-cases (text_eq k j)) [
  | inl e ↦ absurd (d (sym (eq_of_text_eq k j e)))
  | inr e ↦ rw e refl
]

abbrev pub state_list : StateMap
state_list = record {
  Map = List (Text × DomainGovernanceState);
  empty = [];
  get = find;
  insert = λ k s m. (k, s) ∷ m;
  len = length;
  keys = map (λ e. e.0);
  get-insert = find-insert;
  get-insert_other = find-insert_other;
}
