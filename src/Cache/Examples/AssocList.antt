-- ===== src/Cache/Examples/AssocList.antt =====
-- An association list as the map: the first pair of a key counts.
use border_dns.Prelude.{
  ℕ, ◌≤◌, ◌<◌, ◌≡◌, ◌≢◌, refl, Option, none, some, List, [], ◌∷◌, length, All, ◌==◌, if◌then◌else◌,
  if-elim, arith,
}
use border_dns.Cache.Entries.{EntryMap}

module _ {V : Type 0} where
  abbrev pub find : ℕ → List (ℕ × V) → Option V
  find k [] = none
  find k ((j, v) ∷ m) = if k == j then some v else find k m

  abbrev pub without : ℕ → List (ℕ × V) → List (ℕ × V)
  without k [] = []
  without k ((j, v) ∷ m) = let rest = without k m in if k == j then rest else (j, v) ∷ rest

  pub find-insert : (k : ℕ) (v : V) (m : List (ℕ × V)) → find k ((k, v) ∷ m) ≡ some v
  find-insert k v m = ground arith

  pub find-without : (k : ℕ) (m : List (ℕ × V)) → find k (without k m) ≡ none
  find-without k [] = refl
  find-without k ((j, v) ∷ m) = ground (arith, find-without k m)

  pub find-without_other : (k j : ℕ) (m : List (ℕ × V)) → j ≢ k → find j (without k m) ≡ find j m
  find-without_other k j [] d = refl
  find-without_other k j ((i, v) ∷ m) d = ground (arith, find-without_other k j m d)

  pub find-insert_other :
      (k j : ℕ) (v : V) (m : List (ℕ × V)) → j ≢ k → find j ((k, v) ∷ without k m) ≡ find j m
  find-insert_other k j v m d = ground (arith, find-without_other k j m d)

  pub without_le : (k : ℕ) (m : List (ℕ × V)) → length (without k m) ≤ length m
  without_le k [] = omega arith
  without_le k ((j, v) ∷ m) = ground (arith, without_le k m)

  pub without_lt :
      (k : ℕ) (v : V) (m : List (ℕ × V)) → find k m ≡ some v → length (without k m) < length m
  without_lt k v [] h = cc
  without_lt k v ((j, w) ∷ m) h = ground (arith, without_le k m, without_lt k v m)

  found : (j : ℕ) (v : V) (m : List (ℕ × V)) → (w : V) × (find j ((j, v) ∷ m) ≡ some w)
  found j v m = (v, find-insert j v m)

  found_behind :
      (j k : ℕ) (v : V) (m : List (ℕ × V))
      → ((w : V) × (find j m ≡ some w))
      → (w : V) × (find j ((k, v) ∷ m) ≡ some w)
  found_behind j k v m (w, h) =
      if-elim (λ (x : Option V). (u : V) × (x ≡ some u)) (j == k) {x = some v} {y = find j m}
        (λ _. (v, refl)) (λ _. (w, h))

  pairs_behind :
      (k : ℕ) (v : V) (m rest : List (ℕ × V))
      → All (λ e. (w : V) × (find e.0 m ≡ some w)) rest
      → All (λ e. (w : V) × (find e.0 ((k, v) ∷ m) ≡ some w)) rest
  pairs_behind k v m [] a = tt
  pairs_behind k v m ((j, x) ∷ rest) (h, a) = (found_behind j k v m h, pairs_behind k v m rest a)

  pub pairs_found : (m : List (ℕ × V)) → All (λ e. (w : V) × (find e.0 m ≡ some w)) m
  pairs_found [] = tt
  pairs_found ((k, v) ∷ m) = (found k v m, pairs_behind k v m m (pairs_found m))

abbrev pub assoc_list : (V : Type 0) → EntryMap V
assoc_list V = record {
  Map = List (ℕ × V);
  empty = [];
  get = find;
  insert = λ k v m. (k, v) ∷ without k m;
  remove = without;
  len = length;
  iter = λ m. m;
  get-insert = λ k v m. find-insert k v (without k m);
  get-insert_other = find-insert_other;
  get-remove = find-without;
  get-remove_other = find-without_other;
  len-insert = λ k v m. omega (arith, without_le k m);
  len-remove = without_lt;
  len-iter = λ m. refl;
  iter-get = pairs_found;
}
