-- ===== src/Cache/Entries.antt =====
-- The concurrent map of a third-party package that the cache keeps its entries in: the operations
-- that the cache calls and what it relies on.
use border_dns.Prelude.{ℕ, suc, ◌≤◌, ◌<◌, ◌≡◌, ◌≢◌, Option, none, some, List, length, All}

pub record EntryMap (V : Type 0) : Type 1 where
  pub Map : Type 0
  pub empty : Map
  pub get : ℕ → Map → Option V
  pub insert : ℕ → V → Map → Map
  pub remove : ℕ → Map → Map
  pub len : Map → ℕ
  pub iter : Map → List (ℕ × V)
  pub get-insert : (k : ℕ) (v : V) (m : Map) → get k (insert k v m) ≡ some v
  pub get-insert_other : (k j : ℕ) (v : V) (m : Map) → j ≢ k → get j (insert k v m) ≡ get j m
  pub get-remove : (k : ℕ) (m : Map) → get k (remove k m) ≡ none
  pub get-remove_other : (k j : ℕ) (m : Map) → j ≢ k → get j (remove k m) ≡ get j m
  pub len-insert : (k : ℕ) (v : V) (m : Map) → len (insert k v m) ≤ suc (len m)
  pub len-remove : (k : ℕ) (v : V) (m : Map) → get k m ≡ some v → len (remove k m) < len m
  pub len-iter : (m : Map) → len m ≡ length (iter m)
  pub iter-get : (m : Map) → All (λ e. (v : V) × (get e.0 m ≡ some v)) (iter m)
