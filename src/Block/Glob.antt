-- ===== src/Block/Glob.antt =====
-- `label_matches_glob`: one label against one pattern with `*` in it.
use border_dns.Prelude.{
  ℕ, ◌+◌, ◌-◌, Bool, true, false, Option, none, some, List, [], ◌∷◌, length, drop, ◌==◌,
  if◌then◌else◌,
}
use border_dns.Text.{
  Text, is_empty, to_lowercase, eq_ignore_ascii_case, contains, starts_with, ends_with, find, split,
}

-- What a round of the loop does to `pos`: `none` is the early return of false.
unfoldable pub glob_part : (last i pos : ℕ) → Text → Text → Option ℕ
glob_part last i pos part target =
    if is_empty part
    then some pos
    else if i == 0
    then (if starts_with target part then some (length part) else none)
    else if i == last
    then (if ends_with target part then some pos else none)
    else elim (find (drop pos target) part) [
      | some found ↦ some (pos + (found + length part))
      | none ↦ none
    ]

-- `i` is the index of the first of the parts left.
unfoldable pub glob_loop : (last i pos : ℕ) → List Text → Text → Bool
glob_loop last i pos [] target = true
glob_loop last i pos (part ∷ parts) target = elim (glob_part last i pos part target) [
  | some pos' ↦ glob_loop last (i + 1) pos' parts target
  | none ↦ false
]

unfoldable pub label_matches_glob : Text → Text → Bool
label_matches_glob pattern target =
    let parts = split b'*' (to_lowercase pattern) in
    if contains pattern b'*'
    then glob_loop (length parts - 1) 0 0 parts (to_lowercase target)
    else eq_ignore_ascii_case pattern target
