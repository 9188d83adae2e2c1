-- ===== src/Text.antt =====
-- Text as the source's string functions take it: a list of the numbers of its characters. Names and
-- rules are ASCII, so lower case is that of ASCII; a length is a number of characters.
pub mod Equality
use border_dns.Prelude.{
  ℕ, ◌+◌, ◌-◌, Bool, true, false, not, ◌&&◌, ◌||◌, Option, none, some, List, [], ◌∷◌, ◌++◌, map,
  length, drop, leb, ◌==◌, if◌then◌else◌,
}

abbrev pub Text : Type 0
Text = List ℕ

unfoldable pub text_eq : Text → Text → Bool
text_eq [] [] = true
text_eq [] (c ∷ t) = false
text_eq (b ∷ s) [] = false
text_eq (b ∷ s) (c ∷ t) = (b == c) && text_eq s t

unfoldable pub is_empty {ℓ} : {A : Type ℓ} → List A → Bool
is_empty [] = true
is_empty (x ∷ xs) = false

unfoldable pub to_lower : ℕ → ℕ
to_lower c = if leb b'A' c && leb c b'Z' then c + 32 else c

unfoldable pub to_lowercase : Text → Text
to_lowercase s = map to_lower s

unfoldable pub eq_ignore_ascii_case : Text → Text → Bool
eq_ignore_ascii_case s t = text_eq (to_lowercase s) (to_lowercase t)

unfoldable pub contains : Text → ℕ → Bool
contains [] c = false
contains (b ∷ s) c = (b == c) || contains s c

unfoldable pub starts_with : Text → Text → Bool
starts_with s [] = true
starts_with [] (c ∷ t) = false
starts_with (b ∷ s) (c ∷ t) = (b == c) && starts_with s t

unfoldable pub ends_with : Text → Text → Bool
ends_with s t = leb (length t) (length s) && text_eq (drop (length s - length t) s) t

-- Where `t` starts first in `s`, counted from `at`.
unfoldable pub find_from : ℕ → Text → Text → Option ℕ
find_from at [] t = if starts_with [] t then some at else none
find_from at (b ∷ s) t =
    let later = find_from (at + 1) s t in if starts_with (b ∷ s) t then some at else later

unfoldable pub find : Text → Text → Option ℕ
find s t = find_from 0 s t

-- A character that is no separator goes on the first piece.
unfoldable pub onto_first : ℕ → List Text → List Text
onto_first c [] = (c ∷ []) ∷ []
onto_first c (piece ∷ pieces) = (c ∷ piece) ∷ pieces

-- The pieces between the separators, one more than there are separators.
unfoldable pub split : ℕ → Text → List Text
split separator [] = [] ∷ []
split separator (c ∷ s) =
    if c == separator then [] ∷ split separator s else onto_first c (split separator s)

-- `s.strip_suffix(c).unwrap_or(s)`
unfoldable pub strip_last : ℕ → Text → Text
strip_last c [] = []
strip_last c (b ∷ s) = if (b == c) && is_empty s then [] else b ∷ strip_last c s

unfoldable pub is_whitespace : ℕ → Bool
is_whitespace c = (c == 32) || (leb 9 c && leb c 13)

unfoldable pub trim_start : Text → Text
trim_start [] = []
trim_start (c ∷ s) = if is_whitespace c then trim_start s else c ∷ s

unfoldable pub trim_end : Text → Text
trim_end [] = []
trim_end (c ∷ s) =
    let rest = trim_end s in if is_whitespace c && is_empty rest then [] else c ∷ rest

unfoldable pub trim : Text → Text
trim s = trim_end (trim_start s)

unfoldable pub contains_text : Text → Text → Bool
contains_text s t = elim (find s t) [ some at ↦ true | none ↦ false ]

-- The words between white space: `word` is the one that is being read.
unfoldable pub words_from : Text → Text → List Text
words_from word [] = if is_empty word then [] else word ∷ []
words_from word (c ∷ s) =
    let ended = words_from [] s in
    let longer = words_from (word ++ (c ∷ [])) s in
    if is_whitespace c then (if is_empty word then ended else word ∷ ended) else longer

unfoldable pub split_whitespace : Text → List Text
split_whitespace s = words_from [] s
