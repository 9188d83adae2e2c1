-- ===== src/Protocol/Name/Display.antt =====
-- The text of a domain name, and the name of a text: `Display` and `DomainName::from_str`.
use border_dns.Prelude.{
  ℕ, ◌+◌, ◌/◌, ◌%◌, Bool, true, false, not, ◌&&◌, List, [], ◌∷◌, ◌++◌, leb, ◌==◌, if◌then◌else◌,
}
use border_dns.Types.Error.{Result, ok}
use border_dns.Types.Error
use border_dns.Text.{Text, text_eq, is_empty, split}
use border_dns.Protocol.Name.{DomainName, root, collect_labels, check_label_count, labels}

-- A byte as it is when it prints and is neither a dot nor a backslash, else by its three digits.
unfoldable pub byte_text : ℕ → Text
byte_text byte =
    if leb 33 byte && leb byte 126 && not (byte == b'.') && not (byte == b'\\')
    then byte ∷ []
    else b'\\' ∷ (48 + byte / 100) ∷ (48 + byte / 10 % 10) ∷ (48 + byte % 10) ∷ []

unfoldable pub label_text : List ℕ → Text
label_text [] = []
label_text (byte ∷ bytes) = byte_text byte ++ label_text bytes

unfoldable pub labels_text : Bool → List (List ℕ) → Text
labels_text first [] = []
labels_text first (label ∷ labels) =
    let rest = labels_text false labels in
    if first then label_text label ++ rest else b'.' ∷ (label_text label ++ rest)

-- `to_string`
unfoldable pub name_text : DomainName → Text
name_text n = if is_empty n.ends then b'.' ∷ [] else labels_text true (labels n) ++ (b'.' ∷ [])

-- `trim_end_matches('.')`
unfoldable pub trim_end_dots : Text → Text
trim_end_dots [] = []
trim_end_dots (c ∷ s) =
    let rest = trim_end_dots s in if (c == b'.') && is_empty rest then [] else c ∷ rest

unfoldable pub from_str : Text → Result DomainName
from_str s =
    if text_eq s (b'.' ∷ [])
    then ok root
    else if is_empty (trim_end_dots s)
    then ok root
    else Error.◌>>=◌ (collect_labels (split b'.' (trim_end_dots s)) [] []) check_label_count
