-- ===== src/Block/Rules.antt =====
-- One rule by itself: what the search makes of it, and what its pattern means.
use border_dns.Prelude.{Bool, true, false, List, [], ◌∷◌, ◌&&◌, ◌||◌, if◌then◌else◌}
use border_dns.Text.{Text, text_eq, is_empty}
use border_dns.Block.Glob.{label_matches_glob}
use border_dns.Block.Trie.{Token, any_labels, glob, literal}

-- Whether a token of one label takes the label.
unfoldable pub takes : Token → Text → Bool
takes any_labels label = false
takes (glob raw) label = label_matches_glob raw label
takes (literal text) label = text_eq text label

-- What the search answers for a rule alone, from a node that stands behind any labels or not.
unfoldable pub accepts : Bool → List Token → List Text → Bool
accepts is_multi [] labels = is_empty labels || is_multi
accepts is_multi (any_labels ∷ tokens) [] = accepts true tokens []
accepts is_multi (any_labels ∷ tokens) (label ∷ labels) =
    accepts true tokens (label ∷ labels)
    || ((is_multi && accepts is_multi (any_labels ∷ tokens) labels) || accepts true tokens labels)
accepts is_multi (token ∷ tokens) [] = false
accepts is_multi (token ∷ tokens) (label ∷ labels) =
    (takes token label && ((is_multi && is_empty tokens) || accepts false tokens labels))
    || (is_multi && accepts is_multi (token ∷ tokens) labels)

-- What a rule means, from its last label on: `**` stands for any labels, none included, and any other
-- token for one label.
unfoldable pub matches : List Token → List Text → Bool
matches [] labels = is_empty labels
matches (any_labels ∷ tokens) [] = matches tokens []
matches (any_labels ∷ tokens) (label ∷ labels) =
    matches tokens (label ∷ labels) || matches (any_labels ∷ tokens) labels
matches (token ∷ tokens) [] = false
matches (token ∷ tokens) (label ∷ labels) = takes token label && matches tokens labels

-- A rule whose first two tokens are a label and `**` is read with one more `**` in front of the label.
unfoldable pub reading : Bool → List Token → List Token
reading is_multi [] = []
reading is_multi (any_labels ∷ tokens) = any_labels ∷ reading true tokens
reading is_multi (token ∷ tokens) =
    token ∷ (if is_multi && is_empty tokens then any_labels ∷ [] else reading false tokens)

unfoldable pub behind : Bool → List Token → List Token
behind true tokens = any_labels ∷ tokens
behind false tokens = tokens
