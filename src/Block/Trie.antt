-- ===== src/Block/Trie.antt =====
-- The trie of reversed labels. An entry of the hash map of literal labels, and of the vector of
-- patterns, is an edge; the memo of the search, which only remembers its answers, is left out.
use border_dns.Prelude.{Bool, true, false, ◌&&◌, ◌||◌, List, [], ◌∷◌, if◌then◌else◌}
use border_dns.Text.{Text, text_eq, is_empty, to_lowercase, contains}
use border_dns.Block.Glob.{label_matches_glob}

mutual
  pub data TrieNode : Type 0 where
    node :
        (exact_children pattern_children : Edges) (multi_child : MultiChild)
        (terminal is_multi : Bool)
        → TrieNode

  pub data Edges : Type 0 where
    no_edge : Edges
    edge : (raw : Text) (child : TrieNode) (rest : Edges) → Edges

  pub data MultiChild : Type 0 where
    no_multi : MultiChild
    multi : TrieNode → MultiChild

-- `TrieNode::default`, and the node that `get_or_create_multi` makes.
abbrev pub fresh : Bool → TrieNode
fresh is_multi = node no_edge no_edge no_multi false is_multi

abbrev pub is_terminal : TrieNode → Bool
is_terminal (node ex pat mu terminal is_multi) = terminal

-- What a label of a rule asks for: any labels, a label by its pattern, or one literal label.
pub data Token : Type 0 where
  any_labels : Token
  glob literal : Text → Token

unfoldable pub tokenize : Text → Token
tokenize label =
    if text_eq label (b'*' ∷ b'*' ∷ [])
    then any_labels
    else if contains label b'*'
    then glob label
    else literal (to_lowercase label)

-- `get_or_create_exact` and `get_or_create_pattern`, and what is then done at the child.
unfoldable pub update_edge : (TrieNode → TrieNode) → Text → Edges → Edges
update_edge f key no_edge = edge key (f (fresh false)) no_edge
update_edge f key (edge raw child rest) =
    if text_eq raw key then edge raw (f child) rest else edge raw child (update_edge f key rest)

-- `get_or_create_multi`, and what is then done at the child.
unfoldable pub update_multi : (TrieNode → TrieNode) → MultiChild → MultiChild
update_multi f no_multi = multi (f (fresh true))
update_multi f (multi child) = multi (f child)

-- The walk of `add_pattern`: the node that it ends at becomes terminal.
unfoldable pub insert : List Token → TrieNode → TrieNode
insert [] (node ex pat mu terminal is_multi) = node ex pat mu true is_multi
insert (any_labels ∷ tokens) (node ex pat mu terminal is_multi) =
    node ex pat (update_multi (insert tokens) mu) terminal is_multi
insert (glob raw ∷ tokens) (node ex pat mu terminal is_multi) =
    node ex (update_edge (insert tokens) raw pat) mu terminal is_multi
insert (literal label ∷ tokens) (node ex pat mu terminal is_multi) =
    node (update_edge (insert tokens) label ex) pat mu terminal is_multi

-- Whether the walk ends at a node that is terminal already.
unfoldable pub has_edge : (TrieNode → Bool) → Text → Edges → Bool
has_edge f key no_edge = false
has_edge f key (edge raw child rest) = if text_eq raw key then f child else has_edge f key rest

unfoldable pub has_multi : (TrieNode → Bool) → MultiChild → Bool
has_multi f no_multi = false
has_multi f (multi child) = f child

unfoldable pub has : List Token → TrieNode → Bool
has [] (node ex pat mu terminal is_multi) = terminal
has (any_labels ∷ tokens) (node ex pat mu terminal is_multi) = has_multi (has tokens) mu
has (glob raw ∷ tokens) (node ex pat mu terminal is_multi) = has_edge (has tokens) raw pat
has (literal label ∷ tokens) (node ex pat mu terminal is_multi) = has_edge (has tokens) label ex

-- The labels are those from the source's index on.
unfoldable mutual
  unfolding is_empty

  pub match_node : TrieNode → List Text → Bool
  match_node (node ex pat mu terminal is_multi) [] = terminal || match_multi mu []
  match_node (node ex pat mu terminal is_multi) (label ∷ labels) =
      (terminal && is_multi)
      || (match_multi mu (label ∷ labels)
          || (match_exact is_multi ex label labels
              || (match_patterns is_multi pat label labels
                  || ((is_multi && match_node (node ex pat mu terminal is_multi) labels)
                      || match_multi mu labels))))

  pub match_multi : MultiChild → List Text → Bool
  match_multi no_multi labels = false
  match_multi (multi child) labels = match_node child labels

  pub match_exact : Bool → Edges → Text → List Text → Bool
  match_exact is_multi no_edge label labels = false
  match_exact is_multi (edge raw child rest) label labels =
      if text_eq raw label
      then (is_multi && is_terminal child) || match_node child labels
      else match_exact is_multi rest label labels

  pub match_patterns : Bool → Edges → Text → List Text → Bool
  match_patterns is_multi no_edge label labels = false
  match_patterns is_multi (edge raw child rest) label labels =
      (label_matches_glob raw label && ((is_multi && is_terminal child) || match_node child labels))
      || match_patterns is_multi rest label labels
