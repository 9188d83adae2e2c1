-- ===== src/Block/Matcher.antt =====
-- `BlockMatcher`: its rules and its answer.
use border_dns.Prelude.{
  ℕ, ◌+◌, Bool, false, not, ◌&&◌, Option, none, some, List, [], ◌∷◌, ◌++◌, map, ◌==◌, if◌then◌else◌,
}
use border_dns.Text.{Text, is_empty, to_lowercase, contains, split, strip_last, trim, starts_with}
use border_dns.Block.Trie.{TrieNode, fresh, Token, tokenize, insert, has, match_node}

-- `.filter(|l| !l.is_empty())`
unfoldable pub nonempty : List Text → List Text
nonempty [] = []
nonempty (label ∷ labels) = if is_empty label then nonempty labels else label ∷ nonempty labels

unfoldable pub rev_onto {ℓ} : {A : Type ℓ} → List A → List A → List A
rev_onto [] acc = acc
rev_onto (x ∷ xs) acc = rev_onto xs (x ∷ acc)

unfoldable pub split_labels_reversed : Text → List Text
split_labels_reversed domain = map to_lowercase (rev_onto (nonempty (split b'.' domain)) [])

unfoldable pub normalize_rule : Text → Text
normalize_rule rule =
    let normalized = to_lowercase (trim (strip_last b'.' rule)) in
    if is_empty normalized
    then []
    else if contains normalized b'*' && not (contains normalized b'.')
    then normalized ++ (b'.' ∷ b'*' ∷ b'*' ∷ [])
    else normalized

pub record BlockMatcher : Type 0 where
  pub root : TrieNode
  pub rule_count : ℕ

-- `BlockMatcher::default`
unfoldable pub no_rules : BlockMatcher
no_rules = record { root = fresh false; rule_count = 0 }

unfoldable pub rule_tokens : Text → List Token
rule_tokens rule = map tokenize (split_labels_reversed (normalize_rule rule))

unfoldable pub add_pattern : Text → BlockMatcher → BlockMatcher
add_pattern rule m =
    let tokens = rule_tokens rule in
    if is_empty (normalize_rule rule) then m else record {
      root = insert tokens m.root;
      rule_count = if has tokens m.root then m.rule_count else m.rule_count + 1;
    }

unfoldable pub batch_add : List Text → BlockMatcher → BlockMatcher
batch_add [] m = m
batch_add (rule ∷ rules) m = batch_add rules (add_pattern rule m)

unfoldable pub from_patterns : List Text → BlockMatcher
from_patterns rules = batch_add rules no_rules

-- A line that cannot be read is `none`. The matcher and the number of the rules loaded.
unfoldable pub load_line : Option Text → BlockMatcher × ℕ → BlockMatcher × ℕ
load_line none (m, loaded) = (m, loaded)
load_line (some line) (m, loaded) =
    let trimmed = trim line in
    if is_empty trimmed
    then (m, loaded)
    else if starts_with trimmed (b'#' ∷ [])
    then (m, loaded)
    else (add_pattern trimmed m, loaded + 1)

unfoldable pub load_rules_from_reader : List (Option Text) → BlockMatcher × ℕ → BlockMatcher × ℕ
load_rules_from_reader [] state = state
load_rules_from_reader (line ∷ lines) state = load_rules_from_reader lines (load_line line state)

-- `**.{suffix}`
unfoldable pub suffix_pattern : Text → Text
suffix_pattern s = b'*' ∷ b'*' ∷ b'.' ∷ strip_last b'.' s

-- `BlockMatcher::new`
unfoldable pub new : List Text → List Text → BlockMatcher
new exact_domains suffixes =
    batch_add (map suffix_pattern suffixes) (batch_add exact_domains no_rules)

unfoldable pub domain_name : Text → Text
domain_name domain = to_lowercase (strip_last b'.' domain)

unfoldable pub is_blocked : BlockMatcher → Text → Bool
is_blocked m domain =
    let name = domain_name domain in
    if is_empty name then false else match_node m.root (split_labels_reversed name)

unfoldable pub has_no_rules : BlockMatcher → Bool
has_no_rules m = m.rule_count == 0
