-- ===== src/Block/Blocked.antt =====
-- What a matcher blocks, in terms of its rules.
use border_dns.Prelude.{
  ◌≡◌, ◌⊎◌, ◌↔◌, inl, inr, refl, sym, ap, ◌∙◌, true, false, List, [], ◌∷◌, Bool-cases, arith, AnyOf,
}
use border_dns.Text.{Text, is_empty}
use border_dns.Block.Trie.{Token, insert, has, match_node}
use border_dns.Block.Rules.{accepts}
use border_dns.Block.WellFormed.{flag, IsTrie}
use border_dns.Block.Insertion.{
  has-fresh, insert-flag, insert-IsTrie, has-insert_self, has-insert_keeps, has-insert_back,
}
use border_dns.Block.Search.{Found}
use border_dns.Block.Answer.{match_node_iff}
use border_dns.Block.Matcher.{
  BlockMatcher, no_rules, normalize_rule, rule_tokens, add_pattern, batch_add, from_patterns,
  split_labels_reversed, domain_name, is_blocked,
}

abbrev pub Rule : Text → Type 0
Rule rule = is_empty (normalize_rule rule) ≡ false

-- The rule, when it is none of the empty ones, has these tokens.
abbrev Stands : List Token → Text → Type 0
Stands path rule = Rule rule × (rule_tokens rule ≡ path)

record IsMatcher (m : BlockMatcher) : Type 0 where
  trie : IsTrie m.root
  unmarked : flag m.root ≡ false

add_pattern-IsMatcher :
    (rule : Text) (m : BlockMatcher) → IsMatcher m → IsMatcher (add_pattern rule m)
unfolding add_pattern
add_pattern-IsMatcher rule m v = elim (Bool-cases (is_empty (normalize_rule rule))) [
  | inl e ↦ rw e v
  | inr e ↦ rw e (record {
    trie = insert-IsTrie (rule_tokens rule) m.root v.trie;
    unmarked = insert-flag (rule_tokens rule) m.root ∙ v.unmarked;
  })
]

batch_add-IsMatcher :
    (rules : List Text) (m : BlockMatcher) → IsMatcher m → IsMatcher (batch_add rules m)
unfolding batch_add
batch_add-IsMatcher [] m v = v
batch_add-IsMatcher (rule ∷ rules) m v =
    batch_add-IsMatcher rules (add_pattern rule m) (add_pattern-IsMatcher rule m v)

add_pattern-keeps :
    (path : List Token) (rule : Text) (m : BlockMatcher)
    → (has path m.root ≡ true) ⊎ Stands path rule
    → has path (add_pattern rule m).root ≡ true
unfolding add_pattern
add_pattern-keeps path rule m h = elim (Bool-cases (is_empty (normalize_rule rule))) [
  | inl e ↦ rw e (ground arith)
  | inr e ↦ rw e (elim h [
    | inl o ↦ has-insert_keeps path (rule_tokens rule) m.root o
    | inr (n, s) ↦
        ap (λ p. has p (insert (rule_tokens rule) m.root)) (sym s)
        ∙ has-insert_self (rule_tokens rule) m.root
  ])
]

add_pattern-back :
    (path : List Token) (rule : Text) (m : BlockMatcher)
    → has path (add_pattern rule m).root ≡ true
    → (has path m.root ≡ true) ⊎ Stands path rule
unfolding add_pattern
add_pattern-back path rule m h = elim (Bool-cases (is_empty (normalize_rule rule))) [
  | inl e ↦ inl (ground arith)
  | inr e ↦ elim (has-insert_back path (rule_tokens rule) m.root (ground arith)) [
    | inl o ↦ inl o
    | inr s ↦ inr (e, s)
  ]
]

batch_add-keeps :
    (path : List Token) (rules : List Text) (m : BlockMatcher)
    → (has path m.root ≡ true) ⊎ AnyOf (Stands path) rules
    → has path (batch_add rules m).root ≡ true
unfolding batch_add
batch_add-keeps path [] m (inl h) = h
batch_add-keeps path [] m (inr a) = absurd a
batch_add-keeps path (rule ∷ rules) m (inl h) =
    batch_add-keeps path rules (add_pattern rule m) (inl (add_pattern-keeps path rule m (inl h)))
batch_add-keeps path (rule ∷ rules) m (inr (inl s)) =
    batch_add-keeps path rules (add_pattern rule m) (inl (add_pattern-keeps path rule m (inr s)))
batch_add-keeps path (rule ∷ rules) m (inr (inr a)) =
    batch_add-keeps path rules (add_pattern rule m) (inr a)

batch_add-back :
    (path : List Token) (rules : List Text) (m : BlockMatcher)
    → has path (batch_add rules m).root ≡ true
    → (has path m.root ≡ true) ⊎ AnyOf (Stands path) rules
unfolding batch_add
batch_add-back path [] m h = inl h
batch_add-back path (rule ∷ rules) m h = elim (batch_add-back path rules (add_pattern rule m) h) [
  | inl o ↦ elim (add_pattern-back path rule m o) [ inl o ↦ inl o | inr s ↦ inr (inl s) ]
  | inr a ↦ inr (inr a)
]

-- A rule that alone accepts the labels.
abbrev pub Accepting : List Text → Text → Type 0
Accepting labels rule = Rule rule × (accepts false (rule_tokens rule) labels ≡ true)

AnyOf-to :
    (path : List Token) (labels : List Text) (rules : List Text)
    → accepts false path labels ≡ true
    → AnyOf (Stands path) rules
    → AnyOf (Accepting labels) rules
AnyOf-to path labels [] h a = a
AnyOf-to path labels (rule ∷ rules) h (inl (n, s)) = inl (n, ap (λ p. accepts false p labels) s ∙ h)
AnyOf-to path labels (rule ∷ rules) h (inr a) = inr (AnyOf-to path labels rules h a)

AnyOf-from :
    (labels : List Text) (rules : List Text)
    → AnyOf (Accepting labels) rules
    → (path : List Token) × AnyOf (Stands path) rules × (accepts false path labels ≡ true)
AnyOf-from labels [] a = absurd a
AnyOf-from labels (rule ∷ rules) (inl (n, h)) = (rule_tokens rule, inl (n, refl), h)
AnyOf-from labels (rule ∷ rules) (inr a) =
    let (path, s, h) = AnyOf-from labels rules a in (path, inr s, h)

no_rules-IsMatcher : IsMatcher no_rules
unfolding no_rules
no_rules-IsMatcher = record { trie = (tt, tt, tt); unmarked = refl }

search_iff :
    (rules : List Text) (labels : List Text)
    → (match_node (from_patterns rules).root labels ≡ true) ↔ AnyOf (Accepting labels) rules
unfolding from_patterns Found no_rules
search_iff rules labels =
    let v = batch_add-IsMatcher rules no_rules no_rules-IsMatcher in
    let (sound, complete) = match_node_iff (batch_add rules no_rules).root labels v.trie in
    let to : match_node (batch_add rules no_rules).root labels ≡ true
        → AnyOf (Accepting labels) rules =
      λ h.
        let (path, p, a) = sound h in
        elim (batch_add-back path rules no_rules p) [
          | inl o ↦ cc (has-fresh path false)
          | inr s ↦
              AnyOf-to path labels rules (ap (λ x. accepts x path labels) (sym v.unmarked) ∙ a) s
        ] in
    (
      to,
      λ a.
          let (path, s, h) = AnyOf-from labels rules a in
          complete (
            path,
            batch_add-keeps path rules no_rules (inr s),
            ap (λ x. accepts x path labels) v.unmarked ∙ h,
          ),
    )

-- The answer of a matcher in terms of what the search makes of its rules one by one.
pub accepted_iff :
    (rules : List Text) (domain : Text)
    → (is_blocked (from_patterns rules) domain ≡ true) ↔ (
        (is_empty (domain_name domain) ≡ false)
        × AnyOf (Accepting (split_labels_reversed (domain_name domain))) rules)
unfolding is_blocked
accepted_iff rules domain =
    let (to, from) = search_iff rules (split_labels_reversed (domain_name domain)) in
    (λ h. (ground arith, to (ground arith)), λ (n, a). rw n (from a))
