-- ===== src/Block/Coverage.antt =====
-- Where the search blocks what a rule means, and where it blocks more.
use border_dns.Prelude.{
  ◌≡◌, ◌↔◌, inl, inr, refl, sym, ap, ◌∙◌, Bool, true, false, List, [], ◌∷◌, map, ◌||◌, arith, AnyOf,
}
use border_dns.Text.{Text, split, is_empty}
use border_dns.Block.Trie.{Token, any_labels, glob, literal, tokenize}
use border_dns.Block.Rules.{takes, matches, reading}
use border_dns.Block.Matcher.{
  nonempty, rev_onto, normalize_rule, rule_tokens, from_patterns, split_labels_reversed,
  domain_name, is_blocked,
}
use border_dns.Block.Blocked.{Rule}
use border_dns.Block.Meaning.{AnyOf-map, is_blocked_iff, matches-any}

-- The reading of a rule matches what the rule does.
reading-matches :
    (is_multi : Bool) (tokens : List Token) (labels : List Text)
    → matches tokens labels ≡ true
    → matches (reading is_multi tokens) labels ≡ true
unfolding matches reading is_empty takes
reading-matches i [] labels h = h
reading-matches i (any_labels ∷ tokens) [] h = reading-matches true tokens [] h
reading-matches i (any_labels ∷ tokens) (label ∷ labels) h = ground (
  arith,
  reading-matches true tokens (label ∷ labels),
  reading-matches i (any_labels ∷ tokens) labels,
)
reading-matches i (glob raw ∷ tokens) [] h = cc
reading-matches i (literal raw ∷ tokens) [] h = cc
reading-matches i (glob raw ∷ []) (label ∷ labels) h = ground (arith, matches-any labels)
reading-matches i (literal raw ∷ []) (label ∷ labels) h = ground (arith, matches-any labels)
reading-matches i (glob raw ∷ token ∷ tokens) (label ∷ labels) h =
    ground (arith, reading-matches false (token ∷ tokens) labels)
reading-matches i (literal raw ∷ token ∷ tokens) (label ∷ labels) h =
    ground (arith, reading-matches false (token ∷ tokens) labels)

-- A rule that is not empty and means the labels.
abbrev pub Meaning : List Text → Text → Type 0
Meaning labels rule = Rule rule × (matches (rule_tokens rule) labels ≡ true)

-- Nothing that a rule means is let through: a domain that is not empty and whose labels one of the
-- rules matches, with `**` for any labels, a label with `*` for one label by its pattern and any other
-- for that label, is blocked.
pub is_blocked_complete :
    (rules : List Text) (domain : Text)
    → is_empty (domain_name domain) ≡ false
    → AnyOf (Meaning (split_labels_reversed (domain_name domain))) rules
    → is_blocked (from_patterns rules) domain ≡ true
is_blocked_complete rules domain n a =
    let labels = split_labels_reversed (domain_name domain) in
    let (to, from) = is_blocked_iff rules domain in
    from
      (n, AnyOf-map rules (λ rule (r, m). (r, reading-matches false (rule_tokens rule) labels m)) a)

-- The token takes some label.
unfoldable pub takes_any : Token → List Text → Bool
takes_any token [] = false
takes_any token (label ∷ labels) = takes token label || takes_any token labels

matches-anywhere :
    (raw : Text) (labels : List Text)
    → matches (any_labels ∷ glob raw ∷ any_labels ∷ []) labels ≡ takes_any (glob raw) labels
unfolding matches takes_any takes
matches-anywhere raw [] = refl
matches-anywhere raw (label ∷ labels) =
    ground (arith, matches-anywhere raw labels, matches-any labels)

-- Only the empty rule has no tokens.
tokens-nonempty :
    (r : Text) (token : Token) (tokens : List Token)
    → map tokenize (split_labels_reversed r) ≡ token ∷ tokens
    → is_empty r ≡ false
unfolding is_empty split_labels_reversed split nonempty rev_onto
tokens-nonempty [] token tokens e = cc
tokens-nonempty (c ∷ r) token tokens e = refl

tokens-Rule :
    (rule : Text) (token : Token) (tokens : List Token)
    → rule_tokens rule ≡ token ∷ tokens
    → Rule rule
unfolding rule_tokens
tokens-Rule rule token tokens e = tokens-nonempty (normalize_rule rule) token tokens e

-- A rule of one label with `*` in it in front of `**`, as in `clientlog*.**`, blocks exactly the domains
-- that are not empty and have a label anywhere that the pattern matches, not only those whose first
-- label does.
pub is_blocked_anywhere :
    (rule raw domain : Text)
    → rule_tokens rule ≡ any_labels ∷ glob raw ∷ []
    → (is_blocked (from_patterns (rule ∷ [])) domain ≡ true) ↔ (
        (is_empty (domain_name domain) ≡ false)
        × (takes_any (glob raw) (split_labels_reversed (domain_name domain)) ≡ true))
unfolding reading is_empty
is_blocked_anywhere rule raw domain e =
    let labels = split_labels_reversed (domain_name domain) in
    let (to, from) = is_blocked_iff (rule ∷ []) domain in
    let same : matches (reading false (rule_tokens rule)) labels ≡ takes_any (glob raw) labels =
      ap (λ t. matches (reading false t) labels) e ∙ matches-anywhere raw labels in
    (
      λ h. let (n, a) = to h in (n, elim a [ inl (r, m) ↦ sym same ∙ m | inr b ↦ absurd b ]),
      λ (n, t). from (n, inl (tokens-Rule rule any_labels (glob raw ∷ []) e, same ∙ t)),
    )
