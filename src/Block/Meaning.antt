-- ===== src/Block/Meaning.antt =====
-- What the search makes of a rule, in terms of what the rule means.
use border_dns.Prelude.{
  ◌≡◌, ◌↔◌, inl, inr, refl, sym, ◌∙◌, Bool, true, false, List, [], ◌∷◌, arith, AnyOf,
}
use border_dns.Text.{Text, is_empty}
use border_dns.Block.Trie.{Token, any_labels, glob, literal}
use border_dns.Block.Rules.{takes, accepts, matches, reading, behind}
use border_dns.Block.Matcher.{
  rule_tokens, from_patterns, split_labels_reversed, domain_name, is_blocked,
}
use border_dns.Block.Blocked.{Rule, accepted_iff}

pub matches-any : (labels : List Text) → matches (any_labels ∷ []) labels ≡ true
unfolding matches is_empty
matches-any [] = refl
matches-any (label ∷ labels) = ground (arith, matches-any labels)

-- The search takes a rule for its reading.
accepts-matches :
    (is_multi : Bool) (tokens : List Token) (labels : List Text)
    → accepts is_multi tokens labels ≡ matches (behind is_multi (reading is_multi tokens)) labels
unfolding accepts matches reading behind is_empty takes
accepts-matches false [] [] = refl
accepts-matches true [] [] = refl
accepts-matches false [] (label ∷ labels) = refl
accepts-matches true [] (label ∷ labels) = ground (arith, matches-any labels)
accepts-matches false (any_labels ∷ tokens) [] = accepts-matches true tokens []
accepts-matches true (any_labels ∷ tokens) [] = accepts-matches true tokens []
accepts-matches false (any_labels ∷ tokens) (label ∷ labels) =
    ground (arith, accepts-matches true tokens (label ∷ labels), accepts-matches true tokens labels)
accepts-matches true (any_labels ∷ tokens) (label ∷ labels) = ground (
  arith,
  accepts-matches true tokens (label ∷ labels),
  accepts-matches true tokens labels,
  accepts-matches true (any_labels ∷ tokens) labels,
)
accepts-matches false (glob raw ∷ tokens) [] = refl
accepts-matches true (glob raw ∷ tokens) [] = refl
accepts-matches false (literal raw ∷ tokens) [] = refl
accepts-matches true (literal raw ∷ tokens) [] = refl
accepts-matches false (glob raw ∷ tokens) (label ∷ labels) =
    ground (arith, accepts-matches false tokens labels)
accepts-matches false (literal raw ∷ tokens) (label ∷ labels) =
    ground (arith, accepts-matches false tokens labels)
accepts-matches true (glob raw ∷ []) (label ∷ labels) =
    ground (arith, matches-any labels, accepts-matches true (glob raw ∷ []) labels)
accepts-matches true (literal raw ∷ []) (label ∷ labels) =
    ground (arith, matches-any labels, accepts-matches true (literal raw ∷ []) labels)
accepts-matches true (glob raw ∷ token ∷ tokens) (label ∷ labels) = ground (
  arith,
  accepts-matches false (token ∷ tokens) labels,
  accepts-matches true (glob raw ∷ token ∷ tokens) labels,
)
accepts-matches true (literal raw ∷ token ∷ tokens) (label ∷ labels) = ground (
  arith,
  accepts-matches false (token ∷ tokens) labels,
  accepts-matches true (literal raw ∷ token ∷ tokens) labels,
)

-- A rule that is not empty and, in its reading, matches the labels.
abbrev pub Blocking : List Text → Text → Type 0
Blocking labels rule = Rule rule × (matches (reading false (rule_tokens rule)) labels ≡ true)

pub AnyOf-map :
    {P Q : Text → Type 0} (rules : List Text)
    → ((rule : Text) → P rule → Q rule)
    → AnyOf P rules
    → AnyOf Q rules
AnyOf-map [] f a = a
AnyOf-map (rule ∷ rules) f (inl h) = inl (f rule h)
AnyOf-map (rule ∷ rules) f (inr a) = inr (AnyOf-map rules f a)

-- A matcher made from any rules, in any order and with any repetitions, blocks a domain exactly when
-- the domain is not empty and one of the rules that are not empty, in its reading, matches the
-- domain's labels; the reading is the rule itself, but for a rule whose first label is followed by
-- `**`, which is read as if it had another `**` in front.
pub is_blocked_iff :
    (rules : List Text) (domain : Text)
    → (is_blocked (from_patterns rules) domain ≡ true) ↔ (
        (is_empty (domain_name domain) ≡ false)
        × AnyOf (Blocking (split_labels_reversed (domain_name domain))) rules)
unfolding behind
is_blocked_iff rules domain =
    let (to, from) = accepted_iff rules domain in
    let labels = split_labels_reversed (domain_name domain) in
    (
      (λ h.
          let (n, a) = to h in
          (
            n,
            AnyOf-map rules
                (λ rule (r, m). (r, sym (accepts-matches false (rule_tokens rule) labels) ∙ m)) a,
          )),
      (λ (n, a). from (
        n,
        AnyOf-map rules (λ rule (r, m). (r, accepts-matches false (rule_tokens rule) labels ∙ m)) a,
      )),
    )
