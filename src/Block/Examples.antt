-- ===== src/Block/Examples.antt =====
-- The block list's theorems at small rule lists.
use border_dns.Prelude.{◌≡◌, ◌↔◌, inl, inr, refl, true, false, [], ◌∷◌, AnyOf}
use border_dns.Text.{
  Text, is_empty, to_lower, to_lowercase, contains, split, onto_first, strip_last, trim, trim_start,
  trim_end, is_whitespace, text_eq, starts_with, ends_with, find, find_from, eq_ignore_ascii_case,
}
use border_dns.Block.Glob.{glob_part, glob_loop, label_matches_glob}
use border_dns.Block.Trie.{
  glob, tokenize, update_edge, update_multi, insert, has_edge, has_multi, has, match_node,
}
use border_dns.Block.Rules.{takes, matches, reading}
use border_dns.Block.Matcher.{
  nonempty, rev_onto, split_labels_reversed, normalize_rule, no_rules, rule_tokens, add_pattern,
  batch_add, from_patterns, domain_name, is_blocked,
}
use border_dns.Block.Meaning.{Blocking, is_blocked_iff}
use border_dns.Block.Coverage.{takes_any, is_blocked_complete, is_blocked_anywhere}

-- `**.umeng.**`
abbrev umeng : Text
umeng = b'*' ∷ b'*' ∷ b'.' ∷ b'u' ∷ b'm' ∷ b'.' ∷ b'*' ∷ b'*' ∷ []

-- `Log*.**`
abbrev logs : Text
logs = b'L' ∷ b'o' ∷ b'g' ∷ b'*' ∷ b'.' ∷ b'*' ∷ b'*' ∷ []

-- `a.log1.org.`
abbrev log_domain : Text
log_domain = b'a' ∷ b'.' ∷ b'l' ∷ b'o' ∷ b'g' ∷ b'1' ∷ b'.' ∷ b'o' ∷ b'r' ∷ b'g' ∷ b'.' ∷ []

-- `x.um.C`
abbrev um_domain : Text
um_domain = b'x' ∷ b'.' ∷ b'u' ∷ b'm' ∷ b'.' ∷ b'C' ∷ []

log_blocked : is_blocked (from_patterns (umeng ∷ logs ∷ [])) log_domain ≡ true
unfolding is_blocked from_patterns batch_add add_pattern no_rules insert has has_multi has_edge
    update_edge update_multi match_node to_lowercase rule_tokens tokenize normalize_rule
    split_labels_reversed nonempty rev_onto domain_name is_empty to_lower contains split onto_first
    strip_last trim trim_start trim_end is_whitespace text_eq starts_with ends_with find find_from
    label_matches_glob glob_part glob_loop eq_ignore_ascii_case
log_blocked = refl

is_blocked_iff_example : (is_blocked (from_patterns (umeng ∷ logs ∷ [])) um_domain ≡ true) ↔ (
    (is_empty (domain_name um_domain) ≡ false)
    × AnyOf (Blocking (split_labels_reversed (domain_name um_domain))) (umeng ∷ logs ∷ []))
is_blocked_iff_example = is_blocked_iff (umeng ∷ logs ∷ []) um_domain

is_blocked_complete_example : is_blocked (from_patterns (logs ∷ umeng ∷ [])) um_domain ≡ true
unfolding to_lowercase rule_tokens tokenize normalize_rule split_labels_reversed nonempty rev_onto
    domain_name is_empty to_lower contains split onto_first strip_last trim trim_start trim_end
    is_whitespace text_eq starts_with ends_with find find_from label_matches_glob glob_part
    glob_loop eq_ignore_ascii_case matches takes reading
is_blocked_complete_example =
    is_blocked_complete (logs ∷ umeng ∷ []) um_domain refl (inr (inl (refl, refl)))

is_blocked_anywhere_example : (is_blocked (from_patterns (logs ∷ [])) log_domain ≡ true) ↔ (
    (is_empty (domain_name log_domain) ≡ false)
    × (takes_any
          (glob (b'l' ∷ b'o' ∷ b'g' ∷ b'*' ∷ []))
          (split_labels_reversed (domain_name log_domain))
        ≡ true))
unfolding to_lowercase rule_tokens tokenize normalize_rule split_labels_reversed nonempty rev_onto
    domain_name is_empty to_lower contains split onto_first strip_last trim trim_start trim_end
    is_whitespace text_eq starts_with ends_with find find_from label_matches_glob glob_part
    glob_loop eq_ignore_ascii_case matches takes reading
is_blocked_anywhere_example =
    is_blocked_anywhere logs (b'l' ∷ b'o' ∷ b'g' ∷ b'*' ∷ []) log_domain refl
