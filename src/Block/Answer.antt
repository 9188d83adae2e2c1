-- ===== src/Block/Answer.antt =====
-- The search of a trie answers yes exactly when one of its rules alone does.
use border_dns.Prelude.{
  ◌≡◌, ◌↔◌, inl, inr, ap, ◌∙◌, Bool, true, false, List, [], ◌∷◌, ◌&&◌, ◌||◌, Bool-cases, arith,
}
use border_dns.Text.{Text, text_eq, is_empty}
use border_dns.Text.Equality.{eq_of_text_eq}
use border_dns.Block.Glob.{label_matches_glob}
use border_dns.Block.Trie.{
  TrieNode, node, Edges, no_edge, edge, no_multi, multi, Token, any_labels, glob, literal, has_edge,
  has_multi, has, is_terminal, match_node, match_exact, match_patterns,
}
use border_dns.Block.Rules.{takes, accepts}
use border_dns.Block.WellFormed.{flag, IsTrie, AreEdges}
use border_dns.Block.Search.{Found, ||-cases, &&-both, node-Found}

module _ (i : Bool) (f : TrieNode → Bool) (label : Text) (labels : List Text) where
  -- A child that the rule reaches ends the search or goes on with it.
  abbrev Hits : Type 0
  Hits =
      (c : TrieNode)
      → IsTrie c
      → flag c ≡ false
      → f c ≡ true
      → ((i && is_terminal c) || match_node c labels) ≡ true

  exact-hit :
      (es : Edges) (key : Text)
      → AreEdges es
      → text_eq key label ≡ true
      → has_edge f key es ≡ true
      → Hits
      → match_exact i es label labels ≡ true
  unfolding match_exact has_edge
  exact-hit no_edge key v t h k = cc
  exact-hit (edge raw child rest) key (a, b, v, vs) t h k =
      let e = eq_of_text_eq key label t in
      let same : text_eq raw key ≡ text_eq raw label = ap (text_eq raw) e in
      elim (Bool-cases (text_eq raw label)) [
        | inl s ↦ rw s (k child v b (ground arith))
        | inr s ↦ rw s (exact-hit rest key vs t (ground arith) k)
      ]

  pattern-hit :
      (es : Edges) (key : Text)
      → AreEdges es
      → label_matches_glob key label ≡ true
      → has_edge f key es ≡ true
      → Hits
      → match_patterns i es label labels ≡ true
  unfolding match_patterns has_edge
  pattern-hit no_edge key v t h k = cc
  pattern-hit (edge raw child rest) key (a, b, v, vs) t h k = elim (Bool-cases (text_eq raw key)) [
    | inl s ↦
        let t' : label_matches_glob raw label ≡ true =
          ap (λ x. label_matches_glob x label) (eq_of_text_eq raw key s) ∙ t in
        let k' = k child v b (ground arith) in ground arith
    | inr s ↦ ground (arith, pattern-hit rest key vs t)
  ]

-- The rest of a rule, behind an edge.
rest-hit :
    (i : Bool) (rule : List Token) (labels : List Text) (c : TrieNode)
    → ((i && is_empty rule) || accepts false rule labels) ≡ true
    → (accepts (flag c) rule labels ≡ true → match_node c labels ≡ true)
    → flag c ≡ false
    → has rule c ≡ true
    → ((i && is_terminal c) || match_node c labels) ≡ true
unfolding is_empty has
rest-hit i [] labels (node ex pat mu terminal j) a ih b h =
    ground (arith, ap (λ x. accepts x [] labels) b)
rest-hit i (token ∷ rule) labels c a ih b h =
    ground (arith, ap (λ x. accepts x (token ∷ rule) labels) b)

node_complete :
    (labels : List Text) (rule : List Token) (n : TrieNode)
    → IsTrie n
    → has rule n ≡ true
    → accepts (flag n) rule labels ≡ true
    → match_node n labels ≡ true
unfolding match_node has has_multi accepts takes is_empty
node_complete [] [] (node ex pat mu terminal i) v h a = ground arith
node_complete (label ∷ labels) [] (node ex pat mu terminal i) v h a = ground arith
node_complete labels (any_labels ∷ rule) (node ex pat no_multi terminal i) v h a = cc
node_complete [] (any_labels ∷ rule) (node ex pat (multi c) terminal i) (ve, vp, (b, vm)) h a =
    let m = node_complete [] rule c vm h (ap (λ x. accepts x rule []) b ∙ a) in ground arith
node_complete (label ∷ labels) (any_labels ∷ rule) (node ex pat (multi c) terminal i)
      (ve, vp, (b, vm)) h a =
    elim (||-cases (accepts true rule (label ∷ labels)) _ a) [
      | inl t ↦
          let m =
            node_complete (label ∷ labels) rule c vm h
              (ap (λ x. accepts x rule (label ∷ labels)) b ∙ t) in
          ground arith
      | inr a ↦ elim (||-cases (i && accepts i (any_labels ∷ rule) labels) _ a) [
        | inl t ↦
            let (e, t') = &&-both i _ t in
            let m =
              node_complete labels (any_labels ∷ rule) (node ex pat (multi c) terminal i)
                (ve, vp, (b, vm)) h t' in
            ground arith
        | inr t ↦
            let m = node_complete labels rule c vm h (ap (λ x. accepts x rule labels) b ∙ t) in
            ground arith
      ]
    ]
node_complete [] (glob raw ∷ rule) (node ex pat mu terminal i) v h a = cc
node_complete [] (literal text ∷ rule) (node ex pat mu terminal i) v h a = cc
node_complete (label ∷ labels) (glob raw ∷ rule) (node ex pat mu terminal i) (ve, vp, vm) h a =
    elim (||-cases (label_matches_glob raw label && _) _ a) [
      | inl t ↦
          let (e, t') = &&-both (label_matches_glob raw label) _ t in
          let m =
            pattern-hit i (has rule) label labels pat raw vp e h
              (λ c v b r. rest-hit i rule labels c t' (node_complete labels rule c v r) b r) in
          ground arith
      | inr t ↦
          let (e, t') = &&-both i _ t in
          let m =
            node_complete labels (glob raw ∷ rule) (node ex pat mu terminal i) (ve, vp, vm) h t' in
          ground arith
    ]
node_complete (label ∷ labels) (literal text ∷ rule) (node ex pat mu terminal i) (ve, vp, vm) h a =
    elim (||-cases (text_eq text label && _) _ a) [
      | inl t ↦
          let (e, t') = &&-both (text_eq text label) _ t in
          let m =
            exact-hit i (has rule) label labels ex text ve e h
              (λ c v b r. rest-hit i rule labels c t' (node_complete labels rule c v r) b r) in
          ground arith
      | inr t ↦
          let (e, t') = &&-both i _ t in
          let m =
            node_complete labels (literal text ∷ rule) (node ex pat mu terminal i) (ve, vp, vm) h
              t' in
          ground arith
    ]

pub match_node_iff :
    (n : TrieNode) (labels : List Text) → IsTrie n → (match_node n labels ≡ true) ↔ Found n labels
unfolding Found
match_node_iff n labels v =
    (node-Found n labels v, λ (rule, h, a). node_complete labels rule n v h a)
