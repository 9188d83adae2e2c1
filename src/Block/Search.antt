-- ===== src/Block/Search.antt =====
-- The search of a trie answers for its rules one by one.
use border_dns.Prelude.{
  ◌≡◌, ◌⊎◌, inl, inr, refl, sym, ap, ◌∙◌, Bool, true, false, List, [], ◌∷◌, ◌&&◌, ◌||◌, Bool-cases,
  arith,
}
use border_dns.Text.{Text, text_eq, is_empty}
use border_dns.Text.Equality.{text_eq_refl, eq_of_text_eq}
use border_dns.Block.Glob.{label_matches_glob}
use border_dns.Block.Trie.{
  TrieNode, node, Edges, no_edge, edge, MultiChild, no_multi, multi, Token, any_labels, glob,
  literal, has_edge, has_multi, has, is_terminal, match_node, match_multi, match_exact,
  match_patterns,
}
use border_dns.Block.Rules.{takes, accepts}
use border_dns.Block.WellFormed.{flag, absent, IsTrie, AreEdges, IsMulti}

-- A rule of the trie accepts the labels.
unfoldable pub Found : TrieNode → List Text → Type 0
Found n labels = (rule : List Token) × (has rule n ≡ true) × (accepts (flag n) rule labels ≡ true)

-- The rest of a rule, behind an edge that took a label.
abbrev rest_accepts : Bool → List Token → List Text → Bool
rest_accepts is_multi tokens labels = (is_multi && is_empty tokens) || accepts false tokens labels

pub ||-cases : (a b : Bool) → (a || b) ≡ true → (a ≡ true) ⊎ (b ≡ true)
||-cases a b h = ground arith

||-right : (a b : Bool) → b ≡ true → (a || b) ≡ true
||-right a b h = ground arith

pub &&-both : (a b : Bool) → (a && b) ≡ true → (a ≡ true) × (b ≡ true)
&&-both a b h = ground arith

-- Behind `**` a label may be skipped.
accepts-skip :
    (tokens : List Token) (label : Text) (labels : List Text)
    → accepts true tokens labels ≡ true
    → accepts true tokens (label ∷ labels) ≡ true
unfolding accepts
accepts-skip [] label labels h = ground arith
accepts-skip (any_labels ∷ tokens) label labels h = ground arith
accepts-skip (glob raw ∷ tokens) label labels h = ground arith
accepts-skip (literal text ∷ tokens) label labels h = ground arith

has_edge-absent :
    (f : TrieNode → Bool) (key : Text) (es : Edges)
    → absent key es ≡ true
    → has_edge f key es ≡ false
unfolding has_edge absent
has_edge-absent f key no_edge h = refl
has_edge-absent f key (edge raw child rest) h = ground (arith, has_edge-absent f key rest)

-- A terminal child that ends the search at once, or a rule below it.
FoundBelow : Bool → TrieNode → List Text → Type 0
FoundBelow is_multi child labels =
    (rule : List Token) × (has rule child ≡ true) × (rest_accepts is_multi rule labels ≡ true)

terminal_below :
    (is_multi : Bool) (child : TrieNode) (labels : List Text)
    → (is_multi && is_terminal child) ≡ true
    → FoundBelow is_multi child labels
unfolding has FoundBelow is_empty
terminal_below is_multi (node ex pat mu terminal i) labels h = ([], ground arith, ground arith)

below :
    (is_multi : Bool) (child : TrieNode) (labels : List Text)
    → flag child ≡ false
    → (match_node child labels ≡ true → Found child labels)
    → ((is_multi && is_terminal child) || match_node child labels) ≡ true
    → FoundBelow is_multi child labels
unfolding Found FoundBelow
below is_multi child labels b ih h =
    elim (||-cases (is_multi && is_terminal child) (match_node child labels) h) [
      | inl t ↦ terminal_below is_multi child labels t
      | inr m ↦
          let (rule, r, a) = ih m in
          (rule, r, ||-right _ _ (ap (λ x. accepts x rule labels) (sym b) ∙ a))
    ]

-- Among the edges, the one whose key takes the label.
FoundEdge : (Text → Text → Bool) → Bool → Edges → Text → List Text → Type 0
FoundEdge test is_multi es label labels =
    (key : Text) × (rule : List Token) × (has_edge (has rule) key es ≡ true)
    × (test key label ≡ true)
    × (rest_accepts is_multi rule labels ≡ true)

FoundMulti : MultiChild → List Text → Type 0
FoundMulti mu labels =
    (rule : List Token) × (has_multi (has rule) mu ≡ true) × (accepts true rule labels ≡ true)

Found-multi :
    (ex pat : Edges) (mu : MultiChild) (terminal i : Bool) (labels : List Text)
    → FoundMulti mu labels
    → Found (node ex pat mu terminal i) labels
unfolding Found FoundMulti has accepts
Found-multi ex pat mu terminal i [] (rule, r, a) = (any_labels ∷ rule, r, a)
Found-multi ex pat mu terminal i (label ∷ labels) (rule, r, a) =
    (any_labels ∷ rule, r, ground arith)

Found-multi_skip :
    (ex pat : Edges) (mu : MultiChild) (terminal i : Bool) (label : Text) (labels : List Text)
    → FoundMulti mu labels
    → Found (node ex pat mu terminal i) (label ∷ labels)
unfolding Found FoundMulti has accepts
Found-multi_skip ex pat mu terminal i label labels (rule, r, a) =
    (any_labels ∷ rule, r, ground arith)

Found-exact :
    (ex pat : Edges) (mu : MultiChild) (terminal i : Bool) (label : Text) (labels : List Text)
    → FoundEdge text_eq i ex label labels
    → Found (node ex pat mu terminal i) (label ∷ labels)
unfolding Found FoundEdge has accepts takes
Found-exact ex pat mu terminal i label labels (key, rule, r, t, a) =
    (literal key ∷ rule, r, ground arith)

Found-pattern :
    (ex pat : Edges) (mu : MultiChild) (terminal i : Bool) (label : Text) (labels : List Text)
    → FoundEdge label_matches_glob i pat label labels
    → Found (node ex pat mu terminal i) (label ∷ labels)
unfolding Found FoundEdge has accepts takes
Found-pattern ex pat mu terminal i label labels (key, rule, r, t, a) =
    (glob key ∷ rule, r, ground arith)

Found-skip :
    (ex pat : Edges) (mu : MultiChild) (terminal i : Bool) (label : Text) (labels : List Text)
    → i ≡ true
    → Found (node ex pat mu terminal i) labels
    → Found (node ex pat mu terminal i) (label ∷ labels)
unfolding Found
Found-skip ex pat mu terminal i label labels e (rule, r, a) = (
  rule,
  r,
  ap (λ x. accepts x rule (label ∷ labels)) e
      ∙ accepts-skip rule label labels (ap (λ x. accepts x rule labels) (sym e) ∙ a),
)

Found-terminal :
    (ex pat : Edges) (mu : MultiChild) (terminal i : Bool) (labels : List Text)
    → terminal ≡ true
    → (is_empty labels || i) ≡ true
    → Found (node ex pat mu terminal i) labels
unfolding Found has accepts
Found-terminal ex pat mu terminal i labels t e = ([], t, e)

-- An edge found behind another one of another key.
FoundEdge-behind :
    (test : Text → Text → Bool) (i : Bool) (raw : Text) (child : TrieNode) (rest : Edges)
    (label : Text) (labels : List Text)
    → absent raw rest ≡ true
    → FoundEdge test i rest label labels
    → FoundEdge test i (edge raw child rest) label labels
unfolding FoundEdge has_edge
FoundEdge-behind test i raw child rest label labels a (key, rule, r, t, b) = (
  key,
  rule,
  ground (
    arith,
    eq_of_text_eq raw key,
    has_edge-absent (has rule) key rest,
    (let s : text_eq raw key ≡ true → absent key rest ≡ true =
          λ e. ap (λ k. absent k rest) (sym (eq_of_text_eq raw key e)) ∙ a in
        s),
  ),
  t,
  b,
)

FoundEdge-here :
    (test : Text → Text → Bool) (i : Bool) (raw : Text) (child : TrieNode) (rest : Edges)
    (label : Text) (labels : List Text)
    → test raw label ≡ true
    → FoundBelow i child labels
    → FoundEdge test i (edge raw child rest) label labels
unfolding FoundEdge FoundBelow has_edge
FoundEdge-here test i raw child rest label labels t (rule, r, a) =
    (raw, rule, ground (arith, text_eq_refl raw), t, a)

Found-child :
    (child : TrieNode) (labels : List Text)
    → flag child ≡ true
    → Found child labels
    → FoundMulti (multi child) labels
unfolding Found FoundMulti has_multi
Found-child child labels b (rule, r, a) = (rule, r, ap (λ x. accepts x rule labels) (sym b) ∙ a)

mutual
  unfolding match_node is_empty

  pub node-Found :
      (n : TrieNode) (labels : List Text) → IsTrie n → match_node n labels ≡ true → Found n labels
  node-Found (node ex pat mu terminal i) [] (ve, vp, vm) h =
      elim (||-cases terminal (match_multi mu []) h) [
        | inl t ↦ Found-terminal ex pat mu terminal i [] t refl
        | inr m ↦ Found-multi ex pat mu terminal i [] (multi-Found mu [] vm m)
      ]
  node-Found (node ex pat mu terminal i) (label ∷ labels) (ve, vp, vm) h =
      elim (||-cases (terminal && i) _ h) [
        | inl t ↦
            let (t', e) = &&-both terminal i t in
            Found-terminal ex pat mu terminal i (label ∷ labels) t' e
        | inr h ↦ elim (||-cases (match_multi mu (label ∷ labels)) _ h) [
          | inl m ↦
              Found-multi ex pat mu terminal i (label ∷ labels)
                (multi-Found mu (label ∷ labels) vm m)
          | inr h ↦ elim (||-cases (match_exact i ex label labels) _ h) [
            | inl m ↦
                Found-exact ex pat mu terminal i label labels (exact-Found i ex label labels ve m)
            | inr h ↦ elim (||-cases (match_patterns i pat label labels) _ h) [
              | inl m ↦
                  Found-pattern ex pat mu terminal i label labels
                    (patterns-Found i pat label labels vp m)
              | inr h ↦ elim (||-cases (i && match_node (node ex pat mu terminal i) labels) _ h) [
                | inl m ↦
                    let (e, m') = &&-both i _ m in
                    Found-skip ex pat mu terminal i label labels e
                      (node-Found (node ex pat mu terminal i) labels (ve, vp, vm) m')
                | inr m ↦
                    Found-multi_skip ex pat mu terminal i label labels (multi-Found mu labels vm m)
              ]
            ]
          ]
        ]
      ]

  multi-Found :
      (mu : MultiChild) (labels : List Text)
      → IsMulti mu
      → match_multi mu labels ≡ true
      → FoundMulti mu labels
  multi-Found no_multi labels v h = cc
  multi-Found (multi child) labels (b, v) h =
      Found-child child labels b (node-Found child labels v h)

  exact-Found :
      (i : Bool) (es : Edges) (label : Text) (labels : List Text)
      → AreEdges es
      → match_exact i es label labels ≡ true
      → FoundEdge text_eq i es label labels
  exact-Found i no_edge label labels v h = cc
  exact-Found i (edge raw child rest) label labels (a, b, v, vs) h =
      elim (Bool-cases (text_eq raw label)) [
        | inl e ↦
            FoundEdge-here text_eq i raw child rest label labels e
              (below i child labels b (node-Found child labels v) (ground arith))
        | inr e ↦
            FoundEdge-behind text_eq i raw child rest label labels a
              (exact-Found i rest label labels vs (ground arith))
      ]

  patterns-Found :
      (i : Bool) (es : Edges) (label : Text) (labels : List Text)
      → AreEdges es
      → match_patterns i es label labels ≡ true
      → FoundEdge label_matches_glob i es label labels
  patterns-Found i no_edge label labels v h = cc
  patterns-Found i (edge raw child rest) label labels (a, b, v, vs) h =
      elim (||-cases (label_matches_glob raw label && _) _ h) [
        | inl m ↦
            let (e, m') = &&-both (label_matches_glob raw label) _ m in
            FoundEdge-here label_matches_glob i raw child rest label labels e
              (below i child labels b (node-Found child labels v) m')
        | inr m ↦
            FoundEdge-behind label_matches_glob i raw child rest label labels a
              (patterns-Found i rest label labels vs m)
      ]
