-- ===== src/Block/Insertion.antt =====
-- An insertion adds its rule and nothing else, and keeps the shape of the trie.
use border_dns.Prelude.{
  ◌≡◌, ◌⊎◌, inl, inr, refl, ◌∙◌, Bool, true, false, List, [], ◌∷◌, Bool-cases, arith,
}
use border_dns.Text.{Text, text_eq}
use border_dns.Text.Equality.{text_eq_refl, eq_of_text_eq, text_ne_sym}
use border_dns.Block.Trie.{
  TrieNode, node, Edges, no_edge, edge, no_multi, multi, fresh, Token, any_labels, glob, literal,
  update_edge, update_multi, insert, has_edge, has_multi, has,
}
use border_dns.Block.WellFormed.{flag, absent, IsTrie, AreEdges}

pub has-fresh : (path : List Token) (b : Bool) → has path (fresh b) ≡ false
unfolding has has_edge has_multi
has-fresh [] b = refl
has-fresh (any_labels ∷ path) b = refl
has-fresh (glob raw ∷ path) b = refl
has-fresh (literal label ∷ path) b = refl

module _ (g : TrieNode → Bool) (f : TrieNode → TrieNode) where
  has_edge-update_edge_self :
      (key : Text) (es : Edges)
      → ((c : TrieNode) → g (f c) ≡ true)
      → has_edge g key (update_edge f key es) ≡ true
  unfolding has_edge update_edge
  has_edge-update_edge_self key no_edge h = ground (arith, text_eq_refl key, h (fresh false))
  has_edge-update_edge_self key (edge raw c rest) h =
      ground (arith, h c, has_edge-update_edge_self key rest h)

  has_edge-update_edge_keeps :
      (key k : Text) (es : Edges)
      → ((c : TrieNode) → g c ≡ true → g (f c) ≡ true)
      → has_edge g k es ≡ true
      → has_edge g k (update_edge f key es) ≡ true
  unfolding has_edge update_edge
  has_edge-update_edge_keeps key k no_edge h e = cc
  has_edge-update_edge_keeps key k (edge raw c rest) h e =
      ground (arith, h c, has_edge-update_edge_keeps key k rest h)

  has_edge-update_edge_back :
      {Q : Type 0} (key k : Text) (es : Edges)
      → ((c : TrieNode) → g (f c) ≡ true → (g c ≡ true) ⊎ Q)
      → g (fresh false) ≡ false
      → has_edge g k (update_edge f key es) ≡ true
      → (has_edge g k es ≡ true) ⊎ (Q × (key ≡ k))
  unfolding has_edge update_edge
  has_edge-update_edge_back key k no_edge h n e =
      ground (arith, h (fresh false), eq_of_text_eq key k)
  has_edge-update_edge_back key k (edge raw c rest) h n e = ground (
    arith,
    h c,
    eq_of_text_eq raw key,
    eq_of_text_eq raw k,
    has_edge-update_edge_back key k rest h n,
  )

  absent-update_edge :
      (key k : Text) (es : Edges)
      → absent k es ≡ true
      → text_eq key k ≡ false
      → absent k (update_edge f key es) ≡ true
  unfolding absent update_edge
  absent-update_edge key k no_edge h d = ground arith
  absent-update_edge key k (edge raw c rest) h d = ground (arith, absent-update_edge key k rest)

  update_edge-AreEdges :
      (key : Text) (es : Edges)
      → ((c : TrieNode) → IsTrie c → IsTrie (f c))
      → ((c : TrieNode) → flag (f c) ≡ flag c)
      → AreEdges es
      → AreEdges (update_edge f key es)
  unfolding absent update_edge
  update_edge-AreEdges key no_edge h e v = (refl, e (fresh false), h (fresh false) (tt, tt, tt), tt)
  update_edge-AreEdges key (edge raw c rest) h e (a, b, t, r) =
      elim (Bool-cases (text_eq raw key)) [
        | inl s ↦ rw s (a, e c ∙ b, h c t, r)
        | inr s ↦ rw s (
          absent-update_edge key raw rest a (text_ne_sym raw key s),
          b,
          t,
          update_edge-AreEdges key rest h e r,
        )
      ]

pub insert-flag : (tokens : List Token) (n : TrieNode) → flag (insert tokens n) ≡ flag n
unfolding insert
insert-flag [] (node ex pat mu terminal is_multi) = refl
insert-flag (any_labels ∷ tokens) (node ex pat mu terminal is_multi) = refl
insert-flag (glob raw ∷ tokens) (node ex pat mu terminal is_multi) = refl
insert-flag (literal label ∷ tokens) (node ex pat mu terminal is_multi) = refl

pub insert-IsTrie : (tokens : List Token) (n : TrieNode) → IsTrie n → IsTrie (insert tokens n)
unfolding insert update_multi
insert-IsTrie [] (node ex pat mu terminal is_multi) (e, p, m) = (e, p, m)
insert-IsTrie (any_labels ∷ tokens) (node ex pat no_multi terminal is_multi) (e, p, m) =
    (e, p, (insert-flag tokens (fresh true), insert-IsTrie tokens (fresh true) (tt, tt, tt)))
insert-IsTrie (any_labels ∷ tokens) (node ex pat (multi child) terminal is_multi) (e, p, (b, t)) =
    (e, p, (insert-flag tokens child ∙ b, insert-IsTrie tokens child t))
insert-IsTrie (glob raw ∷ tokens) (node ex pat mu terminal is_multi) (e, p, m) = (
  e,
  update_edge-AreEdges (has []) (insert tokens) raw pat (insert-IsTrie tokens) (insert-flag tokens)
      p,
  m,
)
insert-IsTrie (literal label ∷ tokens) (node ex pat mu terminal is_multi) (e, p, m) = (
  update_edge-AreEdges (has []) (insert tokens) label ex (insert-IsTrie tokens) (insert-flag tokens)
      e,
  p,
  m,
)

pub has-insert_self : (tokens : List Token) (n : TrieNode) → has tokens (insert tokens n) ≡ true
unfolding has insert has_multi update_multi
has-insert_self [] (node ex pat mu terminal is_multi) = refl
has-insert_self (any_labels ∷ tokens) (node ex pat no_multi terminal is_multi) =
    has-insert_self tokens (fresh true)
has-insert_self (any_labels ∷ tokens) (node ex pat (multi child) terminal is_multi) =
    has-insert_self tokens child
has-insert_self (glob raw ∷ tokens) (node ex pat mu terminal is_multi) =
    has_edge-update_edge_self (has tokens) (insert tokens) raw pat (has-insert_self tokens)
has-insert_self (literal label ∷ tokens) (node ex pat mu terminal is_multi) =
    has_edge-update_edge_self (has tokens) (insert tokens) label ex (has-insert_self tokens)

-- No rule is lost.
pub has-insert_keeps :
    (path tokens : List Token) (n : TrieNode)
    → has path n ≡ true
    → has path (insert tokens n) ≡ true
unfolding has insert has_multi update_multi
has-insert_keeps path [] (node ex pat mu terminal is_multi) h = terminal_keeps path h
  where
    terminal_keeps :
        (path : List Token)
        → has path (node ex pat mu terminal is_multi) ≡ true
        → has path (node ex pat mu true is_multi) ≡ true
    terminal_keeps [] h = refl
    terminal_keeps (any_labels ∷ path) h = h
    terminal_keeps (glob raw ∷ path) h = h
    terminal_keeps (literal label ∷ path) h = h
has-insert_keeps [] (any_labels ∷ tokens) (node ex pat mu terminal is_multi) h = h
has-insert_keeps (any_labels ∷ path) (any_labels ∷ tokens) (node ex pat no_multi terminal is_multi)
      h =
    cc
has-insert_keeps (any_labels ∷ path) (any_labels ∷ tokens)
      (node ex pat (multi child) terminal is_multi) h =
    has-insert_keeps path tokens child h
has-insert_keeps (glob raw ∷ path) (any_labels ∷ tokens) (node ex pat mu terminal is_multi) h = h
has-insert_keeps (literal label ∷ path) (any_labels ∷ tokens) (node ex pat mu terminal is_multi) h =
    h
has-insert_keeps [] (glob raw ∷ tokens) (node ex pat mu terminal is_multi) h = h
has-insert_keeps (any_labels ∷ path) (glob raw ∷ tokens) (node ex pat mu terminal is_multi) h = h
has-insert_keeps (literal label ∷ path) (glob raw ∷ tokens) (node ex pat mu terminal is_multi) h = h
has-insert_keeps (glob k ∷ path) (glob raw ∷ tokens) (node ex pat mu terminal is_multi) h =
    has_edge-update_edge_keeps (has path) (insert tokens) raw k pat (has-insert_keeps path tokens) h
has-insert_keeps [] (literal label ∷ tokens) (node ex pat mu terminal is_multi) h = h
has-insert_keeps (any_labels ∷ path) (literal label ∷ tokens) (node ex pat mu terminal is_multi) h =
    h
has-insert_keeps (glob raw ∷ path) (literal label ∷ tokens) (node ex pat mu terminal is_multi) h = h
has-insert_keeps (literal k ∷ path) (literal label ∷ tokens) (node ex pat mu terminal is_multi) h =
    has_edge-update_edge_keeps (has path) (insert tokens) label k ex (has-insert_keeps path tokens)
      h

-- No rule comes in but the one that is inserted.
pub has-insert_back :
    (path tokens : List Token) (n : TrieNode)
    → has path (insert tokens n) ≡ true
    → (has path n ≡ true) ⊎ (tokens ≡ path)
unfolding has insert has_multi update_multi
has-insert_back [] [] (node ex pat mu terminal is_multi) h = inr refl
has-insert_back (any_labels ∷ path) [] (node ex pat mu terminal is_multi) h = inl h
has-insert_back (glob raw ∷ path) [] (node ex pat mu terminal is_multi) h = inl h
has-insert_back (literal label ∷ path) [] (node ex pat mu terminal is_multi) h = inl h
has-insert_back [] (any_labels ∷ tokens) (node ex pat mu terminal is_multi) h = inl h
has-insert_back (any_labels ∷ path) (any_labels ∷ tokens) (node ex pat no_multi terminal is_multi)
      h =
    ground (arith, has-insert_back path tokens (fresh true) h, has-fresh path true)
has-insert_back (any_labels ∷ path) (any_labels ∷ tokens)
      (node ex pat (multi child) terminal is_multi) h =
    ground (arith, has-insert_back path tokens child h)
has-insert_back (glob raw ∷ path) (any_labels ∷ tokens) (node ex pat mu terminal is_multi) h = inl h
has-insert_back (literal label ∷ path) (any_labels ∷ tokens) (node ex pat mu terminal is_multi) h =
    inl h
has-insert_back [] (glob raw ∷ tokens) (node ex pat mu terminal is_multi) h = inl h
has-insert_back (any_labels ∷ path) (glob raw ∷ tokens) (node ex pat mu terminal is_multi) h = inl h
has-insert_back (literal label ∷ path) (glob raw ∷ tokens) (node ex pat mu terminal is_multi) h =
    inl h
has-insert_back (glob k ∷ path) (glob raw ∷ tokens) (node ex pat mu terminal is_multi) h = ground (
  arith,
  has_edge-update_edge_back (has path) (insert tokens) raw k pat (has-insert_back path tokens)
      (has-fresh path false) h,
)
has-insert_back [] (literal label ∷ tokens) (node ex pat mu terminal is_multi) h = inl h
has-insert_back (any_labels ∷ path) (literal label ∷ tokens) (node ex pat mu terminal is_multi) h =
    inl h
has-insert_back (glob raw ∷ path) (literal label ∷ tokens) (node ex pat mu terminal is_multi) h =
    inl h
has-insert_back (literal k ∷ path) (literal label ∷ tokens) (node ex pat mu terminal is_multi) h =
    ground (
      arith,
      has_edge-update_edge_back (has path) (insert tokens) label k ex (has-insert_back path tokens)
          (has-fresh path false) h,
    )
