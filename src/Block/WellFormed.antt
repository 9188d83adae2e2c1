-- ===== src/Block/WellFormed.antt =====
-- The shape of the tries that insertions make, and what an insertion adds.
use border_dns.Prelude.{◌≡◌, Bool, true, false, ◌&&◌, not}
use border_dns.Text.{Text, text_eq}
use border_dns.Block.Trie.{TrieNode, node, Edges, no_edge, edge, MultiChild, no_multi, multi}

abbrev pub flag : TrieNode → Bool
flag (node ex pat mu terminal is_multi) = is_multi

unfoldable pub absent : Text → Edges → Bool
absent key no_edge = true
absent key (edge raw child rest) = not (text_eq raw key) && absent key rest

-- Every label has one edge at most, and only the node behind `**` is marked as such.
abbrev mutual
  pub IsTrie : TrieNode → Type 0
  IsTrie (node ex pat mu terminal is_multi) = AreEdges ex × AreEdges pat × IsMulti mu

  pub AreEdges : Edges → Type 0
  AreEdges no_edge = Unit
  AreEdges (edge raw child rest) =
      (absent raw rest ≡ true) × (flag child ≡ false) × IsTrie child × AreEdges rest

  pub IsMulti : MultiChild → Type 0
  IsMulti no_multi = Unit
  IsMulti (multi child) = (flag child ≡ true) × IsTrie child
