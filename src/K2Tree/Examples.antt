-- ===== src/K2Tree/Examples.antt =====
-- Tests of the k2-tree formats on small trees.
use rdfcache_k.K2Tree.Mixed.Topology.Parsed.{IsNode}
use rdfcache_k.K2Tree.Block.Bytes.{count_blocks, IsBlock}
use rdfcache_k.K2Tree.Mixed.{sum_children, count_k2nodes_wchildren, K2TreeMixed, K2Node}
use rdfcache_k.Prelude.{
  IsU32, Bool, ◌↔◌, All, refl, ok, some, none, [], ◌∷◌, true, false, arith, ℕ, List, length, ◌++◌,
  ◌≡◌, ◌%◌, ◌^◌,
}
use rdfcache_k.K2Tree.Block.{preorders, Block, block, child, no_children}
use rdfcache_k.Stream.Laws.{read_u32_array-write_u32_array, at_end}
use rdfcache_k.Stream.{write_u32_array, read_u32_array}
use rdfcache_k.K2Tree.Block.Same.{
  same_words, same_bvs, same_block_topologies, same_block_frontiers, same_blocks, same_blocks_iff,
}
use rdfcache_k.K2Tree.Mixed.Same.{
  same_block_children, same_each, is_child, same_bool, same_presence, same_k2node, HasBlocks,
  same_k2node_iff,
}
use rdfcache_k.K2Tree.Mixed.RoundTrip.{IsMixed, read-write}
use rdfcache_k.K2Tree.Mixed.Write.{write_to_ostream}
use rdfcache_k.K2Tree.Mixed.Read.{read_from_istream}

abbrev leaf : Block
leaf = block 3 (7 ∷ []) no_children

abbrev sample_block : Block
sample_block = block 5 (2882343476 ∷ 9 ∷ []) (child 2 leaf no_children)

abbrev sample_root : K2Node 1
sample_root = record { c0 = none; c1 = some (some sample_block); c2 = none; c3 = some (some leaf) }

abbrev other_root : K2Node 1
other_root = record { c0 = none; c1 = some (some leaf); c2 = none; c3 = some (some leaf) }

abbrev pub sample : K2TreeMixed
sample = record {
  tree_depth = 4;
  cut_depth = 1;
  max_nodes_count = 256;
  points_count = 3;
  root = sample_root;
}

abbrev sample_words : List ℕ
sample_words = 1 ∷ 4294967295 ∷ 513 ∷ []

sample_words-fit : All IsU32 sample_words
sample_words-fit = (omega arith, (omega arith, (omega arith, tt)))

leaf-IsBlock : IsBlock leaf
unfolding IsBlock preorders
leaf-IsBlock = (omega arith, omega arith, omega arith, (omega arith, tt), tt, tt)

sample_block-IsBlock : IsBlock sample_block
unfolding IsBlock preorders
sample_block-IsBlock = (
  omega arith,
  omega arith,
  omega arith,
  (omega arith, (omega arith, tt)),
  (omega arith, tt),
  (leaf-IsBlock, tt),
)

pub sample-IsMixed : IsMixed sample
unfolding IsNode count_blocks count_k2nodes_wchildren sum_children
sample-IsMixed = record {
  points_fit = omega arith;
  depth_fits = omega arith;
  cut_fits = omega arith;
  nodes_fit = omega arith;
  countable = omega arith;
  root_fits = (
    tt,
    record {
      root_fits = sample_block-IsBlock;
      depth_fits = omega arith;
      nodes_fit = omega arith;
      count_fits = omega arith;
    },
    tt,
    record {
      root_fits = leaf-IsBlock;
      depth_fits = omega arith;
      nodes_fit = omega arith;
      count_fits = omega arith;
    },
  );
}

read-write_example :
    (bytes : List ℕ) × (write_to_ostream sample (at_end (1 ∷ 2 ∷ []))
      ≡ ok (at_end (1 ∷ 2 ∷ bytes), length bytes % 2 ^ 64))
    × (read_from_istream (bytes ++ (9 ∷ [])) ≡ ok (sample, 9 ∷ []))
read-write_example = read-write sample (1 ∷ 2 ∷ []) (9 ∷ []) sample-IsMixed

read_u32_array-write_u32_array_example :
    (bytes : List ℕ) × (write_u32_array (at_end []) sample_words ≡ at_end bytes)
    × (read_u32_array (bytes ++ (9 ∷ [])) ≡ ok (sample_words, 9 ∷ []))
read_u32_array-write_u32_array_example =
    read_u32_array-write_u32_array [] sample_words (9 ∷ []) (omega arith) sample_words-fit

same_blocks_iff_example : (same_blocks leaf sample_block ≡ true) ↔ (leaf ≡ sample_block)
same_blocks_iff_example = same_blocks_iff leaf sample_block

sample_root-HasBlocks : HasBlocks 1 sample_root
unfolding HasBlocks
sample_root-HasBlocks = (tt, (tt, tt))

other_root-HasBlocks : HasBlocks 1 other_root
unfolding HasBlocks
other_root-HasBlocks = (tt, (tt, tt))

same_k2node_iff_example :
    (b : Bool) × (same_k2node 1 sample_root other_root ≡ ok b)
    × ((b ≡ true) ↔ (sample_root ≡ other_root))
same_k2node_iff_example =
    same_k2node_iff 1 sample_root other_root sample_root-HasBlocks other_root-HasBlocks

same_k2node_test : same_k2node 1 sample_root other_root ≡ ok false
unfolding same_k2node same_presence same_bool is_child same_each same_block_children same_blocks
    same_block_frontiers same_block_topologies same_bvs same_words preorders
same_k2node_test = refl
