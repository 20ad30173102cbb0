-- ===== src/K2Tree/Mixed/Required.antt =====
-- core/k2tree/K2TreeMixed.cpp and block_serialization.cpp: what the readers with a memory segment
-- require of it.
use rdfcache_k.Prelude.{ℕ, zero, suc, ◌+◌, ◌*◌, none, some, length}
use rdfcache_k.K2Tree.Block.{Block, Frontier, block, no_children, child, preorders}
use rdfcache_k.K2Tree.Mixed.{K2Node, K2TreeMixed, to_list, sum_children}

-- `sizeof` of the types of the k2-tree library.
pub record TypeSizes : Type 0 where
  pub sizeof_k2node : ℕ
  pub sizeof_block : ℕ
  pub sizeof_nodes_bv : ℕ
  pub sizeof_bvctype : ℕ

module _ (sizes : TypeSizes) where
  -- What reading a block and those below it requires: its preorders, its children and its container.
  unfoldable mutual
    pub required_by_block : Block → ℕ
    required_by_block (block nodes_count container frontier) =
        sizes.sizeof_nodes_bv * length (preorders frontier)
        + sizes.sizeof_block * length (preorders frontier)
        + length container * sizes.sizeof_bvctype
        + required_by_children frontier

    pub required_by_children : Frontier → ℕ
    required_by_children no_children = 0
    required_by_children (child p b f) = required_by_block b + required_by_children f

  -- A node, and at the cut its block too. The reader makes a block for each node at the cut.
  unfoldable pub required_by_k2node : (r : ℕ) → K2Node r → ℕ
  required_by_k2node zero none = sizes.sizeof_k2node
  required_by_k2node zero (some b) = sizes.sizeof_k2node + required_by_block b + sizes.sizeof_block
  required_by_k2node (suc r) node =
      sizes.sizeof_k2node + sum_children (required_by_k2node r) (to_list node)

  unfoldable pub required_bytes : K2TreeMixed → ℕ
  required_bytes tree = required_by_k2node tree.cut_depth tree.root
