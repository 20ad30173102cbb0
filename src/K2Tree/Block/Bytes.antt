-- ===== src/K2Tree/Block/Bytes.antt =====
-- The bytes of a tree of blocks, and that the writers of block_serialization.cpp add just these.
use native.Mathlib.Nat.{mod-eq_of_lt}
use rdfcache_k.Prelude.{
  ℕ, suc, ◌+◌, ◌*◌, ◌%◌, ◌^◌, ◌≡◌, refl, List, [], ◌∷◌, ◌++◌, append_assoc, append-nil, length,
  length-append, take_all, All, arith, IsU16, IsU32, add32,
}
use rdfcache_k.Stream.{OStream, tellp, seekp, u16_bytes, u32_bytes, write_u32}
use rdfcache_k.Stream.Laws.{
  at_end, writes, items_bytes, patch_u32, length-u16_bytes, length-u32_bytes, length-items_bytes,
  write_u16-at_end, write_u32-at_end, tellp-at_end,
}
use rdfcache_k.K2Tree.Block.{
  Block, Frontier, block, no_children, child, preorders, write_preorders, write_block_to_ostream,
  Traversal, traverse_tree_write_to_ostream, traverse_children, TreeData, write_tree_to_ostream,
}

-- The sizes and numbers of every block fit the words that they are written in.
unfoldable mutual
  pub IsBlock : Block → Type 0
  IsBlock (block nodes_count container f) =
      IsU16 nodes_count
      × IsU16 (length container)
      × IsU16 (length (preorders f))
      × All IsU32 container
      × All IsU16 (preorders f)
      × AreBlocks f

  pub AreBlocks : Frontier → Type 0
  AreBlocks no_children = Unit {0}
  AreBlocks (child p b f) = IsBlock b × AreBlocks f

unfoldable mutual
  pub count_blocks : Block → ℕ
  count_blocks (block nodes_count container f) = suc (count_children f)

  pub count_children : Frontier → ℕ
  count_children no_children = 0
  count_children (child p b f) = count_blocks b + count_children f

unfoldable pub preorders_bytes : List ℕ → List ℕ
preorders_bytes [] = []
preorders_bytes (p ∷ ps) = u16_bytes p ++ preorders_bytes ps

-- One block, without its children.
unfoldable pub raw_bytes : ℕ → List ℕ → List ℕ → List ℕ
raw_bytes nodes_count ps container =
    u16_bytes nodes_count
    ++ (u16_bytes (length ps)
        ++ (u16_bytes (length container) ++ (preorders_bytes ps ++ items_bytes container)))

unfoldable mutual
  pub tree_bytes : Block → List ℕ
  tree_bytes (block nodes_count container f) =
      children_bytes f ++ raw_bytes nodes_count (preorders f) container

  pub children_bytes : Frontier → List ℕ
  children_bytes no_children = []
  children_bytes (child p b f) = tree_bytes b ++ children_bytes f

write_preorders-at_end :
    (c ps : List ℕ) → write_preorders (at_end c) ps ≡ at_end (c ++ preorders_bytes ps)
unfolding write_preorders preorders_bytes
write_preorders-at_end c [] = rw append-nil
write_preorders-at_end c (p ∷ ps) =
    rw (write_u16-at_end c p, write_preorders-at_end (c ++ u16_bytes p) ps, append_assoc)

length-preorders_bytes : (ps : List ℕ) → length (preorders_bytes ps) ≡ 2 * length ps
unfolding preorders_bytes
length-preorders_bytes [] = refl
length-preorders_bytes (p ∷ ps) = omega (
  arith,
  length-preorders_bytes ps,
  length-append (u16_bytes p) (preorders_bytes ps),
  length-u16_bytes p,
)

length-raw_bytes :
    (n : ℕ) (ps vs : List ℕ) → length (raw_bytes n ps vs) ≡ 2 * 3 + 2 * length ps + 4 * length vs
unfolding raw_bytes
length-raw_bytes n ps vs =
    simp (length-append {0}, length-u16_bytes, length-preorders_bytes, length-items_bytes)
      (omega arith)

write_block-at_end :
    (n : ℕ) (vs : List ℕ) (f : Frontier) (c : List ℕ)
    → IsU16 (length vs)
    → IsU16 (length (preorders f))
    → write_block_to_ostream (block n vs f) (at_end c)
      ≡ (at_end (c ++ raw_bytes n (preorders f) vs), length (raw_bytes n (preorders f) vs))
unfolding write_block_to_ostream raw_bytes
write_block-at_end n vs f c hv hp =
    rw
      (
        mod-eq_of_lt hv,
        mod-eq_of_lt hp,
        take_all (length vs) vs (omega arith),
        take_all (length (preorders f)) (preorders f) (omega arith),
        length-raw_bytes n (preorders f) vs,
      )
      (simp (writes, write_preorders-at_end))

-- What a traversal has done once it has counted and written these blocks.
abbrev traversed : ℕ → List ℕ → ℕ → Traversal
traversed counted c bytes_written = record {
  blocks_counted = counted % 2 ^ 32;
  os = at_end c;
  bytes_written = bytes_written % 2 ^ 64;
}

wrap_add : (a b : ℕ) → add32 (a % 2 ^ 32) (b % 2 ^ 32) ≡ (a + b) % 2 ^ 32
wrap_add a b = omega arith

mutual
  unfolding traverse_tree_write_to_ostream count_blocks tree_bytes IsBlock

  traverse_tree-at_end :
      (b : Block) (c : List ℕ) (n : ℕ)
      → IsBlock b
      → traverse_tree_write_to_ostream b (at_end c) (n % 2 ^ 64)
        ≡ traversed (count_blocks b) (c ++ tree_bytes b) (n + length (tree_bytes b))
  traverse_tree-at_end (block k vs f) c n h =
      rw
        (
          traverse_children-at_end f c 1 n h.5,
          write_block-at_end k vs f (c ++ children_bytes f) h.1 h.2,
          append_assoc,
        )
        (ground (arith, length-append (children_bytes f) (raw_bytes k (preorders f) vs)))

  traverse_children-at_end :
      (f : Frontier) (c : List ℕ) (k n : ℕ)
      → AreBlocks f
      → traverse_children f (traversed k c n)
        ≡ traversed (k + count_children f) (c ++ children_bytes f) (n + length (children_bytes f))
  traverse_children-at_end no_children c k n h = ground (arith, append-nil c)
  traverse_children-at_end (child p b f) c k n h =
      rw
        (
          traverse_tree-at_end b c n h.0,
          wrap_add k (count_blocks b),
          traverse_children-at_end f (c ++ tree_bytes b) (k + count_blocks b)
              (n + length (tree_bytes b)) h.1,
        )
        (ground (
          arith,
          append_assoc c (tree_bytes b) (children_bytes f),
          length-append (tree_bytes b) (children_bytes f),
        ))

-- The file of a tree: its header, the number of blocks and the blocks.
unfoldable pub file_bytes : TreeData → List ℕ
file_bytes tree =
    u16_bytes tree.max_node_count
    ++ (u16_bytes tree.treedepth
        ++ (u32_bytes (count_blocks tree.root % 2 ^ 32) ++ tree_bytes tree.root))

-- Behind a header: the count replaces the zero that held its place.
patched_count :
    (b : Block) (c : List ℕ)
    → IsBlock b
    → let t = traverse_tree_write_to_ostream b (write_u32 (at_end c) 0) 8 in
      ◌≡◌ {A = OStream × ℕ}
        (
          seekp (write_u32 (seekp t.os (tellp (at_end c))) t.blocks_counted) (tellp t.os),
          t.bytes_written,
        )
        (
          at_end (c ++ (u32_bytes (count_blocks b % 2 ^ 32) ++ tree_bytes b)),
          (8 + length (tree_bytes b)) % 2 ^ 64,
        )
patched_count b c h = rw (
  tellp-at_end c,
  write_u32-at_end c 0,
  traverse_tree-at_end b (c ++ u32_bytes 0) 8 h,
  append_assoc c (u32_bytes 0) (tree_bytes b),
  tellp-at_end (c ++ (u32_bytes 0 ++ tree_bytes b)),
  patch_u32 c (tree_bytes b) 0 (count_blocks b % 2 ^ 32),
)

length-file_bytes : (tree : TreeData) → length (file_bytes tree) ≡ 8 + length (tree_bytes tree.root)
unfolding file_bytes
length-file_bytes tree = simp (length-append {0}, length-u16_bytes, length-u32_bytes) (omega arith)

-- Written at the end of a stream, a tree adds its file and nothing else: the count overwrites the
-- zero that held its place, and the number returned is that of the bytes added.
pub write_tree-at_end :
    (tree : TreeData) (c : List ℕ)
    → IsBlock tree.root
    → write_tree_to_ostream tree (at_end c)
      ≡ (at_end (c ++ file_bytes tree), length (file_bytes tree) % 2 ^ 64)
unfolding write_tree_to_ostream
write_tree-at_end tree c h =
    rw
      (
        write_u16-at_end c tree.max_node_count,
        write_u16-at_end (c ++ u16_bytes tree.max_node_count) tree.treedepth,
        patched_count tree.root ((c ++ u16_bytes tree.max_node_count) ++ u16_bytes tree.treedepth)
            h,
        length-file_bytes tree,
      )
      (unfold file_bytes in simp append_assoc)
