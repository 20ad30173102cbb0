-- ===== src/K2Tree/Block/RoundTrip.antt =====
-- core/k2tree/block_serialization.cpp: the readers on the bytes that the writers add.
use mathlib.Core.List.{reverse, reverse-cons}
use native.Mathlib.Nat.{mod-eq_of_lt}
use rdfcache_k.Prelude.{
  ℕ, suc, ◌+◌, ◌≡◌, refl, ap, ◌∙◌, List, [], ◌∷◌, ◌++◌, append_assoc, append-nil, length, All, ok,
  arith, false, IsU16, IsU32, ◌==◌,
}
use rdfcache_k.Stream.{IStream, u16_bytes, read_u16, read_items}
use rdfcache_k.Stream.Laws.{read_u16-bytes, read_u32-bytes, read_items-bytes}
use rdfcache_k.K2Tree.Block.{
  Block, Frontier, block, no_children, child, preorders, read_block_from_istream, attach,
  adjust_blocks, read_blocks, last_block, TreeData, read_tree_from_istream,
}
use rdfcache_k.K2Tree.Block.Bytes.{
  IsBlock, AreBlocks, count_blocks, count_children, preorders_bytes, raw_bytes, tree_bytes,
  children_bytes, file_bytes,
}

read_preorders-bytes :
    (ps : List ℕ) (rest : IStream)
    → All IsU16 ps
    → read_items read_u16 (length ps) (preorders_bytes ps ++ rest) ≡ ok (ps, rest)
unfolding read_items preorders_bytes
read_preorders-bytes [] rest h = refl
read_preorders-bytes (p ∷ ps) rest h = rw (
  append_assoc (u16_bytes p) (preorders_bytes ps) rest,
  read_u16-bytes p (preorders_bytes ps ++ rest) h.0,
  read_preorders-bytes ps rest h.1,
)

read_block-bytes :
    (n : ℕ) (vs ps : List ℕ) (rest : IStream)
    → IsU16 n
    → IsU16 (length vs)
    → IsU16 (length ps)
    → All IsU32 vs
    → All IsU16 ps
    → read_block_from_istream (raw_bytes n ps vs ++ rest)
      ≡ ok (record { nodes_count = n; preorders = ps; container = vs }, rest)
unfolding read_block_from_istream raw_bytes
read_block-bytes n vs ps rest hn hv hp wv wp = simp append_assoc (
    rw (
      read_u16-bytes n _ hn,
      read_u16-bytes (length ps) _ hp,
      read_u16-bytes (length vs) _ hv,
      read_preorders-bytes ps _ wp,
      read_items-bytes vs rest wv,
    ))

-- The children of a frontier on the stack, the last on top.
push_all : Frontier → List Block → List Block
push_all no_children st = st
push_all (child p b f) st = push_all f (b ∷ st)

join : Frontier → Frontier → Frontier
join no_children g = g
join (child p b f) g = child p b (join f g)

join-no_children : (f : Frontier) → join f no_children ≡ f
unfolding join
join-no_children no_children = refl
join-no_children (child p b f) = rw (join-no_children f)

attach-push_all :
    (f : Frontier) (qs : List ℕ) (st : List Block) (g : Frontier)
    → attach (reverse (preorders f) ++ qs) (push_all f st) g ≡ attach qs st (join f g)
unfolding attach push_all join preorders
attach-push_all no_children qs st g = refl
attach-push_all (child p b f) qs st g =
    rw (reverse-cons p (preorders f), append_assoc (reverse (preorders f)) (p ∷ []) qs)
      (attach-push_all f (p ∷ qs) (b ∷ st) g)

adjust-push_all :
    (n : ℕ) (vs : List ℕ) (f : Frontier) (st : List Block)
    → adjust_blocks
        (record { nodes_count = n; preorders = preorders f; container = vs })
        (push_all f st)
      ≡ ok (block n vs f ∷ st)
unfolding adjust_blocks
adjust-push_all n vs f st =
    rw
      (
        ← append-nil (reverse (preorders f)),
        attach-push_all f [] st no_children,
        join-no_children f,
      )
      (unfold attach in refl)

read_blocks_step :
    (n : ℕ) (vs : List ℕ) (f : Frontier) (k : ℕ) (st : List Block) (rest : IStream)
    → IsBlock (block n vs f)
    → read_blocks (suc k) (push_all f st) (raw_bytes n (preorders f) vs ++ rest)
      ≡ read_blocks k (block n vs f ∷ st) rest
unfolding read_blocks IsBlock
read_blocks_step n vs f k st rest h =
    rw (read_block-bytes n vs (preorders f) rest h.0 h.1 h.2 h.3 h.4, adjust-push_all n vs f st)

add_suc : (a k : ℕ) → suc a + k ≡ a + suc k
add_suc a k = omega arith

add_regroup : (a b k : ℕ) → a + b + k ≡ a + (b + k)
add_regroup a b k = omega arith

mutual
  unfolding read_blocks count_blocks tree_bytes IsBlock push_all

  read_blocks-tree :
      (b : Block) (k : ℕ) (st : List Block) (rest : IStream)
      → IsBlock b
      → read_blocks (count_blocks b + k) st (tree_bytes b ++ rest) ≡ read_blocks k (b ∷ st) rest
  read_blocks-tree (block n vs f) k st rest h =
      rw (add_suc (count_children f) k, append_assoc)
        (read_blocks-children f (suc k) st (raw_bytes n (preorders f) vs ++ rest) h.5
          ∙ read_blocks_step n vs f k st rest h)

  read_blocks-children :
      (f : Frontier) (k : ℕ) (st : List Block) (rest : IStream)
      → AreBlocks f
      → read_blocks (count_children f + k) st (children_bytes f ++ rest)
        ≡ read_blocks k (push_all f st) rest
  read_blocks-children no_children k st rest h = ap (λ m. read_blocks m st rest) (omega arith)
  read_blocks-children (child p b f) k st rest h =
      rw (add_regroup (count_blocks b) (count_children f) k, append_assoc)
        (read_blocks-tree b (count_children f + k) st (children_bytes f ++ rest) h.0
          ∙ read_blocks-children f k (b ∷ st) rest h.1)

add_zero : (a : ℕ) → a + 0 ≡ a
add_zero a = omega arith

-- The words of the header fit, and so does the number of blocks.
pub record IsTree (tree : TreeData) : Type 0 where
  pub root_fits : IsBlock tree.root
  pub depth_fits : IsU16 tree.treedepth
  pub nodes_fit : IsU16 tree.max_node_count
  pub count_fits : IsU32 (count_blocks tree.root)

read_blocks_done : (st : List Block) (rest : IStream) → read_blocks 0 st rest ≡ ok (st, rest)
unfolding read_blocks
read_blocks_done st rest = refl

read_all_blocks :
    (b : Block) (rest : IStream)
    → IsBlock b
    → read_blocks (count_blocks b) [] (tree_bytes b ++ rest) ≡ ok (b ∷ [], rest)
read_all_blocks b rest h =
    rw (← add_zero (count_blocks b))
      (read_blocks-tree b 0 [] rest h ∙ read_blocks_done (b ∷ []) rest)

blocks_counted : (b : Block) → (count_blocks b == 0) ≡ false
unfolding count_blocks
blocks_counted (block n vs f) = ground arith

-- A file read back, and what follows it left alone.
pub read_tree-bytes :
    (tree : TreeData) (rest : IStream)
    → IsTree tree
    → read_tree_from_istream (file_bytes tree ++ rest) ≡ ok (tree, rest)
unfolding read_tree_from_istream file_bytes
read_tree-bytes tree rest h = simp append_assoc (
    rw
      (
        read_u16-bytes tree.max_node_count _ h.nodes_fit,
        read_u16-bytes tree.treedepth _ h.depth_fits,
        mod-eq_of_lt h.count_fits,
        read_u32-bytes (count_blocks tree.root) _ h.count_fits,
        blocks_counted tree.root,
        read_all_blocks tree.root rest h.root_fits,
      )
      (unfold last_block in refl))
