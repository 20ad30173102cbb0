-- ===== src/K2Tree/Block.antt =====
-- core/k2tree/block_serialization.cpp: the blocks of a k2-tree, written children first and read
-- back through a stack.
pub mod Bytes
pub mod RoundTrip
pub mod Same
use mathlib.Core.List.{reverse}
use rdfcache_k.Prelude.{
  ℕ, zero, suc, ◌+◌, ◌*◌, ◌%◌, ◌^◌, Bool, true, false, ◌&&◌, List, [], ◌∷◌, Error, Result, ok, err,
  undefined, runtime_error, ◌>>=◌ as bind, length, take, ◌==◌, if◌then◌else◌, add32, add64,
}
use rdfcache_k.Stream.{
  OStream, Reader, ◌>>=◌, pure, throws, tellp, seekp, write_u16, write_u32, write_items, read_u16,
  read_u32, read_items,
}

-- The fields of `struct block` that the code uses. The frontier pairs `preorders[i]` with
-- `children_blocks[i]`, and `children` is its length; `container_size` is that of the container.
mutual
  pub data Block : Type 0 where
    block : (nodes_count : ℕ) → (container : List ℕ) → Frontier → Block

  pub data Frontier : Type 0 where
    no_children : Frontier
    child : (preorder : ℕ) → Block → Frontier → Frontier

unfoldable pub preorders : Frontier → List ℕ
preorders no_children = []
preorders (child p b f) = p ∷ preorders f

-- The loop that writes the preorders of the frontier.
unfoldable pub write_preorders : OStream → List ℕ → OStream
write_preorders os [] = os
write_preorders os (p ∷ ps) = write_preorders (write_u16 os p) ps

-- The local counters have sixteen bits, and so the loops stop at the low bits of the sizes. The
-- second part of the result is the number of bytes written.
unfoldable pub write_block_to_ostream : Block → OStream → OStream × ℕ
write_block_to_ostream (block nodes_count container frontier) os =
    let children = length (preorders frontier) % 2 ^ 16 in
    let container_size = length container % 2 ^ 16 in
    let header = write_u16 (write_u16 (write_u16 os nodes_count) children) container_size in
    let with_preorders = write_preorders header (take children (preorders frontier)) in
    (
      write_items with_preorders (take container_size container),
      2 * 3 + 2 * children + 4 * container_size,
    )

-- The count returned, the stream, and the counter `bytes_written` that is passed by reference.
pub record Traversal : Type 0 where
  pub blocks_counted : ℕ
  pub os : OStream
  pub bytes_written : ℕ

unfoldable mutual
  pub traverse_tree_write_to_ostream : Block → OStream → ℕ → Traversal
  traverse_tree_write_to_ostream (block nodes_count container frontier) os bytes_written =
      let t =
        traverse_children frontier
          (record { blocks_counted = 1; os = os; bytes_written = bytes_written }) in
      let written = write_block_to_ostream (block nodes_count container frontier) t.os in
      record {
        blocks_counted = t.blocks_counted;
        os = written.0;
        bytes_written = add64 t.bytes_written written.1;
      }

  -- The loop over the children.
  pub traverse_children : Frontier → Traversal → Traversal
  traverse_children no_children t = t
  traverse_children (child p b f) t =
      let sub = traverse_tree_write_to_ostream b t.os t.bytes_written in
      traverse_children f
        (record sub { blocks_counted = add32 t.blocks_counted sub.blocks_counted })

pub record TreeData : Type 0 where
  pub root : Block
  pub treedepth : ℕ
  pub max_node_count : ℕ

-- The number of blocks is known only behind them: a zero holds its place, which is then overwritten.
unfoldable pub write_tree_to_ostream : TreeData → OStream → OStream × ℕ
write_tree_to_ostream tree os =
    let header = write_u16 (write_u16 os tree.max_node_count) tree.treedepth in
    let start_pos = tellp header in
    let t = traverse_tree_write_to_ostream tree.root (write_u32 header 0) (2 * 2 + 4) in
    let curr_pos = tellp t.os in
    (seekp (write_u32 (seekp t.os start_pos) t.blocks_counted) curr_pos, t.bytes_written)

-- A block as it is read, before its children are attached.
pub record RawBlock : Type 0 where
  pub nodes_count : ℕ
  pub preorders : List ℕ
  pub container : List ℕ

pub read_block_from_istream : Reader RawBlock
read_block_from_istream = do
  nodes_count ← read_u16
  children ← read_u16
  container_size ← read_u16
  preorders ← read_items read_u16 children
  container ← read_items read_u32 container_size
  pure (record { nodes_count = nodes_count; preorders = preorders; container = container })

-- The loop of `adjust_blocks`, from the last child to the first: each child is the block on top of
-- the stack, which is taken off. To go below the first block is undefined.
pub attach : List ℕ → List Block → Frontier → Result (Frontier × List Block)
attach [] blocks frontier = ok (frontier, blocks)
attach (p ∷ ps) [] frontier = err undefined
attach (p ∷ ps) (b ∷ blocks) frontier = attach ps blocks (child p b frontier)

-- The head of the list is the back of `blocks_to_adjust`, under the block just read.
pub adjust_blocks : RawBlock → List Block → Result (List Block)
adjust_blocks raw blocks =
    bind (attach (reverse raw.preorders) blocks no_children)
      λ (frontier, rest). ok (block raw.nodes_count raw.container frontier ∷ rest)

-- The loop over `blocks_count`.
pub read_blocks : ℕ → List Block → Reader (List Block)
read_blocks zero blocks = pure blocks
read_blocks (suc n) blocks = do
  raw ← read_block_from_istream
  adjusted ← λ is. bind (adjust_blocks raw blocks) λ stack. ok (stack, is)
  read_blocks n adjusted

-- The root is the block read last.
pub last_block : List Block → Reader Block
last_block [] = throws undefined
last_block (b ∷ blocks) = pure b

pub read_tree_from_istream : Reader TreeData
read_tree_from_istream = do
  max_node_count ← read_u16
  treedepth ← read_u16
  blocks_count ← read_u32
  root ←
      if blocks_count == 0
      then throws runtime_error
      else (read_blocks blocks_count [] >>= last_block)
  pure (record { root = root; treedepth = treedepth; max_node_count = max_node_count })
