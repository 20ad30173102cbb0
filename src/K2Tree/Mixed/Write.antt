-- ===== src/K2Tree/Mixed/Write.antt =====
-- core/k2tree/K2TreeMixed.cpp: `write_to_ostream` and what it calls.
use rdfcache_k.Prelude.{
  ℕ, zero, suc, ◌+◌, ◌-◌, ◌*◌, ◌/◌, ◌%◌, ◌^◌, Option, none, some, List, [], ◌∷◌, Result, ok, err,
  undefined, ◌>>=◌, or_fail, if◌then◌else◌, ◌==◌, ltb, get_elem?, set, replicate, bit_or, add32,
  add64,
}
use rdfcache_k.Stream.{OStream, write_u32, write_u64, write_items}
use rdfcache_k.K2Tree.Block.{write_tree_to_ostream}
use rdfcache_k.K2Tree.Mixed.{K2Node, to_list, K2TreeMixed, visit_children, count_k2nodes_wchildren}

-- The vector `data` and `current_node_location`, which are passed by reference.
pub record Topology : Type 0 where
  pub containers : List ℕ
  pub location : ℕ

-- The loop that marks the children that there are, from bit `31 - start` of the container on.
unfoldable pub mark_children : {A : Type 0} → List (Option A) → ℕ → ℕ → ℕ
mark_children [] start container = container
mark_children (none ∷ cs) start container = mark_children cs (start + 1) container
mark_children (some c ∷ cs) start container =
    mark_children cs (start + 1) (bit_or container (2 ^ (31 - start)))

-- Four bits for each node above the cut, in preorder. An index beyond the vector is undefined.
unfoldable pub serialize_to_vec_with_k2node_ptrs : (r : ℕ) → K2Node r → Topology → Result Topology
serialize_to_vec_with_k2node_ptrs zero node t = ok t
serialize_to_vec_with_k2node_ptrs (suc r) node t = do
  let container_pos = 4 * t.location % 2 ^ 32 / 32
  let subpos_bits_start = 4 * t.location % 2 ^ 32 % 32
  container ← or_fail (get_elem? t.containers container_pos) undefined
  let marked = mark_children (to_list node) subpos_bits_start container
  visit_children (serialize_to_vec_with_k2node_ptrs r) (to_list node)
      (record { containers = set t.containers container_pos marked; location = add32 t.location 1 })

-- Adds what a call has written to the caller's `bytes_written`.
abbrev pub count_bytes :
    {A : Type 0} → (A → OStream → Result (OStream × ℕ)) → A → OStream × ℕ → Result (OStream × ℕ)
count_bytes write a s = do written ← write a s.0; ok (written.0, add64 s.1 written.1)

-- The blocks below the cut, from left to right. A null block is followed, which is undefined.
unfoldable pub write_blocks_from_k2nodes :
    (max_nodes_count tree_depth r : ℕ) → K2Node r → OStream → Result (OStream × ℕ)
write_blocks_from_k2nodes max_nodes_count tree_depth zero none os = err undefined
write_blocks_from_k2nodes max_nodes_count tree_depth zero (some b) os =
    let written =
      write_tree_to_ostream
        (record { root = b; treedepth = tree_depth; max_node_count = max_nodes_count }) os in
    ok (written.0, add64 0 written.1)
write_blocks_from_k2nodes max_nodes_count tree_depth (suc r) node os =
    visit_children (count_bytes (write_blocks_from_k2nodes max_nodes_count tree_depth r))
      (to_list node) (os, 0)

-- `bits_count / 32`, rounded up.
unfoldable pub containers_for : ℕ → ℕ
containers_for k2nodes_count =
    k2nodes_count * 4 / 32 + (if k2nodes_count * 4 % 32 == 0 then 0 else 1)

-- The header of the file.
unfoldable pub write_header : K2TreeMixed → ℕ → OStream → OStream
write_header tree containers_count os =
    write_u32
      (write_u32
        (write_u32 (write_u32 (write_u64 os tree.points_count) tree.tree_depth) tree.cut_depth)
        tree.max_nodes_count)
      containers_count

-- `k2nodes_count * 4` is an `int`, which must not overflow.
unfoldable pub write_to_ostream : K2TreeMixed → OStream → Result (OStream × ℕ)
write_to_ostream tree os =
    let k2nodes_count = count_k2nodes_wchildren tree.cut_depth tree.root in
    if ltb k2nodes_count (2 ^ 29)
    then (do
      let containers_count = containers_for k2nodes_count
      t ←
          serialize_to_vec_with_k2node_ptrs tree.cut_depth tree.root
            (record { containers = replicate containers_count 0; location = 0 })
      let header = write_header tree containers_count os
      let bytes_written = 4 * 4 + 8 + 4 * containers_count
      count_bytes (write_blocks_from_k2nodes tree.max_nodes_count tree.tree_depth tree.cut_depth)
          tree.root (write_items header t.containers, bytes_written))
    else err undefined
