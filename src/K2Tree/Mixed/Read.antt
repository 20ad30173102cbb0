-- ===== src/K2Tree/Mixed/Read.antt =====
-- core/k2tree/K2TreeMixed.cpp: `read_from_istream` and what it calls.
use rdfcache_k.Prelude.{
  ℕ, zero, suc, ◌+◌, ◌-◌, ◌*◌, ◌/◌, ◌%◌, ◌^◌, Option, none, some, List, Result, ok, err, undefined,
  ◌>>=◌, or_fail, not, if◌then◌else◌, ◌==◌, ltb, get_elem?, bit_and, add32,
}
use rdfcache_k.Stream.{IStream, read_u32, read_u64, read_items}
use rdfcache_k.K2Tree.Block.{read_tree_from_istream}
use rdfcache_k.K2Tree.Mixed.{Quad, K2Node, K2TreeMixed}

-- The stream and `current_node_location`, which are passed by reference.
pub record Cursor : Type 0 where
  pub is : IStream
  pub location : ℕ

-- `if (container & (1U << (31 - position))) children[i] = read(…)`.
unfoldable pub read_child :
    {A : Type 0} → (Cursor → Result (A × Cursor)) → ℕ → ℕ → Cursor → Result (Option A × Cursor)
read_child read container position cursor =
    if not (bit_and container (2 ^ (31 - position)) == 0)
    then (do child ← read cursor; ok (some child.0, child.1))
    else ok (none, cursor)

-- The loop over the four children.
unfoldable pub read_children :
    {A : Type 0}
    → (Cursor → Result (A × Cursor))
    → ℕ
    → ℕ
    → Cursor
    → Result (Quad (Option A) × Cursor)
read_children read container start cursor = do
  c0 ← read_child read container start cursor
  c1 ← read_child read container (start + 1) c0.1
  c2 ← read_child read container (start + 2) c1.1
  c3 ← read_child read container (start + 3) c2.1
  ok (record { c0 = c0.0; c1 = c1.0; c2 = c2.0; c3 = c3.0 }, c3.1)

-- The index is an `int`, which must not overflow, and lies within the vector.
unfoldable pub deserialize_k2node_tree : List ℕ → (r : ℕ) → Cursor → Result (K2Node r × Cursor)
deserialize_k2node_tree containers zero cursor = do
  subtree ← read_tree_from_istream cursor.is
  ok (some subtree.0.root, record cursor { is = subtree.1 })
deserialize_k2node_tree containers (suc r) cursor =
    let rest : Result (K2Node (suc r) × Cursor) = (do
      let container_pos = 4 * cursor.location / 32
      let start = 4 * cursor.location % 32
      container ← or_fail (get_elem? containers container_pos) undefined
      read_children (deserialize_k2node_tree containers r) container start
          (record cursor { location = add32 cursor.location 1 })) in
    if ltb cursor.location (2 ^ 29) then rest else err undefined

unfoldable pub read_from_istream : IStream → Result (K2TreeMixed × IStream)
read_from_istream is = do
  points_count ← read_u64 is
  tree_depth ← read_u32 points_count.1
  cut_depth ← read_u32 tree_depth.1
  max_nodes_count ← read_u32 cut_depth.1
  containers_count ← read_u32 max_nodes_count.1
  containers ← read_items read_u32 containers_count.0 containers_count.1
  root ←
      deserialize_k2node_tree containers.0 cut_depth.0 (record { is = containers.1; location = 0 })
  ok (
    record {
      tree_depth = tree_depth.0;
      cut_depth = cut_depth.0;
      max_nodes_count = max_nodes_count.0;
      points_count = points_count.0;
      root = root.0;
    },
    root.1.is,
  )
