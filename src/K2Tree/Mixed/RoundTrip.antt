-- ===== src/K2Tree/Mixed/RoundTrip.antt =====
-- core/k2tree/K2TreeMixed.cpp: `read_from_istream` on what `write_to_ostream` adds to a stream.
use rdfcache_k.Prelude.Bits.{test_bit_zero}
use rdfcache_k.K2Tree.Mixed.Read.{read_from_istream}
use rdfcache_k.K2Tree.Block.Bytes.{write_tree-at_end}
use rdfcache_k.K2Tree.Mixed.Topology.Written.{serialize-Writes, Ready}
use rdfcache_k.Stream.Laws.{
  read_items-bytes, read_u32-bytes, read_u64-bytes, write_items-at_end, length-items_bytes,
  items_bytes, length-u32_bytes, length-u64_bytes, writes, at_end,
}
use rdfcache_k.K2Tree.Mixed.Topology.Parsed.{
  deserialize-Reads, tree_data, children_files, AllChildren, IsNode, block_files,
}
use rdfcache_k.K2Tree.Mixed.Topology.{topology, Holds, bit_of, bit_at}
use rdfcache_k.K2Tree.Mixed.Write.{
  write_to_ostream, count_bytes, containers_for, Topology, write_header, write_blocks_from_k2nodes,
}
use rdfcache_k.Stream.{write_items, u32_bytes, u64_bytes, OStream}
use rdfcache_k.Prelude.{
  refl, lt→ltb, ◌∙◌, ◌-◌, ◌≤◌, get_elem?, ◌*◌, ◌/◌, append_assoc, some, none, [], ◌∷◌, append-nil,
  All, Option, ◌+◌, length-replicate, arith, ◌%◌, false, length-append, ◌++◌, IsU32, ok, ◌^◌,
  replicate, ◌≡◌, IsU16, Result, ◌<◌, length, List, IsU64, ℕ, zero, suc,
}
use rdfcache_k.K2Tree.Mixed.{to_list, visit_children, count_k2nodes_wchildren, K2Node, K2TreeMixed}

-- Adding the bytes of some children to a stream and to the count of bytes written.
module _ {A : Type 0} (write : A → OStream → Result (OStream × ℕ)) (files : A → List ℕ)
    (P : A → Type 0)
    (writes : (a : A) (c : List ℕ)
      → P a
      → write a (at_end c) ≡ ok (at_end (c ++ files a), length (files a) % 2 ^ 64)) where
  count_bytes-at_end :
      (a : A) (c : List ℕ) (n : ℕ)
      → P a
      → count_bytes write a (at_end c, n % 2 ^ 64)
        ≡ ok (at_end (c ++ files a), (n + length (files a)) % 2 ^ 64)
  count_bytes-at_end a c n h = rw (writes a c h) (ground arith)

  visit_children-at_end :
      (cs : List (Option A)) (c : List ℕ) (n : ℕ)
      → All (AllChildren P) cs
      → visit_children (count_bytes write) cs (at_end c, n % 2 ^ 64)
        ≡ ok
            (at_end (c ++ children_files files cs), (n + length (children_files files cs)) % 2 ^ 64)
  unfolding visit_children
  visit_children-at_end [] c n h = ground (arith, append-nil c)
  visit_children-at_end (none ∷ cs) c n h = visit_children-at_end cs c n h.1
  visit_children-at_end (some a ∷ cs) c n h =
      rw
        (
          count_bytes-at_end a c n h.0,
          visit_children-at_end cs (c ++ files a) (n + length (files a)) h.1,
        )
        (ground (
          arith,
          append_assoc c (files a) (children_files files cs),
          length-append (files a) (children_files files cs),
        ))

pub write_blocks-at_end :
    (m d r : ℕ) (node : K2Node r) (c : List ℕ)
    → IsNode m d r node
    → write_blocks_from_k2nodes m d r node (at_end c)
      ≡ ok (at_end (c ++ block_files m d r node), length (block_files m d r node) % 2 ^ 64)
unfolding write_blocks_from_k2nodes block_files IsNode
write_blocks-at_end m d zero none c h = absurd h
write_blocks-at_end m d zero (some b) c h =
    rw (write_tree-at_end (tree_data m d b) c h.root_fits) (ground arith)
write_blocks-at_end m d (suc r) node c h =
    visit_children-at_end (write_blocks_from_k2nodes m d r) (block_files m d r) (IsNode m d r)
      (write_blocks-at_end m d r) (to_list node) c 0 (h.0, (h.1, (h.2, (h.3, tt))))
    ∙ ground arith

-- The numbers of the header fit their words, the nodes above the cut can be counted in an `int`,
-- and every block below the cut fits its file.
pub record IsMixed (tree : K2TreeMixed) : Type 0 where
  pub points_fit : IsU64 tree.points_count
  pub depth_fits : IsU16 tree.tree_depth
  pub cut_fits : IsU32 tree.cut_depth
  pub nodes_fit : IsU16 tree.max_nodes_count
  pub countable : count_k2nodes_wchildren tree.cut_depth tree.root < 2 ^ 29
  pub root_fits : IsNode tree.max_nodes_count tree.tree_depth tree.cut_depth tree.root

header_bytes : K2TreeMixed → ℕ → List ℕ
header_bytes tree n =
    u64_bytes tree.points_count
    ++ (u32_bytes tree.tree_depth
        ++ (u32_bytes tree.cut_depth ++ (u32_bytes tree.max_nodes_count ++ u32_bytes n)))

write_header-at_end :
    (tree : K2TreeMixed) (n : ℕ) (c : List ℕ)
    → write_header tree n (at_end c) ≡ at_end (c ++ header_bytes tree n)
unfolding write_header header_bytes
write_header-at_end tree n c = simp writes

length-header_bytes : (tree : K2TreeMixed) (n : ℕ) → length (header_bytes tree n) ≡ 24
unfolding header_bytes
length-header_bytes tree n = simp (length-append {0}, length-u64_bytes, length-u32_bytes)

clear_words : (n i p : ℕ) → bit_of (get_elem? (replicate n 0) i) p ≡ false
clear_words zero i p = refl
clear_words (suc n) zero p = test_bit_zero (31 - p % 32)
clear_words (suc n) (suc i) p = clear_words n i p

clear_bits : (n p : ℕ) → bit_at (replicate n 0) p ≡ false
unfolding bit_at
clear_bits n p = clear_words n (p / 32) p

abbrev initial : ℕ → Topology
initial n = record { containers = replicate (containers_for n) 0; location = 0 }

initial-Ready : (n : ℕ) → n < 2 ^ 29 → Ready (initial n) n
unfolding containers_for
initial-Ready n h = record {
  room = ground (arith, length-replicate {A = ℕ} (containers_for n) 0);
  small = omega arith;
  clear = λ p q. clear_bits (containers_for n) p;
}

All-replicate : (n : ℕ) → All IsU32 (replicate n 0)
All-replicate zero = tt
All-replicate (suc n) = (omega arith, All-replicate n)

initial-IsU32 : (n : ℕ) → All IsU32 (initial n).containers
initial-IsU32 n = All-replicate (containers_for n)

initial-length : (n : ℕ) → length (initial n).containers ≡ containers_for n
initial-length n = length-replicate {A = ℕ} (containers_for n) 0

-- The bytes of a tree whose topology stands in these words.
stream_bytes : K2TreeMixed → List ℕ → List ℕ
stream_bytes tree containers =
    header_bytes tree (length containers)
    ++ (items_bytes containers
        ++ block_files tree.max_nodes_count tree.tree_depth tree.cut_depth tree.root)

length-stream_bytes :
    (tree : K2TreeMixed) (containers : List ℕ)
    → length (stream_bytes tree containers)
      ≡ 24
        + 4 * length containers
        + length (block_files tree.max_nodes_count tree.tree_depth tree.cut_depth tree.root)
unfolding stream_bytes
length-stream_bytes tree containers =
    simp (length-append {0}, length-header_bytes, length-items_bytes) (omega arith)

counted :
    (containers : List ℕ)
    → IsU32 (length containers)
    → 4 * 4 + 8 + 4 * length containers ≡ (24 + 4 * length containers) % 2 ^ 64
counted containers h = omega arith

containers_bounds : (n : ℕ) → n < 2 ^ 29 → (n ≤ 8 * containers_for n) × (containers_for n < 2 ^ 32)
unfolding containers_for
containers_bounds n h = ground arith

write_parts :
    (tree : K2TreeMixed) (containers c : List ℕ)
    → IsMixed tree
    → IsU32 (length containers)
    → count_bytes
        (write_blocks_from_k2nodes tree.max_nodes_count tree.tree_depth tree.cut_depth)
        tree.root
        (
          write_items (write_header tree (length containers) (at_end c)) containers,
          4 * 4 + 8 + 4 * length containers,
        )
      ≡ ok (
        at_end (c ++ stream_bytes tree containers),
        length (stream_bytes tree containers) % 2 ^ 64,
      )
write_parts tree containers c h fits =
    rw
      (
        counted containers fits,
        write_header-at_end tree (length containers) c,
        write_items-at_end (c ++ header_bytes tree (length containers)) containers,
        count_bytes-at_end
            (write_blocks_from_k2nodes tree.max_nodes_count tree.tree_depth tree.cut_depth)
            (block_files tree.max_nodes_count tree.tree_depth tree.cut_depth)
            (IsNode tree.max_nodes_count tree.tree_depth tree.cut_depth)
            (write_blocks-at_end tree.max_nodes_count tree.tree_depth tree.cut_depth) tree.root
            ((c ++ header_bytes tree (length containers)) ++ items_bytes containers)
            (24 + 4 * length containers) h.root_fits,
        length-stream_bytes tree containers,
      )
      (unfold stream_bytes in simp append_assoc)

read_parts :
    (tree : K2TreeMixed) (containers rest : List ℕ)
    → IsMixed tree
    → IsU32 (length containers)
    → All IsU32 containers
    → count_k2nodes_wchildren tree.cut_depth tree.root ≤ 8 * length containers
    → Holds (bit_at containers) 0 (topology tree.cut_depth tree.root)
    → read_from_istream (stream_bytes tree containers ++ rest) ≡ ok (tree, rest)
unfolding read_from_istream stream_bytes header_bytes
read_parts tree containers rest h fits words room held = simp append_assoc (
    rw (
      read_u64-bytes tree.points_count _ h.points_fit,
      read_u32-bytes tree.tree_depth _ (omega (arith, h.depth_fits)),
      read_u32-bytes tree.cut_depth _ h.cut_fits,
      read_u32-bytes tree.max_nodes_count _ (omega (arith, h.nodes_fit)),
      read_u32-bytes (length containers) _ fits,
      read_items-bytes containers _ words,
      deserialize-Reads containers tree.max_nodes_count tree.tree_depth tree.cut_depth tree.root
          h.root_fits 0 rest (omega (arith, h.countable)) (omega arith) held,
    ))

-- The bytes of a tree, which are the same wherever they are written and whatever follows them.
pub record IsFile (tree : K2TreeMixed) (bytes : List ℕ) : Type 0 where
  pub written :
      (c : List ℕ)
      → write_to_ostream tree (at_end c) ≡ ok (at_end (c ++ bytes), length bytes % 2 ^ 64)
  pub read : (rest : List ℕ) → read_from_istream (bytes ++ rest) ≡ ok (tree, rest)

pub IsMixed-IsFile : (tree : K2TreeMixed) → IsMixed tree → (bytes : List ℕ) × IsFile tree bytes
unfolding write_to_ostream
IsMixed-IsFile tree h =
    let n = count_k2nodes_wchildren tree.cut_depth tree.root in
    let (t, written, frame, held) =
      serialize-Writes tree.cut_depth tree.root (initial n) (initial-Ready n h.countable) in
    let size : length t.containers ≡ containers_for n = frame.size_kept ∙ initial-length n in
    let bounds = containers_bounds n h.countable in
    let fits : IsU32 (length t.containers) = omega (arith, size, bounds.1) in
    (
      stream_bytes tree t.containers,
      record {
        written = λ c.
            rw (lt→ltb n (2 ^ 29) h.countable, written, ← size)
              (write_parts tree t.containers c h fits);
        read = λ rest.
            read_parts tree t.containers rest h fits (frame.words_kept (initial-IsU32 n))
              (omega (arith, size, bounds.0)) held;
      },
    )

-- `write_to_ostream` succeeds on every tree that fits its format, adds bytes at the end of the
-- stream and returns their number (modulo 2 ^ 64); from these bytes `read_from_istream` rebuilds
-- the tree and leaves what follows them.
pub read-write :
    (tree : K2TreeMixed) (c rest : List ℕ)
    → IsMixed tree
    → (bytes : List ℕ) × (write_to_ostream tree (at_end c)
        ≡ ok (at_end (c ++ bytes), length bytes % 2 ^ 64))
      × (read_from_istream (bytes ++ rest) ≡ ok (tree, rest))
read-write tree c rest h =
    let (bytes, file) = IsMixed-IsFile tree h in (bytes, file.written c, file.read rest)
