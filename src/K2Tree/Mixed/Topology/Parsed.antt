-- ===== src/K2Tree/Mixed/Topology/Parsed.antt =====
-- The deserializer of K2TreeMixed.cpp on a topology and the files of its blocks.
use rdfcache_k.Prelude.{
  lt→ltb, add32, get_elem?_total, append_assoc, length, ℕ, zero, suc, ◌+◌, ◌-◌, ◌*◌, ◌/◌, ◌%◌, ◌^◌,
  ◌≤◌, ◌<◌, ◌≡◌, refl, sym, subst, ◌∙◌, ap, Bool, true, false, not, Option, none, some, List, [],
  ◌∷◌, ◌++◌, get_elem?, arith, Result, ok, bit_and, ◌==◌,
}
use rdfcache_k.Prelude.Bits.{test_bit, bit_and-test_bit}
use rdfcache_k.Stream.{IStream}
use rdfcache_k.K2Tree.Block.{Block, TreeData}
use rdfcache_k.K2Tree.Block.Bytes.{file_bytes}
use rdfcache_k.K2Tree.Block.RoundTrip.{read_tree-bytes, IsTree}
use rdfcache_k.K2Tree.Mixed.{K2Node, Quad, sum_children, count_k2nodes_wchildren, to_list}
use rdfcache_k.K2Tree.Mixed.Read.{deserialize_k2node_tree, read_children, Cursor, read_child}
use rdfcache_k.K2Tree.Mixed.Topology.{
  is_some, presence, children_bits, topology, length-topology, bit_at, bit_at-some, Holds,
  Holds-split,
}

-- The file of one block, under the sizes of the whole tree.
abbrev pub tree_data : (max_nodes_count tree_depth : ℕ) → Block → TreeData
tree_data m d b = record { root = b; treedepth = d; max_node_count = m }

abbrev pub children_files : {A : Type 0} → (A → List ℕ) → List (Option A) → List ℕ
children_files files [] = []
children_files files (none ∷ cs) = children_files files cs
children_files files (some c ∷ cs) = files c ++ children_files files cs

-- The files of the blocks, from left to right.
unfoldable pub block_files : (m d r : ℕ) → K2Node r → List ℕ
block_files m d zero none = []
block_files m d zero (some b) = file_bytes (tree_data m d b)
block_files m d (suc r) node = children_files (block_files m d r) (to_list node)

abbrev pub AllChildren : {A : Type 0} → (A → Type 0) → Option A → Type 0
AllChildren P none = Unit {0}
AllChildren P (some c) = P c

-- There is a block at each end below the cut, and it fits its file.
unfoldable pub IsNode : (m d r : ℕ) → K2Node r → Type 0
IsNode m d zero none = ⊥
IsNode m d zero (some b) = IsTree (tree_data m d b)
IsNode m d (suc r) node =
    AllChildren (IsNode m d r) node.c0
    × AllChildren (IsNode m d r) node.c1
    × AllChildren (IsNode m d r) node.c2
    × AllChildren (IsNode m d r) node.c3

abbrev option_count : {A : Type 0} → (A → ℕ) → Option A → ℕ
option_count size none = 0
option_count size (some c) = size c

abbrev option_list : {A B : Type 0} → (A → List B) → Option A → List B
option_list f none = []
option_list f (some c) = f c

-- What reading one subtree means: its bits at the location, its files at the front of the stream.
abbrev Reads :
    {A : Type 0}
    → List ℕ
    → (Cursor → Result (A × Cursor))
    → (A → ℕ)
    → (A → List Bool)
    → (A → List ℕ)
    → A
    → Type 0
Reads containers read size bits files a =
    (location : ℕ) (rest : IStream)
    → location + size a < 2 ^ 29
    → location + size a ≤ 8 * length containers
    → Holds (bit_at containers) (4 * location) (bits a)
    → read (record { is = files a ++ rest; location = location })
      ≡ ok (a, record { is = rest; location = location + size a })

not-not : (b : Bool) → not (not b) ≡ b
not-not true = refl
not-not false = refl

-- The test of one bit of the node's container.
test-bit_at :
    (containers : List ℕ) (location container i : ℕ)
    → get_elem? containers (4 * location / 32) ≡ some container
    → i < 4
    → not (bit_and container (2 ^ (31 - (4 * location % 32 + i))) == 0)
      ≡ bit_at containers (4 * location + i)
test-bit_at containers location container i found h =
    ap not (bit_and-test_bit (31 - (4 * location % 32 + i)) container)
    ∙ not-not (test_bit container (31 - (4 * location % 32 + i)))
    ∙ ap (λ q. test_bit container (31 - q)) (omega arith)
    ∙ sym (
        bit_at-some containers (4 * location + i) container
          (subst (λ q. get_elem? containers q ≡ some container) (omega arith) found))

own_bits :
    (b : ℕ → Bool) (q : ℕ) (w x y z : Bool)
    → Holds b q (w ∷ x ∷ y ∷ z ∷ [])
    → (b (q + 0) ≡ w) × (b (q + 1) ≡ x) × (b (q + 2) ≡ y) × (b (q + 3) ≡ z)
own_bits b q w x y z h = (
  subst (λ k. b k ≡ w) (omega arith) h.0,
  subst (λ k. b k ≡ x) (omega arith) h.1.0,
  subst (λ k. b k ≡ y) (omega arith) h.1.1.0,
  subst (λ k. b k ≡ z) (omega arith) h.1.1.1.0,
)

module _ {A : Type 0} (containers : List ℕ) (read : Cursor → Result (A × Cursor)) (size : A → ℕ)
    (bits : A → List Bool) (files : A → List ℕ) where
  read_child-Reads :
      (c : Option A) (location container k i p : ℕ) (rest : IStream)
      → k ≡ 4 * p % 32 + i
      → get_elem? containers (4 * p / 32) ≡ some container
      → i < 4
      → bit_at containers (4 * p + i) ≡ is_some c
      → AllChildren (Reads containers read size bits files) c
      → location + option_count size c < 2 ^ 29
      → location + option_count size c ≤ 8 * length containers
      → Holds (bit_at containers) (4 * location) (option_list bits c)
      → read_child read container k
          (record { is = option_list files c ++ rest; location = location })
        ≡ ok (c, record { is = rest; location = location + option_count size c })
  unfolding read_child
  read_child-Reads none location container k i p rest e found h bit reads fits room held =
      rw (e, test-bit_at containers p container i found h ∙ bit) (ground arith)
  read_child-Reads (some a) location container k i p rest e found h bit reads fits room held =
      rw (e, test-bit_at containers p container i found h ∙ bit, reads location rest fits room held)

  -- The four children one after the other.
  read_four :
      (node : Quad (Option A)) (p container : ℕ) (rest : IStream)
      → get_elem? containers (4 * p / 32) ≡ some container
      → AllChildren (Reads containers read size bits files) node.c0
      → AllChildren (Reads containers read size bits files) node.c1
      → AllChildren (Reads containers read size bits files) node.c2
      → AllChildren (Reads containers read size bits files) node.c3
      → let l1 = p + 1 + option_count size node.c0 in
        let l2 = l1 + option_count size node.c1 in
        let l3 = l2 + option_count size node.c2 in
        let l4 = l3 + option_count size node.c3 in
        l4 < 2 ^ 29
        → l4 ≤ 8 * length containers
        → Holds (bit_at containers) (4 * p) (presence (to_list node))
        → Holds (bit_at containers) (4 * (p + 1)) (option_list bits node.c0)
        → Holds (bit_at containers) (4 * l1) (option_list bits node.c1)
        → Holds (bit_at containers) (4 * l2) (option_list bits node.c2)
        → Holds (bit_at containers) (4 * l3) (option_list bits node.c3)
        → read_children read container (4 * p % 32) (record {
          is =
              option_list files node.c0
              ++ (option_list files node.c1
                  ++ (option_list files node.c2 ++ (option_list files node.c3 ++ rest)));
          location = p + 1;
        })
          ≡ ok (node, record { is = rest; location = l4 })
  unfolding read_children
  read_four node p container rest found r0 r1 r2 r3 fits room own h0 h1 h2 h3 =
      let own' = own_bits (bit_at containers) (4 * p) _ _ _ _ own in
      let l1 = p + 1 + option_count size node.c0 in
      let l2 = l1 + option_count size node.c1 in
      let l3 = l2 + option_count size node.c2 in
      let s3 = option_list files node.c3 ++ rest in
      let s2 = option_list files node.c2 ++ s3 in
      let s1 = option_list files node.c1 ++ s2 in
      rw (
        read_child-Reads node.c0 (p + 1) container (4 * p % 32) 0 p s1 (omega arith) found
            (omega arith) own'.0 r0 (omega arith) (omega arith) h0,
        read_child-Reads node.c1 l1 container (4 * p % 32 + 1) 1 p s2 refl found (omega arith)
            own'.1 r1 (omega arith) (omega arith) h1,
        read_child-Reads node.c2 l2 container (4 * p % 32 + 2) 2 p s3 refl found (omega arith)
            own'.2 r2 (omega arith) (omega arith) h2,
        read_child-Reads node.c3 l3 container (4 * p % 32 + 3) 3 p rest refl found (omega arith)
            own'.3 r3 (omega arith) (omega arith) h3,
      )

children_files-cons :
    {A : Type 0} (files : A → List ℕ) (c : Option A) (cs : List (Option A)) (rest : List ℕ)
    → children_files files (c ∷ cs) ++ rest
      ≡ option_list files c ++ (children_files files cs ++ rest)
children_files-cons files none cs rest = refl
children_files-cons files (some c) cs rest = append_assoc (files c) (children_files files cs) rest

children_bits-cons :
    {A : Type 0} (bits : A → List Bool) (c : Option A) (cs : List (Option A))
    → children_bits bits (c ∷ cs) ≡ option_list bits c ++ children_bits bits cs
children_bits-cons bits none cs = refl
children_bits-cons bits (some c) cs = refl

sum_children-cons :
    {A : Type 0} (size : A → ℕ) (c : Option A) (cs : List (Option A))
    → sum_children size (c ∷ cs) ≡ option_count size c + sum_children size cs
unfolding sum_children
sum_children-cons size none cs = omega arith
sum_children-cons size (some c) cs = refl

files_of_four :
    {A : Type 0} (files : A → List ℕ) (q : Quad (Option A)) (rest : List ℕ)
    → children_files files (to_list q) ++ rest
      ≡ option_list files q.c0
        ++ (option_list files q.c1 ++ (option_list files q.c2 ++ (option_list files q.c3 ++ rest)))
files_of_four files q rest = rw (
  children_files-cons files q.c0 (q.c1 ∷ q.c2 ∷ q.c3 ∷ []) rest,
  children_files-cons files q.c1 (q.c2 ∷ q.c3 ∷ []) rest,
  children_files-cons files q.c2 (q.c3 ∷ []) rest,
  children_files-cons files q.c3 [] rest,
)

sum_of_four :
    {A : Type 0} (size : A → ℕ) (q : Quad (Option A))
    → sum_children size (to_list q)
      ≡ option_count size q.c0
        + option_count size q.c1
        + option_count size q.c2
        + option_count size q.c3
unfolding sum_children
sum_of_four size q = omega (
  arith,
  sum_children-cons size q.c0 (q.c1 ∷ q.c2 ∷ q.c3 ∷ []),
  sum_children-cons size q.c1 (q.c2 ∷ q.c3 ∷ []),
  sum_children-cons size q.c2 (q.c3 ∷ []),
  sum_children-cons size q.c3 [],
)

length-option_list :
    {A : Type 0} (bits : A → List Bool) (size : A → ℕ)
    → ((a : A) → length (bits a) ≡ 4 * size a)
    → (c : Option A) → length (option_list bits c) ≡ 4 * option_count size c
length-option_list bits size h none = refl
length-option_list bits size h (some c) = h c

-- The bits of the first child, and those of the others behind them.
Holds-next :
    {A : Type 0} (bits : A → List Bool) (size : A → ℕ)
    → ((a : A) → length (bits a) ≡ 4 * size a)
    → (b : ℕ → Bool) (l : ℕ) (c : Option A) (cs : List (Option A))
    → Holds b (4 * l) (children_bits bits (c ∷ cs))
    → Holds b (4 * l) (option_list bits c)
      × Holds b (4 * (l + option_count size c)) (children_bits bits cs)
Holds-next bits size four b l c cs h =
    let split =
      Holds-split b (4 * l) (option_list bits c) (children_bits bits cs)
        (subst (Holds b (4 * l)) (children_bits-cons bits c cs) h) in
    (
      split.0,
      subst (λ p. Holds b p (children_bits bits cs))
          (omega (arith, length-option_list bits size four c)) split.1,
    )

AllChildren-map :
    {A : Type 0} (P Q : A → Type 0)
    → ((a : A) → P a → Q a)
    → (c : Option A) → AllChildren P c
    → AllChildren Q c
AllChildren-map P Q f none h = tt
AllChildren-map P Q f (some a) h = f a h

-- The deserializer finds a tree whose bits and files stand where it looks.
pub deserialize-Reads :
    (containers : List ℕ) (m d r : ℕ) (node : K2Node r)
    → IsNode m d r node
    → Reads containers
        (deserialize_k2node_tree containers r)
        (count_k2nodes_wchildren r)
        (topology r)
        (block_files m d r)
        node
unfolding deserialize_k2node_tree count_k2nodes_wchildren topology block_files IsNode
deserialize-Reads containers m d zero none h location rest fits room held = absurd h
deserialize-Reads containers m d zero (some b) h location rest fits room held =
    rw (read_tree-bytes (tree_data m d b) rest h) (ground arith)
deserialize-Reads containers m d (suc r) node h location rest fits room held =
    let size = count_k2nodes_wchildren r in
    let total = sum_of_four size node in
    let (container, found) = get_elem?_total containers (4 * location / 32) (omega arith) in
    let own =
      Holds-split (bit_at containers) (4 * location) (presence (to_list node))
        (children_bits (topology r) (to_list node)) held in
    let behind =
      subst (λ p. Holds (bit_at containers) p (children_bits (topology r) (to_list node)))
        {y = 4 * (location + 1)} (omega arith) own.1 in
    let n0 =
      Holds-next (topology r) size (length-topology r) (bit_at containers) (location + 1) node.c0
        (node.c1 ∷ node.c2 ∷ node.c3 ∷ []) behind in
    let n1 =
      Holds-next (topology r) size (length-topology r) (bit_at containers)
        (location + 1 + option_count size node.c0) node.c1 (node.c2 ∷ node.c3 ∷ []) n0.1 in
    let n2 =
      Holds-next (topology r) size (length-topology r) (bit_at containers)
        (location + 1 + option_count size node.c0 + option_count size node.c1) node.c2
        (node.c3 ∷ []) n1.1 in
    let n3 =
      Holds-next (topology r) size (length-topology r) (bit_at containers)
        (location
          + 1
          + option_count size node.c0
          + option_count size node.c1
          + option_count size node.c2)
        node.c3 [] n2.1 in
    let next : add32 location 1 ≡ location + 1 = omega arith in
    let reads =
      AllChildren-map (IsNode m d r)
        (Reads containers (deserialize_k2node_tree containers r) size (topology r)
          (block_files m d r))
        (deserialize-Reads containers m d r) in
    rw
      (
        lt→ltb location (2 ^ 29) (omega arith),
        found,
        next,
        files_of_four (block_files m d r) node rest,
        read_four containers (deserialize_k2node_tree containers r) size (topology r)
            (block_files m d r) node location container rest found (reads node.c0 h.0)
            (reads node.c1 h.1) (reads node.c2 h.2) (reads node.c3 h.3) (omega (arith, total))
            (omega (arith, total)) own.0 n0.0 n1.0 n2.0 n3.0,
      )
      (ap (λ l. ok (node, record { is = rest; location = l })) (omega (arith, total)))
