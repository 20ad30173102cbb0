-- ===== src/K2Tree/Mixed/Topology/Written.antt =====
-- The serializer of K2TreeMixed.cpp and the topology of a tree.
use rdfcache_k.Prelude.{
  ℕ, zero, suc, ◌+◌, ◌*◌, ◌/◌, ◌%◌, ◌^◌, ◌≤◌, ◌<◌, ◌≡◌, refl, subst, ◌∙◌, Bool, false, Option, none,
  some, ◌⊎◌, List, [], ◌∷◌, ◌++◌, length, All, get_elem?, set, length-set, get_elem?_total, arith,
  IsU32, Result, ok, ◌>>=◌, add32,
}
use rdfcache_k.K2Tree.Mixed.{K2Node, to_list, visit_children, sum_children, count_k2nodes_wchildren}
use rdfcache_k.K2Tree.Mixed.Write.{Topology, serialize_to_vec_with_k2node_ptrs}
use rdfcache_k.K2Tree.Mixed.Topology.{
  presence, children_bits, topology, length-topology, bit_at, Holds, Holds-agree, Holds-append,
}
use rdfcache_k.K2Tree.Mixed.Topology.Marks.{
  marked, marked_outside, marked-Holds, mark_children-IsU32,
}

-- From `s` to `t`, `n` nodes were written: no bit outside theirs changed.
pub record Frame (s t : Topology) (n : ℕ) : Type 0 where
  pub moved : t.location ≡ s.location + n
  pub size_kept : length t.containers ≡ length s.containers
  pub words_kept : All IsU32 s.containers → All IsU32 t.containers
  pub outside :
      (p : ℕ)
      → (p < 4 * s.location) ⊎ (4 * (s.location + n) ≤ p)
      → bit_at t.containers p ≡ bit_at s.containers p

-- There is room for `n` nodes, and no bit is set from here on.
pub record Ready (s : Topology) (n : ℕ) : Type 0 where
  pub room : s.location + n ≤ 8 * length s.containers
  pub small : s.location + n < 2 ^ 29
  pub clear : (p : ℕ) → 4 * s.location ≤ p → bit_at s.containers p ≡ false

-- A run from `s` that writes these bits, four for each of `n` nodes.
abbrev pub Writes : Topology → Result Topology → ℕ → List Bool → Type 0
Writes s r n bits =
    (t : Topology) × (r ≡ ok t) × Frame s t n × Holds (bit_at t.containers) (4 * s.location) bits

Frame-trans : {s t u : Topology} (m n : ℕ) → Frame s t m → Frame t u n → Frame s u (m + n)
Frame-trans m n f g = record {
  moved = omega (arith, f.moved, g.moved);
  size_kept = g.size_kept ∙ f.size_kept;
  words_kept = λ h. g.words_kept (f.words_kept h);
  outside = λ p out. g.outside p (omega (arith, f.moved)) ∙ f.outside p (omega arith);
}

Ready-later : {s t : Topology} (m n : ℕ) → Ready s (m + n) → Frame s t m → Ready t n
Ready-later m n r f = record {
  room = omega (arith, r.room, f.moved, f.size_kept);
  small = omega (arith, r.small, f.moved);
  clear = λ p h. f.outside p (omega (arith, f.moved)) ∙ r.clear p (omega (arith, f.moved));
}

Ready-fewer : {s : Topology} (m n : ℕ) → Ready s n → m ≤ n → Ready s m
Ready-fewer m n r h = record {
  room = omega (arith, r.room);
  small = omega (arith, r.small);
  clear = r.clear;
}

Frame-refl : (s : Topology) → Frame s s 0
Frame-refl s = record {
  moved = omega arith;
  size_kept = refl;
  words_kept = λ h. h;
  outside = λ p out. refl;
}

-- Bits that a part of the run wrote stay when the rest is written behind them.
Holds-kept :
    {s t u : Topology} (m n : ℕ) (xs : List Bool)
    → Frame s t m
    → Frame t u n
    → length xs ≡ 4 * m
    → Holds (bit_at t.containers) (4 * s.location) xs
    → Holds (bit_at u.containers) (4 * s.location) xs
Holds-kept {s} {t} {u} m n xs f g e =
    Holds-agree (bit_at t.containers) (bit_at u.containers) (4 * s.location) xs
      (λ q l r. g.outside q (omega (arith, f.moved)))

Writes-seq :
    {s : Topology} (m n : ℕ) (xs ys : List Bool) (r : Result Topology)
    (k : Topology → Result Topology)
    → length xs ≡ 4 * m
    → Ready s (m + n)
    → Writes s r m xs
    → ((t : Topology) → Ready t n → Writes t (k t) n ys)
    → Writes s (r >>= k) (m + n) (xs ++ ys)
Writes-seq {s} m n xs ys r k four ready (t, e, f, h) next =
    let (u, e', g, h') = next t (Ready-later m n ready f) in
    (
      u,
      rw e e',
      Frame-trans m n f g,
      Holds-append (bit_at u.containers) (4 * s.location) xs ys (Holds-kept m n xs f g four h)
          (subst (λ p. Holds (bit_at u.containers) p ys) (omega (arith, f.moved)) h'),
    )

module _ {A : Type 0} (visit : A → Topology → Result Topology) (size : A → ℕ) (bits : A → List Bool)
    (four : (a : A) → length (bits a) ≡ 4 * size a)
    (writes : (a : A) (s : Topology)
      → Ready s (size a)
      → Writes s (visit a s) (size a) (bits a)) where
  visit_children-Writes :
      (cs : List (Option A)) (s : Topology)
      → Ready s (sum_children size cs)
      → Writes s (visit_children visit cs s) (sum_children size cs) (children_bits bits cs)
  unfolding visit_children sum_children
  visit_children-Writes [] s r = (s, refl, Frame-refl s, tt)
  visit_children-Writes (none ∷ cs) s r = visit_children-Writes cs s r
  visit_children-Writes (some c ∷ cs) s r =
      Writes-seq (size c) (sum_children size cs) (bits c) (children_bits bits cs) (visit c s)
        (visit_children visit cs) (four c) r (writes c s (Ready-fewer _ _ r (omega arith)))
        (visit_children-Writes cs)

All-set : (xs : List ℕ) (i v : ℕ) → IsU32 v → All IsU32 xs → All IsU32 (set xs i v)
All-set [] i v h a = tt
All-set (x ∷ xs) zero v h a = (h, a.1)
All-set (x ∷ xs) (suc i) v h a = (a.0, All-set xs i v h a.1)

All-get_elem? : (xs : List ℕ) (i v : ℕ) → All IsU32 xs → get_elem? xs i ≡ some v → IsU32 v
All-get_elem? [] i v a e = cc
All-get_elem? (x ∷ xs) zero v a e = ground (arith, a.0)
All-get_elem? (x ∷ xs) (suc i) v a e = All-get_elem? xs i v a.1 e

-- The node's own four bits.
mark-Writes :
    {A : Type 0} (cs : List (Option A)) (s : Topology) (c : ℕ)
    → length cs ≡ 4
    → Ready s 1
    → get_elem? s.containers (4 * s.location / 32) ≡ some c
    → Writes s
        (ok
          (record { containers = marked cs s.containers s.location c; location = s.location + 1 }))
        1
        (presence cs)
mark-Writes cs s c four r found = (
  _,
  refl,
  record {
    moved = refl;
    size_kept = length-set s.containers (4 * s.location / 32) _;
    words_kept = λ a.
        All-set s.containers (4 * s.location / 32) _
          (mark_children-IsU32 cs (4 * s.location % 32) c
            (All-get_elem? s.containers (4 * s.location / 32) c a found))
          a;
    outside = λ p out.
        marked_outside cs s.containers s.location c p four (omega (arith, r.room)) found
          (omega arith);
  },
  marked-Holds cs s.containers s.location c four (omega (arith, r.room)) found r.clear,
)

Writes-count :
    (s : Topology) (r : Result Topology) (m n : ℕ) (bits : List Bool)
    → m ≡ n
    → Writes s r m bits
    → Writes s r n bits
Writes-count s r m n bits e w = subst (λ k. Writes s r k bits) e w

-- The nodes above the cut are written in preorder, four bits each, wherever there is room for them.
pub serialize-Writes :
    (r : ℕ) (node : K2Node r) (s : Topology)
    → Ready s (count_k2nodes_wchildren r node)
    → Writes s
        (serialize_to_vec_with_k2node_ptrs r node s)
        (count_k2nodes_wchildren r node)
        (topology r node)
unfolding serialize_to_vec_with_k2node_ptrs count_k2nodes_wchildren topology
serialize-Writes zero node s ready = (s, refl, Frame-refl s, tt)
serialize-Writes (suc r) node s ready =
    let n = sum_children (count_k2nodes_wchildren r) (to_list node) in
    let (c, found) =
      get_elem?_total s.containers (4 * s.location / 32) (omega (arith, ready.room)) in
    let position : 4 * s.location % 2 ^ 32 ≡ 4 * s.location = omega (arith, ready.small) in
    let next : add32 s.location 1 ≡ s.location + 1 = omega (arith, ready.small) in
    rw (position, next, found)
      (Writes-count s _ (1 + n) (n + 1)
        (presence (to_list node) ++ children_bits (topology r) (to_list node)) (omega arith)
        (Writes-seq 1 n (presence (to_list node)) (children_bits (topology r) (to_list node)) _
          (visit_children (serialize_to_vec_with_k2node_ptrs r) (to_list node)) refl
          (Ready-fewer (1 + n) (n + 1) ready (omega arith))
          (mark-Writes (to_list node) s c refl (Ready-fewer 1 (n + 1) ready (omega arith)) found)
          (visit_children-Writes (serialize_to_vec_with_k2node_ptrs r) (count_k2nodes_wchildren r)
            (topology r) (length-topology r) (serialize-Writes r) (to_list node))))
