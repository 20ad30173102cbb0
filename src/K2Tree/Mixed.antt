-- ===== src/K2Tree/Mixed.antt =====
-- core/k2tree/K2TreeMixed.cpp: the upper levels of a k2-tree, their file format, and comparison.
pub mod Write
pub mod Read
pub mod Required
pub mod Topology
pub mod RoundTrip
pub mod Same
use rdfcache_k.Prelude.{
  ℕ, zero, suc, ◌+◌, Bool, true, false, Option, none, some, List, [], ◌∷◌, Result, ok, ◌>>=◌,
}
use rdfcache_k.K2Tree.Block.{Block}

-- `k2subtree.children`.
pub record Quad (A : Type 0) : Type 0 where
  pub c0 : A
  pub c1 : A
  pub c2 : A
  pub c3 : A

-- `struct k2node` at depth `cut_depth - r`: below the cut the union holds four pointers to
-- children, at the cut it holds a pointer to a block. `none` is a null pointer.
abbrev pub K2Node : ℕ → Type 0
K2Node zero = Option Block
K2Node (suc r) = Quad (Option (K2Node r))

abbrev pub to_list : {A : Type 0} → Quad A → List A
to_list q = q.c0 ∷ q.c1 ∷ q.c2 ∷ q.c3 ∷ []

-- The fields of `K2TreeMixed`.
pub record K2TreeMixed : Type 0 where
  pub tree_depth : ℕ
  pub cut_depth : ℕ
  pub max_nodes_count : ℕ
  pub points_count : ℕ
  pub root : K2Node cut_depth

-- `for (i = 0; i < 4; i++) if (children[i]) visit(children[i])`.
unfoldable pub visit_children : {A S : Type 0} → (A → S → Result S) → List (Option A) → S → Result S
visit_children visit [] s = ok s
visit_children visit (none ∷ cs) s = visit_children visit cs s
visit_children visit (some c ∷ cs) s = do s' ← visit c s; visit_children visit cs s'

-- The sum over the children that there are.
unfoldable pub sum_children : {A : Type 0} → (A → ℕ) → List (Option A) → ℕ
sum_children size [] = 0
sum_children size (none ∷ cs) = sum_children size cs
sum_children size (some c ∷ cs) = size c + sum_children size cs

unfoldable pub count_k2nodes_wchildren : (r : ℕ) → K2Node r → ℕ
unfolding sum_children
count_k2nodes_wchildren zero node = 0
count_k2nodes_wchildren (suc r) node = sum_children (count_k2nodes_wchildren r) (to_list node) + 1
