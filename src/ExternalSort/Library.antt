-- ===== src/ExternalSort/Library.antt =====
-- algorithms/triple_external_sort.hpp: what it uses of the standard library and of its comparator.
use rdfcache_k.Prelude.{map, ℕ, ◌≡◌, List, [], ◌∷◌, Option, none, some, Bool, All}
use mathlib.Core.List.{Permᴰ as Perm}
use rdfcache_k.ExternalSort.Triples.{TripleValue}
use rdfcache_k.ExternalSort.Orders.{Distinct, Before, Sorted}

-- A triple with the place it comes from, `pair_tvalue_ul`.
abbrev pub Entry : Type 0
Entry = TripleValue × ℕ

-- `std::sort`, and `top` with `pop` of a `std::priority_queue`, of which nothing but its elements
-- counts, so that `push` adds to a list.
pub record SortLibrary : Type 0 where
  pub sort : List TripleValue → List TripleValue
  pub pop_top : List Entry → Option (Entry × List Entry)

-- One element is taken out, and the comparator puts none of the others in front of it.
pub record IsTop (less : TripleValue → TripleValue → Bool) (q : List Entry)
    (r : Option (Entry × List Entry)) : Type 0 where
  pub top : Entry
  pub rest : List Entry
  pub result : r ≡ some (top, rest)
  pub elements : Perm q (top ∷ rest)
  pub least : All (λ (e : Entry). Before less top.0 e.0) rest

-- What the library promises. The queue's own comparison is the negated comparator, which holds both
-- ways of two elements that are equal for the comparator, and so is an order only where there are no such
-- two: for a queue without them the top is an element that the comparator puts first, and nothing is
-- promised of other queues. The comparator is a strict weak order, for which not to be put in front of
-- another is transitive.
pub record IsSortLibrary (less : TripleValue → TripleValue → Bool) (lib : SortLibrary)
    : Type 0 where
  pub irrefl : (a : TripleValue) → Before less a a
  pub trans : (a b c : TripleValue) → Before less a b → Before less b c → Before less a c
  pub sort-Perm : (ts : List TripleValue) → Perm ts (lib.sort ts)
  pub sort-Sorted : (ts : List TripleValue) → Sorted less (lib.sort ts)
  pub pop_top-empty : lib.pop_top [] ≡ none
  pub pop_top-IsTop :
      (e : Entry) (q : List Entry)
      → Distinct less (map (λ (x : Entry). x.0) (e ∷ q))
      → IsTop less (e ∷ q) (lib.pop_top (e ∷ q))
