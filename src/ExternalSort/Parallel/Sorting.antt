-- ===== src/ExternalSort/Parallel/Sorting.antt =====
-- algorithms/triple_external_sort.hpp: what `parallel_sort` returns.
use rdfcache_k.ExternalSort.Parallel.Tasks.{run_tasks-cut, wait_workers-Perm}
use rdfcache_k.Workers.{new_pool, act_all, Action}
use rdfcache_k.ExternalSort.Parallel.Merging.{push_heads-IsHeads}
use rdfcache_k.ExternalSort.Parallel.Parts.{sort-AreSorted, sorted-AreCut, sorted_parts-Perm, cut}
use rdfcache_k.ExternalSort.Parallel.Bounds.{
  segment_ends-nil, AscendsTo-Marks, segment_ends-AscendsTo,
}
use rdfcache_k.ExternalSort.Orders.{Distinct-Perm, Distinct, length-Perm, concat, Sorted}
use rdfcache_k.ExternalSort.Library.{IsSortLibrary, SortLibrary}
use rdfcache_k.ExternalSort.Parallel.{
  run_tasks, tasks_from, wait_workers, parallel_sort, sort_with_pool, segment_starts, segment_ends,
}
use Prim.Native.Nat.{min}
use rdfcache_k.Prelude.{
  sym, subst, inr, inl, Bool-cases, map, ltb, false, ◌==◌, ok, Result, ◌-◌, length-append, length,
  Bool, ℕ, ◌+◌, ◌<◌, ◌≤◌, ◌≡◌, refl, arith, ap, List, [], ◌∷◌,
}
use mathlib.Core.List.{Permᴰ as Perm}
use rdfcache_k.ExternalSort.Triples.{TripleValue}
use rdfcache_k.ExternalSort.Parallel.Merging.{push_heads-IsHeads, merge_segments-IsMerged}

segment_ends-ne :
    (triples : List TripleValue) (segment_size : ℕ) → 0 < length (segment_ends triples segment_size)
unfolding segment_ends
segment_ends-ne triples segment_size = omega (
  arith,
  length-append (segment_starts (length triples - 1) 1 24 segment_size) (length triples ∷ []),
)

module _ (less : TripleValue → TripleValue → Bool) (lib : SortLibrary)
    (promised : IsSortLibrary less lib) where
  -- The result is a sorted permutation.
  abbrev pub IsSortedOf : List TripleValue → Result (List TripleValue) → Type 0
  IsSortedOf ts r = (out : List TripleValue) × (r ≡ ok out) × Perm ts out × Sorted less out

  sort_with_pool-sorts :
      (ts : List TripleValue) (actions : List Action) (workers segment_size : ℕ) (ran : List ℕ)
      → 0 < workers
      → 0 < length ts
      → Distinct less ts
      → wait_workers
          (act_all actions (new_pool workers))
          (tasks_from 0 (length (segment_ends ts segment_size)))
        ≡ ok ran
      → IsSortedOf ts (sort_with_pool lib actions workers (segment_ends ts segment_size) ts)
  unfolding sort_with_pool
  sort_with_pool-sorts ts actions workers segment_size ran some_workers ne distinct waited =
      let ends = segment_ends ts segment_size in
      let up = segment_ends-AscendsTo ts segment_size ne in
      let size : length ts ≡ 0 + length ts = omega arith in
      let segments = map lib.sort (cut 0 ends ts) in
      let sorted = concat segments in
      let run =
        wait_workers-Perm workers actions (tasks_from 0 (length ends)) ran some_workers waited in
      let parts : run_tasks lib ends ran ts ≡ sorted =
        run_tasks-cut less lib promised (length ts) ends ran ts up size run in
      let same = sorted_parts-Perm less lib promised 0 (length ts) ends ts up size in
      let heads =
        push_heads-IsHeads less lib ends sorted [] 0 ends segments refl refl
          (AscendsTo-Marks 0 (length ts) ends up)
          (sorted-AreCut less lib promised 0 (length ts) ends ts up size)
          (sort-AreSorted less lib promised (cut 0 ends ts)) in
      let merged =
        merge_segments-IsMerged less lib ends sorted promised (length ts) heads.q
          (omega (arith, ap length heads.left, length-Perm same)) heads.fronts
          (subst (Distinct less) (sym heads.left) (Distinct-Perm less same distinct)) in
      (
        merged.out,
        rw (waited, parts, heads.result, merged.result) refl,
        Perm.trans same (subst (λ v. Perm v merged.out) heads.left merged.elements),
        merged.sorted,
      )

  -- Only data that is not empty has more than one segment.
  several :
      (ts : List TripleValue) (max_workers segment_size : ℕ)
      → 0 < max_workers
      → (min max_workers (length (segment_ends ts segment_size)) == 1) ≡ false
      → 0 < length ts
  several [] max_workers segment_size h e = absurd (ground (arith, segment_ends-nil segment_size))
  several (t ∷ ts) max_workers segment_size h e = omega arith

  -- With segments that hold a triple, at least one worker, no two triples that are equal for the
  -- comparator, and an interleaving with which the pool comes to an end if there is one, `parallel_sort`
  -- returns, and what it returns is a permutation of the data in which the comparator puts no triple in
  -- front of an earlier one.
  pub parallel_sort-sorts :
      (ts : List TripleValue) (schedule : (workers tasks : ℕ) → List Action)
      (max_workers segment_size : ℕ)
      → 24 ≤ segment_size
      → 0 < max_workers
      → Distinct less ts
      → ((w : ℕ)
          → 1 < w
          → w ≤ max_workers
          → (ran : List ℕ) × (wait_workers
                (act_all (schedule w (length (segment_ends ts segment_size))) (new_pool w))
                (tasks_from 0 (length (segment_ends ts segment_size)))
              ≡ ok ran))
      → (out : List TripleValue) × (parallel_sort lib schedule ts max_workers segment_size ≡ ok out)
        × Perm ts out
        × Sorted less out
  unfolding parallel_sort
  parallel_sort-sorts ts schedule max_workers segment_size room some_workers distinct ends =
      let count = length (segment_ends ts segment_size) in
      let workers = min max_workers count in
      let wide : ltb segment_size 24 ≡ false = ground arith in
      let some : 0 < workers = ground (arith, segment_ends-ne ts segment_size) in
      let done : IsSortedOf ts (ok (lib.sort ts)) =
        (lib.sort ts, refl, promised.sort-Perm ts, promised.sort-Sorted ts) in
      elim (Bool-cases (workers == 1)) [
        | inl one ↦ rw (wide, one) done
        | inr more ↦
            (let two : 1 < workers = ground arith in
              let below : workers ≤ max_workers = ground arith in
              let (ran, waited) = ends workers two below in
              rw (wide, more)
                (sort_with_pool-sorts ts (schedule workers count) workers segment_size ran some
                  (several ts max_workers segment_size some_workers more) distinct waited))
      ]
