-- ===== src/ExternalSort/Split/Whole.antt =====
-- algorithms/triple_external_sort.hpp: `external_sort_triples` from its input to its output.
use rdfcache_k.Stream.{read_u64}
use rdfcache_k.ExternalSort.Passes.{first_file, merge_files}
use rdfcache_k.Stream.Laws.{read_u64-bytes}
use rdfcache_k.ExternalSort.Slices.{length-map}
use rdfcache_k.ExternalSort.Split.Parts.{IsComplete, split_loop-IsSplit, FitsBound}
use rdfcache_k.ExternalSort.Passes.Termination.{merge_files-IsRun}
use rdfcache_k.ExternalSort.Merge.Pass.{IsRun}
use rdfcache_k.ExternalSort.Triples.Bytes.{triples_bytes, file_bytes-parts, file_bytes, IsTriple}
use rdfcache_k.ExternalSort.Orders.{Distinct-Perm, Distinct, length-Perm, concat}
use rdfcache_k.ExternalSort.Library.{IsSortLibrary, SortLibrary}
use rdfcache_k.ExternalSort.Split.{
  Schedule, last_part, split_loop, FileParts, external_sort_triples, split_file, mem_budget_bound,
}
use native.Mathlib.Nat.{mod-eq_of_lt, mul-le-mul_left, div-add-mod'}
use rdfcache_k.Prelude.{
  ◌>>=◌, ap, undefined, err, false, ◌==◌, map, ok, IsU64, ◌∷◌, ltb, All, length, if_both, ◌∙◌, ◌%◌,
  add64, Bool, ℕ, ◌+◌, ◌*◌, ◌/◌, ◌<◌, ◌≤◌, ◌^◌, ◌≡◌, ◌==◌, refl, arith, List, [],
}
use mathlib.Core.List.{Permᴰ as Perm}
use rdfcache_k.ExternalSort.Triples.{unread, TripleValue}

mem_budget_bound_fits :
    (memory_budget segment_size : ℕ)
    → 24 ≤ segment_size
    → memory_budget + 48 ≤ 2 ^ 64
    → (0 < mem_budget_bound memory_budget segment_size)
      × (mem_budget_bound memory_budget segment_size + 24 ≤ 2 ^ 64)
unfolding mem_budget_bound
mem_budget_bound_fits memory_budget segment_size room fits =
    let q = memory_budget / segment_size in
    let part : q * 24 ≤ q * segment_size = mul-le-mul_left q room in
    let whole = div-add-mod' memory_budget segment_size in
    let qty : add64 q 1 ≡ q + 1 = mod-eq_of_lt (omega arith) in
    let sizes : ((q + 1) * 8) % 2 ^ 64 ≡ (q + 1) * 8 = mod-eq_of_lt (omega arith) in
    let nodes : ((q + 1) * 16) % 2 ^ 64 ≡ (q + 1) * 16 = mod-eq_of_lt (omega arith) in
    let extra : add64 ((q + 1) * 8) ((q + 1) * 16) ≡ (q + 1) * 24 =
      mod-eq_of_lt (omega arith) ∙ omega arith in
    rw (qty, sizes, nodes, extra)
      (if_both (λ b. (0 < b) × (b + 24 ≤ 2 ^ 64)) (ltb ((q + 1) * 24) memory_budget) _ _
        (λ t. (ground arith, omega arith)) (λ f. (omega arith, omega arith)))

all_unread : (n : ℕ) → unread (record { size = n; current_triple = 0 }) ≡ n
unfolding unread
all_unread n = omega arith

module _ (less : TripleValue → TripleValue → Bool) (lib : SortLibrary)
    (promised : IsSortLibrary less lib) where
  -- Some triple is in some file.
  some_run :
      (ts : List TripleValue) (runs : List (List TripleValue))
      → 0 < length ts
      → Perm ts (concat runs)
      → 0 < length runs
  unfolding concat
  some_run ts [] some_triple p = absurd (omega (arith, length-Perm p))
  some_run ts (r ∷ runs) some_triple p = omega arith

  split_file-IsSplit :
      (ts : List TripleValue) (schedule : Schedule) (workers segment_size memory_budget : ℕ)
      → IsComplete schedule workers (mem_budget_bound memory_budget segment_size)
      → Distinct less ts
      → 0 < workers
      → 24 ≤ segment_size
      → memory_budget + 48 ≤ 2 ^ 64
      → All IsTriple ts
      → IsU64 (length ts)
      → (runs : List (List TripleValue)) × (split_file lib schedule workers segment_size
            memory_budget
            (file_bytes ts)
          ≡ ok (map file_bytes runs))
        × All (IsRun less) runs
        × Perm ts (concat runs)
  unfolding split_file concat
  split_file-IsSplit ts schedule workers segment_size memory_budget complete distinct some_workers
        room fits good size =
      let bound = mem_budget_bound_fits memory_budget segment_size room fits in
      let start : FileParts = record { accumulated_size = 0; in_memory = []; filenames = [] } in
      let none : FitsBound (mem_budget_bound memory_budget segment_size) start = record {
        size = refl;
        below = omega (arith, bound.0);
        triples = tt;
      } in
      let split =
        split_loop-IsSplit less lib promised schedule workers segment_size
          (mem_budget_bound memory_budget segment_size) complete some_workers room bound.0 bound.1
          ts (record { size = length ts; current_triple = 0 }) start [] good none distinct refl
          tt in
      let some_size : (segment_size == 0) ≡ false = ground arith in
      let all = all_unread (length ts) in
      (
        split.runs,
        rw
            (
              some_size,
              file_bytes-parts ts,
              read_u64-bytes (length ts) (triples_bytes ts) size,
              all,
              split.result,
              split.files,
            )
            refl,
        split.are_runs,
        split.elements,
      )

  -- If the sort and the queue of the standard library keep their promises for the comparator, no two
  -- triples are equal for it, and the threads are interleaved so that each pool of more than one worker
  -- comes to an end, then sorting a file of triples with at least one worker, segments that hold a triple,
  -- blocks that are not empty, at least two files that are merged at a time and a budget that is not
  -- within 48 of 2 ^ 64 ends, for any file that announces as many triples as it holds, and at least one.
  -- The output is such a file, whose triples are a permutation of those of the input in which the
  -- comparator puts no triple in front of an earlier one.
  pub external_sort_triples-sorts :
      (ts : List TripleValue) (schedule : Schedule)
      (workers segment_size max_files memory_budget block_size : ℕ)
      → IsComplete schedule workers (mem_budget_bound memory_budget segment_size)
      → Distinct less ts
      → 0 < workers
      → 24 ≤ segment_size
      → 1 < max_files
      → memory_budget + 48 ≤ 2 ^ 64
      → 0 < block_size
      → All IsTriple ts
      → IsU64 (length ts)
      → 0 < length ts
      → (out : List TripleValue) × (external_sort_triples lib schedule workers segment_size
            max_files memory_budget block_size
            (file_bytes ts)
          ≡ ok (file_bytes out))
        × Perm ts out
        × IsRun less out
  unfolding external_sort_triples
  external_sort_triples-sorts ts schedule workers segment_size max_files memory_budget block_size
        complete distinct some_workers room many fits some_room good size some_triple =
      let (runs, split, are_runs, same) =
        split_file-IsSplit ts schedule workers segment_size memory_budget complete distinct
          some_workers room fits good size in
      let (out, merged, permuted, run) =
        merge_files-IsRun less lib promised max_files block_size some_room (length runs) runs many
          (some_run ts runs some_triple same) (omega arith) are_runs
          (omega (arith, length-Perm same)) (Distinct-Perm less same distinct) in
      (out, rw (split, length-map file_bytes runs) merged, Perm.trans same permuted, run)

-- Whatever the settings are, the behaviour is undefined for an input file that announces no triples:
-- either the size of the segments is zero, or no part is written, and the first of the files is asked for.
pub external_sort_triples-nil :
    (lib : SortLibrary) (schedule : Schedule)
    (workers segment_size max_files memory_budget block_size : ℕ)
    → external_sort_triples lib schedule workers segment_size max_files memory_budget block_size
        (file_bytes [])
      ≡ err undefined
unfolding external_sort_triples split_file split_loop last_part merge_files first_file
external_sort_triples-nil lib schedule workers segment_size max_files memory_budget block_size =
    let start : read_u64 (file_bytes []) ≡ ok (0, triples_bytes []) =
      ap read_u64 (file_bytes-parts []) ∙ read_u64-bytes 0 (triples_bytes []) (omega arith) in
    if_both
      (λ r.
        (r >>= λ files. merge_files lib (length files) max_files block_size files) ≡ err undefined)
      (segment_size == 0) _ _ (λ t. refl) (λ f. rw (start, all_unread 0) refl)
