-- ===== src/ExternalSort/Passes/Divergence.antt =====
-- algorithms/triple_external_sort.hpp: merging files one by one.
use rdfcache_k.Prelude.{
  inr, Bool, ℕ, zero, suc, ◌<◌, ◌≡◌, refl, arith, List, lt→ltb, length, map, All, err, diverges,
  IsU64,
}
use native.Mathlib.Nat.{div-one}
use rdfcache_k.ExternalSort.Triples.{TripleValue}
use rdfcache_k.ExternalSort.Triples.Bytes.{file_bytes}
use rdfcache_k.ExternalSort.Slices.{length-map}
use rdfcache_k.ExternalSort.Orders.{concat, length-Perm}
use rdfcache_k.ExternalSort.Library.{SortLibrary, IsSortLibrary}
use rdfcache_k.ExternalSort.Merge.Pass.{IsRun}
use rdfcache_k.ExternalSort.Passes.{level_passes, merge_files}
use rdfcache_k.ExternalSort.Passes.Termination.{merge_bottom_up-AreRuns}

level_passes_one : (size : ℕ) → level_passes size 1 ≡ size
unfolding level_passes
level_passes_one size = ground (arith, div-one size)

module _ (less : TripleValue → TripleValue → Bool) (lib : SortLibrary)
    (promised : IsSortLibrary less lib) (block_size : ℕ) (room : 0 < block_size) where
  -- If there is more than one file and each is merged by itself, no number of rounds is enough.
  pub merge_files-diverges :
      (n : ℕ) (runs : List (List TripleValue))
      → 1 < length runs
      → All (IsRun less) runs
      → IsU64 (length (concat runs))
      → merge_files lib n 1 block_size (map file_bytes runs) ≡ err diverges
  unfolding merge_files
  merge_files-diverges zero runs several h fits =
      rw (length-map file_bytes runs, lt→ltb 1 (length runs) several) refl
  merge_files-diverges (suc n) runs several h fits =
      let merged =
        merge_bottom_up-AreRuns less lib promised 1 block_size room runs (omega arith) h fits
          (inr (omega arith)) in
      rw (length-map file_bytes runs, lt→ltb 1 (length runs) several, merged.result)
        (merge_files-diverges n merged.runs
          (omega (arith, merged.count, level_passes_one (length runs))) merged.are_runs
          (omega (arith, length-Perm merged.elements)))
