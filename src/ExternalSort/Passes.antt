-- ===== src/ExternalSort/Passes.antt =====
-- algorithms/triple_external_sort.hpp: `merge_bottom_up`, and the loop of `external_sort_triples` that
-- calls it until one file is left. `max_files` is not negative.
pub mod Termination
pub mod Divergence
use Prim.Native.Nat.{min}
use rdfcache_k.Prelude.{
  ℕ, zero, suc, ◌+◌, ◌-◌, ◌*◌, ◌/◌, ◌%◌, ◌==◌, List, [], ◌∷◌, true, false, if◌then◌else◌, ltb,
  length, take, drop, Result, ok, err, undefined, diverges, ◌>>=◌,
}
use rdfcache_k.Stream.{IStream}
use rdfcache_k.ExternalSort.Library.{SortLibrary}
use rdfcache_k.ExternalSort.Merge.{merge_pass}

unfoldable pub level_passes : ℕ → ℕ → ℕ
level_passes size max_files = size / max_files + (if size % max_files == 0 then 0 else 1)

-- The files of a pass, from `start` to before `end`.
unfoldable pub pass_files : ℕ → ℕ → List IStream → List IStream
pass_files pass max_files files =
    take (min ((pass + 1) * max_files) (length files) - pass * max_files)
      (drop (pass * max_files) files)

module _ (lib : SortLibrary) where
  -- The loop, with `n` passes left.
  unfoldable pub merge_passes : ℕ → ℕ → ℕ → ℕ → List IStream → Result (List IStream)
  merge_passes zero current_pass max_files block_size files = ok []
  merge_passes (suc n) current_pass max_files block_size files = do
    pass_file ← merge_pass lib block_size (pass_files current_pass max_files files)
    rest ← merge_passes n (suc current_pass) max_files block_size files
    ok (pass_file ∷ rest)

  -- The number of files is divided by `max_files`.
  unfoldable pub merge_bottom_up : ℕ → ℕ → List IStream → Result (List IStream)
  merge_bottom_up max_files block_size files =
      if max_files == 0
      then err undefined
      else merge_passes (level_passes (length files) max_files) 0 max_files block_size files

  -- The first of the files, which becomes the output.
  unfoldable pub first_file : List IStream → Result IStream
  first_file [] = err undefined
  first_file (file ∷ files) = ok file

  -- `while (current_filenames.size() > 1)`, for at most `n` rounds.
  unfoldable pub merge_files : ℕ → ℕ → ℕ → List IStream → Result IStream
  merge_files zero max_files block_size files =
      if ltb 1 (length files) then err diverges else first_file files
  merge_files (suc n) max_files block_size files =
      if ltb 1 (length files)
      then (do
        merged ← merge_bottom_up max_files block_size files
        merge_files n max_files block_size merged)
      else first_file files
