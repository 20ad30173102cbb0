-- ===== src/ExternalSort/Merge/Pass.antt =====
-- algorithms/triple_external_sort.hpp: `merge_pass` from its files to its result.
use rdfcache_k.Prelude.{
  inr, inl, ◌⊎◌, ◌>>=◌, All-append, length-append, ℕ, ◌<◌, ◌≤◌, ◌≡◌, ◌%◌, ◌^◌, refl, arith, List,
  [], ◌∷◌, ◌++◌, Bool, length, All, map, Result, ok, IsU64,
}
use mathlib.Core.List.{Permᴰ as Perm}
use rdfcache_k.Stream.{OStream, u64_bytes}
use rdfcache_k.Stream.Laws.{empty-at_end, write_u64-at_end, read_u64-bytes, content-at_end}
use rdfcache_k.ExternalSort.Triples.{TripleValue}
use rdfcache_k.ExternalSort.Triples.Bytes.{IsTriple, triples_bytes, file_bytes, file_bytes-parts}
use rdfcache_k.ExternalSort.Orders.{Distinct-Perm, Distinct, All-Perm, length-Perm, concat, Sorted}
use rdfcache_k.ExternalSort.Library.{SortLibrary, IsSortLibrary}
use rdfcache_k.ExternalSort.Merge.{MergeSource, open_files, total_size, announced, merge_pass}
use rdfcache_k.ExternalSort.Merge.Source.{fill_block-IsFilled}
use rdfcache_k.ExternalSort.Merge.Rows.{AllHold, AllHold-length}
use rdfcache_k.ExternalSort.Merge.Loop.{pending, IsMerged}
use rdfcache_k.ExternalSort.Merge.Rounds.{merge_loop-IsMerged, update_blocks-IsStarted}

-- A sorted run that fits in a file.
pub record IsRun (less : TripleValue → TripleValue → Bool) (ts : List TripleValue) : Type 0 where
  pub fit : All IsTriple ts
  pub sorted : Sorted less ts
  pub size_fits : IsU64 (length ts)

record IsOpened (runs : List (List TripleValue)) (r : Result (List MergeSource)) : Type 0 where
  sources : List MergeSource
  result : r ≡ ok sources
  hold : AllHold sources runs
  counted : announced sources ≡ length (concat runs)
  total : total_size sources ≡ length (concat runs) % 2 ^ 64

open_files-IsOpened :
    (less : TripleValue → TripleValue → Bool) (runs : List (List TripleValue)) (block_size : ℕ)
    → All (IsRun less) runs
    → IsOpened runs (open_files block_size (map file_bytes runs))
unfolding open_files announced total_size AllHold concat
open_files-IsOpened less [] block_size h = record {
  sources = [];
  result = refl;
  hold = tt;
  counted = refl;
  total = refl;
}
open_files-IsOpened less (ts ∷ runs) block_size (run, h) =
    let first =
      fill_block-IsFilled ts [] block_size 0 (record { size = length ts; current_triple = 0 })
        run.fit (omega arith) in
    let rest = open_files-IsOpened less runs block_size h in
    record {
      sources = first.source ∷ rest.sources;
      result =
          rw
            (
              file_bytes-parts ts,
              read_u64-bytes (length ts) (triples_bytes ts) run.size_fits,
              first.result,
              rest.result,
            )
            refl;
      hold = (first.holds, rest.hold);
      counted = omega (arith, first.same_size, rest.counted, length-append ts (concat runs));
      total = omega (arith, first.same_size, rest.total, length-append ts (concat runs));
    }

runs-Sorted :
    (less : TripleValue → TripleValue → Bool) (runs : List (List TripleValue))
    → All (IsRun less) runs
    → All (Sorted less) runs
runs-Sorted less [] h = tt
runs-Sorted less (ts ∷ runs) h = ((h.0).sorted, runs-Sorted less runs h.1)

concat-IsTriple :
    (less : TripleValue → TripleValue → Bool) (runs : List (List TripleValue))
    → All (IsRun less) runs
    → All IsTriple (concat runs)
unfolding concat
concat-IsTriple less [] h = tt
concat-IsTriple less (ts ∷ runs) h =
    All-append IsTriple ts (concat runs) (h.0).fit (concat-IsTriple less runs h.1)

-- The file that the loop leaves.
merged_file :
    (less : TripleValue → TripleValue → Bool) (n : ℕ) (ts : List TripleValue) (r : Result OStream)
    → n ≡ length ts
    → IsMerged less (u64_bytes n) ts r
    → (out : List TripleValue) × ((r >>= λ os. ok os.content) ≡ ok (file_bytes out))
      × Perm ts out
      × Sorted less out
merged_file less n ts r e h =
    let whole : length h.out ≡ n = omega (arith, length-Perm h.elements) in
    (
      h.out,
      rw
          (
            h.result,
            content-at_end (u64_bytes n ++ triples_bytes h.out),
            file_bytes-parts h.out,
            whole,
          )
          refl,
      h.elements,
      h.sorted,
    )

-- If the runs are sorted and fit in files, and so do all of them together, and a block has room for
-- a triple, and no two triples are equal for the comparator or there is at most one run, then merging their files succeeds: the result is a file of a sorted run with the
-- triples of all of them.
pub merge_pass-IsRun :
    (less : TripleValue → TripleValue → Bool) (lib : SortLibrary) (block_size : ℕ)
    (runs : List (List TripleValue))
    → IsSortLibrary less lib
    → 0 < block_size
    → All (IsRun less) runs
    → IsU64 (length (concat runs))
    → Distinct less (concat runs) ⊎ (length runs ≤ 1)
    → (out : List TripleValue) × (merge_pass lib block_size (map file_bytes runs)
        ≡ ok (file_bytes out))
      × Perm (concat runs) out
      × IsRun less out
unfolding merge_pass
merge_pass-IsRun less lib block_size runs promised room h fits ordered =
    let opened = open_files-IsOpened less runs block_size h in
    let started =
      update_blocks-IsStarted less lib promised (length opened.sources) 0 block_size opened.sources
        runs [] room (omega (arith, AllHold-length opened.sources runs opened.hold)) opened.hold
        (record { sorted = runs-Sorted less runs h; ahead = tt })
        (λ j below. absurd (omega arith)) in
    let enough : length (pending started.left started.entries) ≤ announced opened.sources =
      omega (arith, opened.counted, length-Perm started.elements) in
    let merged =
      merge_loop-IsMerged less lib promised (announced opened.sources) block_size started.sources
        started.left started.entries (u64_bytes (length (concat runs))) room started.hold
        started.merging started.live enough
        (elim ordered [
          | inl distinct ↦ inl (Distinct-Perm less started.elements distinct)
          | inr few ↦
              inr (omega (arith, few, started.few, AllHold-length opened.sources runs opened.hold))
        ]) in
    let total : total_size opened.sources ≡ length (concat runs) = omega (arith, opened.total) in
    let (out, written, elements, sorted) =
      merged_file less (length (concat runs)) (pending started.left started.entries) _
        (length-Perm started.elements) merged in
    let same : Perm (concat runs) out = Perm.trans started.elements elements in
    (
      out,
      rw
          (
            opened.result,
            started.result,
            total,
            empty-at_end,
            write_u64-at_end [] (length (concat runs)),
          )
          written,
      same,
      record {
        fit = All-Perm IsTriple same (concat-IsTriple less runs h);
        sorted = sorted;
        size_fits = omega (arith, length-Perm same);
      },
    )
