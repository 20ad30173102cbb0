-- ===== src/ExternalSort/Split/Parts.antt =====
-- algorithms/triple_external_sort.hpp: the parts that `split_file` writes.
use rdfcache_k.ExternalSort.Parallel.Bounds.{segment_ends_below}
use rdfcache_k.Workers.{new_pool, act_all}
use rdfcache_k.ExternalSort.Parallel.{tasks_from, segment_ends, wait_workers}
use rdfcache_k.ExternalSort.Parallel.Parts.{empty_if}
use rdfcache_k.ExternalSort.Slices.{concat-append}
use rdfcache_k.ExternalSort.Parallel.Sorting.{parallel_sort-sorts}
use rdfcache_k.ExternalSort.Orders.{
  Distinct-right, Distinct-Perm, Distinct-left, Distinct, length-Perm, All-Perm, concat,
}
use rdfcache_k.ExternalSort.Merge.Pass.{IsRun}
use rdfcache_k.Stream.Laws.{content-at_end, write_u64-at_end, empty-at_end}
use rdfcache_k.ExternalSort.Library.{IsSortLibrary, SortLibrary}
use rdfcache_k.ExternalSort.Triples.Bytes.{
  read_triple-bytes, file_bytes-parts, triples_bytes, write_triples-at_end, IsTriple, file_bytes,
}
use rdfcache_k.Stream.{u64_bytes, empty, write_u64}
use rdfcache_k.ExternalSort.Split.{
  Schedule, split_loop, last_part, push_back, part_for_next, create_file_part, FileParts,
}
use rdfcache_k.Prelude.{
  ◌∙◌, append_assoc, subst, inr, inl, ltb, leb, length-append, Bool-cases, append-nil, All-append,
  All, ok, length, Result, Bool, map, ℕ, ◌+◌, ◌*◌, ◌<◌, ◌≤◌, ◌^◌, ◌≡◌, refl, sym, arith, ap, List,
  [], ◌∷◌, ◌++◌,
}
use mathlib.Core.List.{Permᴰ as Perm}
use mathlib.Core.List.Permᴰ as Perm
use rdfcache_k.ExternalSort.Triples.{FileData, write_triples, TripleValue}

-- The file of sorted triples.
file_written :
    (ts : List TripleValue)
    → (write_triples ts (write_u64 empty (length ts))).content ≡ file_bytes ts
file_written ts =
    rw
      (
        empty-at_end,
        write_u64-at_end [] (length ts),
        write_triples-at_end ts (u64_bytes (length ts)),
        content-at_end (u64_bytes (length ts) ++ triples_bytes ts),
      )
      (sym (file_bytes-parts ts))

map-append :
    (runs others : List (List TripleValue))
    → map file_bytes (runs ++ others) ≡ map file_bytes runs ++ map file_bytes others
map-append [] others = refl
map-append (r ∷ runs) others = ap (◌∷◌ (file_bytes r)) (map-append runs others)

no_more_in_memory :
    (before after held : List TripleValue)
    → held ≡ []
    → Perm before (after ++ held)
    → Perm before after
no_more_in_memory before after held e p =
    subst (Perm before) (append-nil after) (subst (λ v. Perm before (after ++ v)) e p)

with_next :
    (t : TripleValue) (ts a b c d : List TripleValue)
    → Perm (a ++ b) (c ++ d)
    → Perm (a ++ (b ++ t ∷ ts)) (c ++ ((d ++ t ∷ []) ++ ts))
with_next t ts a b c d p =
    rw (append_assoc d (t ∷ []) ts, ← append_assoc a b (t ∷ ts), ← append_assoc c d (t ∷ ts))
      (Perm.append_right (t ∷ ts) p)

-- What is written of the triples `ts`.
pub record IsSplit (less : TripleValue → TripleValue → Bool) (ts : List TripleValue)
    (r : Result FileParts) : Type 0 where
  pub parts : FileParts
  pub result : r ≡ ok parts
  pub runs : List (List TripleValue)
  pub files : parts.filenames ≡ map file_bytes runs
  pub are_runs : All (IsRun less) runs
  pub elements : Perm ts (concat runs)

-- So many triples are in memory that they are below the bound.
pub record FitsBound (bound : ℕ) (parts : FileParts) : Type 0 where
  pub size : parts.accumulated_size ≡ 24 * length parts.in_memory
  pub below : parts.accumulated_size < bound + 24
  pub triples : All IsTriple parts.in_memory

-- What `r` makes of parts with the runs `runs`, with room for another triple.
record HasRoom (less : TripleValue → TripleValue → Bool) (bound : ℕ)
    (runs : List (List TripleValue)) (held : List TripleValue) (r : Result FileParts) : Type 0 where
  next : FileParts
  result : r ≡ ok next
  fits : FitsBound bound next
  room : next.accumulated_size < bound
  new_runs : List (List TripleValue)
  files : next.filenames ≡ map file_bytes new_runs
  are_runs : All (IsRun less) new_runs
  elements : Perm (concat runs ++ held) (concat new_runs ++ next.in_memory)

-- With this interleaving, each pool of at most so many workers that has no more tasks than there are
-- triples in memory comes to an end.
pub record IsComplete (schedule : Schedule) (workers bound : ℕ) : Type 0 where
  pub ends :
      (file w n : ℕ)
      → 1 < w
      → w ≤ workers
      → 24 * n < bound + 24
      → (ran : List ℕ) × (wait_workers (act_all (schedule file w n) (new_pool w)) (tasks_from 0 n)
          ≡ ok ran)

module _ (less : TripleValue → TripleValue → Bool) (lib : SortLibrary)
    (promised : IsSortLibrary less lib) (schedule : Schedule) (workers segment_size bound : ℕ)
    (complete : IsComplete schedule workers bound) (some_workers : 0 < workers)
    (room : 24 ≤ segment_size) (some_bound : 0 < bound) (bound_fits : bound + 24 ≤ 2 ^ 64) where
  few_segments :
      (parts : FileParts)
      → FitsBound bound parts
      → 24 * length (segment_ends parts.in_memory segment_size) < bound + 24
  few_segments parts fits = elim (segment_ends_below parts.in_memory segment_size) [
    | inl few ↦ omega (arith, few, fits.size, fits.below)
    | inr one ↦ omega (arith, one)
  ]

  create_file_part-HasRoom :
      (parts : FileParts) (runs : List (List TripleValue))
      → FitsBound bound parts
      → Distinct less parts.in_memory
      → parts.filenames ≡ map file_bytes runs
      → All (IsRun less) runs
      → (r : HasRoom less bound runs parts.in_memory
          (create_file_part lib schedule workers segment_size parts))
        × (r.next.in_memory ≡ [])
  unfolding create_file_part concat
  create_file_part-HasRoom parts runs fits distinct files h =
      let (out, sorted, same, in_order) =
        parallel_sort-sorts less lib promised parts.in_memory (schedule (length parts.filenames))
          workers segment_size room some_workers distinct
          (λ w several below.
            complete.ends (length parts.filenames) w
              (length (segment_ends parts.in_memory segment_size)) several below
              (few_segments parts fits)) in
      let run : IsRun less out = record {
        fit = All-Perm IsTriple same fits.triples;
        sorted = in_order;
        size_fits = omega (arith, length-Perm same, fits.size, fits.below);
      } in
      (
        record {
          next = record {
            accumulated_size = 0;
            in_memory = [];
            filenames = parts.filenames ++ file_bytes out ∷ [];
          };
          result = rw (sorted, file_written out) refl;
          fits = record { size = refl; below = omega arith; triples = tt };
          room = some_bound;
          new_runs = runs ++ out ∷ [];
          files = ap (λ v. v ++ file_bytes out ∷ []) files ∙ sym (map-append runs (out ∷ []));
          are_runs = All-append (IsRun less) runs (out ∷ []) h (run, tt);
          elements =
              rw (concat-append runs (out ∷ []), append-nil out, append-nil (concat runs ++ out))
                (Perm.append_left (concat runs) same);
        },
        refl,
      )

  part_for_next-HasRoom :
      (parts : FileParts) (runs : List (List TripleValue))
      → FitsBound bound parts
      → Distinct less parts.in_memory
      → parts.filenames ≡ map file_bytes runs
      → All (IsRun less) runs
      → HasRoom less bound runs parts.in_memory
          (part_for_next lib schedule workers segment_size bound parts)
  unfolding part_for_next
  part_for_next-HasRoom parts runs fits distinct files h =
      elim (Bool-cases (leb bound parts.accumulated_size)) [
        | inl full ↦ rw full (create_file_part-HasRoom parts runs fits distinct files h).0
        | inr f ↦ rw f (record {
          next = parts;
          result = refl;
          fits = fits;
          room = ground arith;
          new_runs = runs;
          files = files;
          are_runs = h;
          elements = Perm.refl _;
        })
      ]

  push_back-FitsBound :
      (t : TripleValue) (parts : FileParts)
      → IsTriple t
      → FitsBound bound parts
      → parts.accumulated_size < bound
      → FitsBound bound (push_back lib schedule workers segment_size t parts)
  unfolding push_back
  push_back-FitsBound t parts good fits below = record {
    size = omega (arith, fits.size, length-append parts.in_memory (t ∷ []));
    below = omega arith;
    triples = All-append IsTriple parts.in_memory (t ∷ []) fits.triples (good, tt);
  }

  last_part-IsSplit :
      (parts : FileParts) (runs : List (List TripleValue))
      → FitsBound bound parts
      → Distinct less parts.in_memory
      → parts.filenames ≡ map file_bytes runs
      → All (IsRun less) runs
      → IsSplit less
          (concat runs ++ parts.in_memory)
          (last_part lib schedule workers segment_size parts)
  unfolding last_part
  last_part-IsSplit parts runs fits distinct files h =
      elim (Bool-cases (ltb 0 parts.accumulated_size)) [
        | inl some ↦
            (let (made, cleared) = create_file_part-HasRoom parts runs fits distinct files h in
              rw some (record {
                parts = made.next;
                result = made.result;
                runs = made.new_runs;
                files = made.files;
                are_runs = made.are_runs;
                elements =
                    no_more_in_memory (concat runs ++ parts.in_memory) (concat made.new_runs)
                      made.next.in_memory cleared made.elements;
              }))
        | inr f ↦
            (let none : parts.in_memory ≡ [] =
                empty_if parts.in_memory (ground (arith, fits.size)) in
              rw f (record {
                parts = parts;
                result = refl;
                runs = runs;
                files = files;
                are_runs = h;
                elements =
                    no_more_in_memory (concat runs ++ parts.in_memory) (concat runs) parts.in_memory
                      none (Perm.refl _);
              }))
      ]

  -- The triples in memory are among those that are still to be written.
  held_Distinct :
      (runs : List (List TripleValue)) (held ts : List TripleValue)
      → Distinct less (concat runs ++ (held ++ ts))
      → Distinct less held
  held_Distinct runs held ts h =
      Distinct-left less held ts (Distinct-right less (concat runs) (held ++ ts) h)

  pub split_loop-IsSplit :
      (ts : List TripleValue) (filedata : FileData) (parts : FileParts)
      (runs : List (List TripleValue))
      → All IsTriple ts
      → FitsBound bound parts
      → Distinct less (concat runs ++ (parts.in_memory ++ ts))
      → parts.filenames ≡ map file_bytes runs
      → All (IsRun less) runs
      → IsSplit less (concat runs ++ (parts.in_memory ++ ts)) (
          split_loop lib schedule workers segment_size
            (length ts)
            bound
            (triples_bytes ts)
            filedata
            parts)
  unfolding split_loop triples_bytes push_back concat
  split_loop-IsSplit [] filedata parts runs good fits distinct files h =
      rw (append-nil parts.in_memory)
        (last_part-IsSplit parts runs fits (held_Distinct runs parts.in_memory [] distinct) files h)
  split_loop-IsSplit (t ∷ ts) filedata parts runs good fits distinct files h =
      let part =
        part_for_next-HasRoom parts runs fits (held_Distinct runs parts.in_memory (t ∷ ts) distinct)
          files h in
      let moved =
        with_next t ts (concat runs) parts.in_memory (concat part.new_runs) part.next.in_memory
          part.elements in
      let next = push_back lib schedule workers segment_size t part.next in
      let rest =
        split_loop-IsSplit ts (record filedata { current_triple = filedata.current_triple + 1 })
          next part.new_runs good.1 (push_back-FitsBound t part.next good.0 part.fits part.room)
          (Distinct-Perm less moved distinct) part.files part.are_runs in
      rw (read_triple-bytes filedata t (triples_bytes ts) good.0, part.result)
        (record {
          parts = rest.parts;
          result = rest.result;
          runs = rest.runs;
          files = rest.files;
          are_runs = rest.are_runs;
          elements = Perm.trans moved rest.elements;
        })
