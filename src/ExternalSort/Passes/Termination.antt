-- ===== src/ExternalSort/Passes/Termination.antt =====
-- algorithms/triple_external_sort.hpp: the loop over `merge_bottom_up` comes to an end.
use native.Mathlib.Nat.{add-mul, mul-le-mul_left, suc-mul, mod-lt, div-add-mod'}
use rdfcache_k.Prelude.{
  ◌⊎◌, length-drop, drop-drop, take_append-drop, lt→ltb, subst, Bool, ltb→lt, ℕ, zero, suc, ◌+◌,
  ◌*◌, ◌/◌, ◌%◌, ◌<◌, ◌≤◌, ◌==◌, ◌≡◌, refl, sym, arith, ap, ◌∙◌, List, [], ◌∷◌, ◌++◌, false, ltb,
  Bool-cases, inl, inr, length, length-append, take, drop, map, All, Result, ok, IsU64,
}
use mathlib.Core.List.{Permᴰ as Perm}
use mathlib.Core.List.Permᴰ as Perm
use rdfcache_k.Stream.{IStream}
use rdfcache_k.ExternalSort.Triples.{TripleValue}
use rdfcache_k.ExternalSort.Triples.Bytes.{file_bytes}
use rdfcache_k.ExternalSort.Orders.{
  Distinct-right, Distinct-left, Distinct-Perm, Distinct, concat, length-Perm,
}
use rdfcache_k.ExternalSort.Slices.{
  length-take_le, take_beyond, All-take, All-drop, concat-append, map-take, map-drop, length-map,
}
use rdfcache_k.ExternalSort.Library.{SortLibrary, IsSortLibrary}
use rdfcache_k.ExternalSort.Merge.Pass.{IsRun, merge_pass-IsRun}
use rdfcache_k.ExternalSort.Passes.{
  level_passes, pass_files, merge_passes, merge_bottom_up, first_file, merge_files,
}

-- The files of a pass are the next `max_files`, or those that are left.
pass_files-take :
    (pass max_files : ℕ) (files : List IStream)
    → pass_files pass max_files files ≡ take max_files (drop (pass * max_files) files)
unfolding pass_files
pass_files-take pass max_files files =
    let start = pass * max_files in
    let end : (pass + 1) * max_files ≡ start + max_files =
      omega (arith, add-mul pass 1 max_files) in
    let left = length-drop start files in
    elim (Bool-cases (ltb (length files) ((pass + 1) * max_files))) [
      | inl t ↦
          (let few : length files < (pass + 1) * max_files = ltb→lt _ _ t in
            take_beyond _ max_files (drop start files) (omega arith) (omega arith))
      | inr f ↦
          (let many : (pass + 1) * max_files ≤ length files = ground arith in
            ap (λ k. take k (drop start files)) (omega arith))
    ]

level_passes_below :
    (size max_files : ℕ) → 1 < size → 1 < max_files → level_passes size max_files < size
unfolding level_passes
level_passes_below size max_files h k =
    let whole = div-add-mod' size max_files in
    let twice : (size / max_files) * 2 ≤ (size / max_files) * max_files =
      mul-le-mul_left (size / max_files) (omega arith) in
    ground (arith, whole, twice)

level_passes_enough :
    (size max_files : ℕ) → 0 < max_files → size ≤ level_passes size max_files * max_files
unfolding level_passes
level_passes_enough size max_files k =
    let whole = div-add-mod' size max_files in
    let below = mod-lt size k in
    elim (Bool-cases (size % max_files == 0)) [
      | inl t ↦
          (let exact : size % max_files ≡ 0 = ground arith in
            rw t (omega (arith, whole, add-mul (size / max_files) 0 max_files)))
      | inr f ↦ rw f (omega (arith, whole, below, add-mul (size / max_files) 1 max_files))
    ]

positive : (k max_files size : ℕ) → 0 < size → size ≤ k * max_files → 0 < k
positive zero max_files size h g = absurd (omega arith)
positive (suc k) max_files size h g = omega arith

joined-Perm :
    (all these others out rest : List TripleValue)
    → all ≡ these ++ others
    → Perm these out
    → Perm others rest
    → Perm all (out ++ rest)
joined-Perm all these others out rest e p q =
    subst (λ v. Perm v (out ++ rest)) (sym e)
      (Perm.trans (Perm.append_right others p) (Perm.append_left out q))

-- What is known of the files of a round: they hold sorted runs with the triples `ts`.
pub record AreRuns (less : TripleValue → TripleValue → Bool) (ts : List TripleValue) (size : ℕ)
    (r : Result (List IStream)) : Type 0 where
  pub runs : List (List TripleValue)
  pub result : r ≡ ok (map file_bytes runs)
  pub elements : Perm ts (concat runs)
  pub are_runs : All (IsRun less) runs
  pub count : length runs ≡ size

module _ (less : TripleValue → TripleValue → Bool) (lib : SortLibrary)
    (promised : IsSortLibrary less lib) (max_files block_size : ℕ) (room : 0 < block_size) where
  merge_passes-AreRuns :
      (n pass : ℕ) (runs left : List (List TripleValue))
      → left ≡ drop (pass * max_files) runs
      → All (IsRun less) left
      → IsU64 (length (concat left))
      → length left ≤ n * max_files
      → Distinct less (concat left) ⊎ (max_files ≤ 1)
      → AreRuns less
          (concat left)
          n
          (merge_passes lib n pass max_files block_size (map file_bytes runs))
  unfolding merge_passes concat
  merge_passes-AreRuns zero pass runs [] e h fits all ordered = record {
    runs = [];
    result = refl;
    elements = Perm.nil;
    are_runs = tt;
    count = refl;
  }
  merge_passes-AreRuns zero pass runs (r ∷ left) e h fits all ordered = absurd (omega arith)
  merge_passes-AreRuns (suc n) pass runs left e h fits all ordered =
      let these = take max_files left in
      let others = drop max_files left in
      let split : concat left ≡ concat these ++ concat others =
        ap concat (sym (take_append-drop max_files left)) ∙ concat-append these others in
      let counted : length (concat left) ≡ length (concat these) + length (concat others) =
        omega (arith, ap length split, length-append (concat these) (concat others)) in
      let place : pass_files pass max_files (map file_bytes runs) ≡ map file_bytes these =
        pass_files-take pass max_files (map file_bytes runs)
        ∙ rw (map-drop file_bytes (pass * max_files) runs, ← e)
            (map-take file_bytes max_files left) in
      let (out, merged, same, run) =
        merge_pass-IsRun less lib block_size these promised room
          (All-take (IsRun less) max_files left h) (omega arith)
          (elim ordered [
            | inl distinct ↦ inl (
                Distinct-left less (concat these) (concat others)
                  (subst (Distinct less) split distinct))
            | inr one ↦ inr (omega (arith, one, length-take_le max_files left))
          ]) in
      let next : others ≡ drop (suc pass * max_files) runs =
        ap (drop max_files) e
        ∙ drop-drop (pass * max_files) max_files runs
        ∙ ap (λ k. drop k runs) (omega (arith, suc-mul pass max_files)) in
      let rest =
        merge_passes-AreRuns n (suc pass) runs others next (All-drop (IsRun less) max_files left h)
          (omega arith) (omega (arith, length-drop max_files left, suc-mul n max_files))
          (elim ordered [
            | inl distinct ↦ inl (
                Distinct-right less (concat these) (concat others)
                  (subst (Distinct less) split distinct))
            | inr one ↦ inr one
          ]) in
      record {
        runs = out ∷ rest.runs;
        result = rw (place, merged, rest.result) refl;
        elements =
            joined-Perm (concat left) (concat these) (concat others) out (concat rest.runs) split
              same rest.elements;
        are_runs = (run, rest.are_runs);
        count = omega (arith, rest.count);
      }

  pub merge_bottom_up-AreRuns :
      (runs : List (List TripleValue))
      → 0 < max_files
      → All (IsRun less) runs
      → IsU64 (length (concat runs))
      → Distinct less (concat runs) ⊎ (max_files ≤ 1)
      → AreRuns less
          (concat runs)
          (level_passes (length runs) max_files)
          (merge_bottom_up lib max_files block_size (map file_bytes runs))
  unfolding merge_bottom_up
  merge_bottom_up-AreRuns runs many h fits ordered =
      let passes = level_passes (length runs) max_files in
      let none : 0 ≡ 0 * max_files = omega arith in
      let start : runs ≡ drop (0 * max_files) runs = ap (λ k. drop k runs) none in
      let some_files : (max_files == 0) ≡ false = ground arith in
      rw (some_files, length-map file_bytes runs)
        (merge_passes-AreRuns passes 0 runs runs start h fits
          (level_passes_enough (length runs) max_files many) ordered)

  pub merge_files-IsRun :
      (n : ℕ) (runs : List (List TripleValue))
      → 1 < max_files
      → 0 < length runs
      → length runs ≤ suc n
      → All (IsRun less) runs
      → IsU64 (length (concat runs))
      → Distinct less (concat runs)
      → (out : List TripleValue) × (merge_files lib n max_files block_size (map file_bytes runs)
          ≡ ok (file_bytes out))
        × Perm (concat runs) out
        × IsRun less out
  unfolding merge_files first_file
  merge_files-IsRun n [] many some_run enough h fits distinct = absurd (omega arith)
  merge_files-IsRun zero (ts ∷ []) many some_run enough h fits distinct =
      (ts, refl, unfold concat in Perm.append-nil ts, h.0)
  merge_files-IsRun (suc n) (ts ∷ []) many some_run enough h fits distinct =
      (ts, refl, unfold concat in Perm.append-nil ts, h.0)
  merge_files-IsRun zero (ts ∷ us ∷ runs) many some_run enough h fits distinct =
      absurd (omega arith)
  merge_files-IsRun (suc n) (ts ∷ us ∷ runs) many some_run enough h fits distinct =
      let all = ts ∷ us ∷ runs in
      let merged = merge_bottom_up-AreRuns all (omega arith) h fits (inl distinct) in
      let size = length all in
      let fewer = level_passes_below size max_files (omega arith) many in
      let some_left =
        positive (level_passes size max_files) max_files size (omega arith)
          (level_passes_enough size max_files (omega arith)) in
      let (out, written, same, run) =
        merge_files-IsRun n merged.runs many (omega (arith, merged.count))
          (omega (arith, merged.count)) merged.are_runs (omega (arith, length-Perm merged.elements))
          (Distinct-Perm less merged.elements distinct) in
      (
        out,
        rw (lt→ltb 1 (length (map file_bytes all)) (omega arith), merged.result) written,
        Perm.trans merged.elements same,
        run,
      )
