-- ===== src/ExternalSort/Merge/Rounds.antt =====
-- algorithms/triple_external_sort.hpp: the rounds of the loops of `merge_pass`.
use rdfcache_k.Prelude.{
  inr, ◌⊎◌, inl, Option, ℕ, zero, suc, ◌+◌, ◌<◌, ◌≤◌, ◌≡◌, ◌≢◌, refl, arith, ◌∙◌, List, [], ◌∷◌,
  ◌++◌, append-nil, append_assoc, some, none, Bool, length, All, Result, ok,
}
use mathlib.Core.List.{Permᴰ as Perm}
use mathlib.Core.List.Permᴰ as Perm
use rdfcache_k.Stream.{OStream}
use rdfcache_k.Stream.Laws.{at_end}
use rdfcache_k.ExternalSort.Triples.{TripleValue, write_to_file}
use rdfcache_k.ExternalSort.Triples.Bytes.{triple_bytes, triples_bytes, write_to_file-at_end}
use rdfcache_k.ExternalSort.Orders.{
  Distinct-left, Distinct-Perm, Distinct, Among, All-Perm, length-Perm, concat, Before, Sorted,
}
use rdfcache_k.ExternalSort.Library.{Entry, SortLibrary, IsSortLibrary}
use rdfcache_k.ExternalSort.Merge.{MergeSource, push, block_update, update_blocks, merge_loop}
use rdfcache_k.ExternalSort.Merge.Source.{head_of}
use rdfcache_k.ExternalSort.Merge.Rows.{row_place, row, AllHold}
use rdfcache_k.ExternalSort.Merge.Invariant.{
  triples_of, taken, IsLive, IsMerging, IsMerging-taken, length-taken,
}
use rdfcache_k.ExternalSort.Merge.Loop.{
  pending, pending-taken, block_update-IsUpdated, IsLive-taken, IsMerged, top-place, rest-IsMerging,
  pending_least, rest-IsLive, pending_popped, empty_row, no_rows,
}

below_suc : (j k : ℕ) → j < suc k → j ≢ k → j < k
below_suc j k h ne = omega arith

module _ (less : TripleValue → TripleValue → Bool) (lib : SortLibrary)
    (promised : IsSortLibrary less lib) where
  merge_loop-empty :
      (n block_size : ℕ) (sources : List MergeSource) (os : OStream)
      → merge_loop lib n block_size sources [] os ≡ ok os
  unfolding merge_loop
  merge_loop-empty zero block_size sources os = rw (merge_loop, promised.pop_top-empty) refl
  merge_loop-empty (suc n) block_size sources os = rw (merge_loop, promised.pop_top-empty) refl

  merge_loop-suc :
      (n block_size : ℕ) (sources sources' : List MergeSource) (q rest q' : List Entry)
      (top : Entry) (os : OStream)
      → lib.pop_top q ≡ some (top, rest)
      → block_update block_size top.1 sources rest ≡ ok (sources', q')
      → merge_loop lib (suc n) block_size sources q os
        ≡ merge_loop lib n block_size sources' q' (write_to_file top.0 os)
  unfolding merge_loop
  merge_loop-suc n block_size sources sources' q rest q' top os e f = rw (merge_loop, e, f) refl

  -- One round, whose top is written.
  IsMerged-round :
      (c : List ℕ) (t : TripleValue) (before rest ts : List TripleValue) (r : Result OStream)
      → Perm before (t ∷ rest)
      → Perm rest ts
      → All (Before less t) rest
      → IsMerged less (c ++ triple_bytes t) ts r
      → IsMerged less c before r
  IsMerged-round c t before rest ts r first others least h = record {
    out = t ∷ h.out;
    result = h.result ∙ rw append_assoc (unfold triples_bytes in refl);
    elements = Perm.trans first (Perm.cons refl (Perm.trans others h.elements));
    sorted =
        unfold Sorted in (All-Perm (Before less t) (Perm.trans others h.elements) least, h.sorted);
  }

  -- No two triples that are to be written are equal for the comparator, or the queue never has two.
  abbrev pub AreOrdered : List (List TripleValue) → List Entry → Type 0
  AreOrdered rows q = Distinct less (pending rows q) ⊎ (length q ≤ 1)

  AreOrdered-Distinct :
      (rows : List (List TripleValue)) (e : Entry) (q : List Entry)
      → AreOrdered rows (e ∷ q)
      → Distinct less (triples_of (e ∷ q))
  AreOrdered-Distinct rows e q (inl h) = Distinct-left less (triples_of (e ∷ q)) (concat rows) h
  AreOrdered-Distinct rows e [] (inr few) = unfold Distinct in (tt, tt)
  AreOrdered-Distinct rows e (e' ∷ q) (inr few) = absurd (omega arith)

  length-push :
      (o : Option TripleValue) (i : ℕ) (q : List Entry) → length (push o i q) ≤ suc (length q)
  unfolding push
  length-push none i q = omega arith
  length-push (some t) i q = omega arith

  AreOrdered-next :
      (rows : List (List TripleValue)) (q rest : List Entry) (top : Entry)
      → Perm q (top ∷ rest)
      → Perm (pending rows q) (top.0 ∷ pending rows rest)
      → AreOrdered rows q
      → AreOrdered (taken rows top.1) (push (head_of (row rows top.1)) top.1 rest)
  AreOrdered-next rows q rest top p first (inl h) = inl (
      Distinct-Perm less (pending-taken rows rest top.1)
        (unfold Distinct in (Distinct-Perm less first h).1))
  AreOrdered-next rows q rest top p first (inr few) =
      inr (omega (arith, length-Perm p, length-push (head_of (row rows top.1)) top.1 rest))

  pub merge_loop-IsMerged :
      (n block_size : ℕ) (sources : List MergeSource) (rows : List (List TripleValue))
      (q : List Entry) (c : List ℕ)
      → 0 < block_size
      → AllHold sources rows
      → IsMerging less rows q
      → ((j : ℕ) → IsLive less rows q j)
      → length (pending rows q) ≤ n
      → AreOrdered rows q
      → IsMerged less c (pending rows q) (merge_loop lib n block_size sources q (at_end c))
  merge_loop-IsMerged n block_size sources rows [] c room hold merging live enough ordered =
      let none_left : concat rows ≡ [] =
        no_rows rows
          (λ i. empty_row (row rows i) (λ ne. let (t, m) = live i ne in unfold Among in m)) in
      record {
        out = [];
        result =
            unfold triples_bytes in
            rw (append-nil c) (merge_loop-empty n block_size sources (at_end c));
        elements = rw none_left Perm.nil;
        sorted = unfold Sorted in tt;
      }
  merge_loop-IsMerged zero block_size sources rows (e ∷ q) c room hold merging live enough ordered =
      absurd (omega arith)
  merge_loop-IsMerged (suc n) block_size sources rows (e ∷ q) c room hold merging live enough
        ordered =
      let popped = promised.pop_top-IsTop e q (AreOrdered-Distinct rows e q ordered) in
      let top = popped.top in
      let rest = popped.rest in
      let place =
        top-place less lib promised rows (e ∷ q) top rest popped.elements popped.least merging
          live in
      let least =
        pending_least less lib promised rows (e ∷ q) top rest popped.elements popped.least merging
          live in
      let first =
        pending_popped less lib promised rows (e ∷ q) top rest popped.elements popped.least merging
          live in
      let updated = block_update-IsUpdated sources rows top.1 block_size rest room hold place in
      let others = pending-taken rows rest top.1 in
      IsMerged-round c top.0 (pending rows (e ∷ q)) (pending rows rest)
        (pending (taken rows top.1) (push (head_of (row rows top.1)) top.1 rest)) _ first others
        least
        (rw
          (
            merge_loop-suc n block_size sources updated.sources (e ∷ q) rest
                (push (head_of (row rows top.1)) top.1 rest) top (at_end c) popped.result
                updated.result,
            write_to_file-at_end top.0 c,
          )
          (merge_loop-IsMerged n block_size updated.sources (taken rows top.1)
            (push (head_of (row rows top.1)) top.1 rest) (c ++ triple_bytes top.0) room updated.hold
            (IsMerging-taken less rows rest top.1 place (
              rest-IsMerging less lib promised rows (e ∷ q) top rest popped.elements popped.least
                merging live))
            (λ j. IsLive-taken less rows rest top.1 j place (
              rest-IsLive less lib promised rows (e ∷ q) top rest popped.elements popped.least
                merging live j))
            (omega (arith, enough, length-Perm first, length-Perm others))
            (AreOrdered-next rows (e ∷ q) rest top popped.elements first ordered)))

  -- The queue is filled for the places below `k`; what filling it for all makes of it.
  pub record IsStarted (n : ℕ) (rows : List (List TripleValue)) (q : List Entry)
      (r : Result (List MergeSource × List Entry)) : Type 0 where
    pub left : List (List TripleValue)
    pub sources : List MergeSource
    pub entries : List Entry
    pub result : r ≡ ok (sources, entries)
    pub hold : AllHold sources left
    pub merging : IsMerging less left entries
    pub live : (j : ℕ) → IsLive less left entries j
    pub elements : Perm (pending rows q) (pending left entries)
    pub few : length entries ≤ n + length q

  pub update_blocks-IsStarted :
      (n k block_size : ℕ) (sources : List MergeSource) (rows : List (List TripleValue))
      (q : List Entry)
      → 0 < block_size
      → n + k ≡ length rows
      → AllHold sources rows
      → IsMerging less rows q
      → ((j : ℕ) → j < k → IsLive less rows q j)
      → IsStarted n rows q (update_blocks n k block_size sources q)
  unfolding update_blocks
  update_blocks-IsStarted zero k block_size sources rows q room all hold merging live = record {
    left = rows;
    sources = sources;
    entries = q;
    result = refl;
    hold = hold;
    merging = merging;
    live = λ j ne. live j (omega (arith, row_place rows j ne)) ne;
    elements = Perm.refl _;
    few = omega arith;
  }
  update_blocks-IsStarted (suc n) k block_size sources rows q room all hold merging live =
      let place : k < length rows = omega arith in
      let updated = block_update-IsUpdated sources rows k block_size q room hold place in
      let next = push (head_of (row rows k)) k q in
      let rest =
        update_blocks-IsStarted n (suc k) block_size updated.sources (taken rows k) next room
          (omega (arith, length-taken less rows k)) updated.hold
          (IsMerging-taken less rows q k place merging)
          (λ j below.
            IsLive-taken less rows q k j place (λ other. live j (below_suc j k below other))) in
      record {
        left = rest.left;
        sources = rest.sources;
        entries = rest.entries;
        result = rw updated.result rest.result;
        hold = rest.hold;
        merging = rest.merging;
        live = rest.live;
        elements = Perm.trans (pending-taken rows q k) rest.elements;
        few = omega (arith, rest.few, length-push (head_of (row rows k)) k q);
      }
