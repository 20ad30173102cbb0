-- ===== src/ExternalSort/Parallel/Merging.antt =====
-- algorithms/triple_external_sort.hpp: the loop that merges the segments in `parallel_sort`.
use rdfcache_k.ExternalSort.Parallel.Parts.{AreCut}
use rdfcache_k.ExternalSort.Parallel.Bounds.{Marks}
use rdfcache_k.ExternalSort.Orders.{
  Distinct-right, Distinct-Perm, Apart, All-right, Distinct, length-Perm, All-Perm, All-mono,
  Before, Sorted, concat,
}
use rdfcache_k.ExternalSort.Parallel.Segments.{
  left_of, GoesOn-part, all_left-Perm, whole-IsFront, get_elem?-append, whole, IsFront, all_left,
  GoesOn,
}
use rdfcache_k.ExternalSort.Parallel.{is_end, merge_segments, starts_of, push_next, push_heads}
use rdfcache_k.ExternalSort.Library.{IsTop, IsSortLibrary, Entry, SortLibrary}
use rdfcache_k.Prelude.{
  map, get_elem?, length-append, subst, All-append, append_assoc, length, ok, All, Result, Bool, ℕ,
  zero, suc, ◌≤◌, ◌≡◌, refl, sym, arith, ap, ◌∙◌, List, [], ◌∷◌, ◌++◌,
}
use mathlib.Core.List.{Permᴰ as Perm}
use rdfcache_k.ExternalSort.Triples.{TripleValue}

module _ (less : TripleValue → TripleValue → Bool) (lib : SortLibrary) (ends : List ℕ)
    (triples : List TripleValue) where
  abbrev AreFronts : List Entry → Type 0
  AreFronts = All (IsFront ends triples less)

  -- The queue that the merge starts with.
  pub record IsHeads (segments : List (List TripleValue)) (r : Result (List Entry)) : Type 0 where
    pub q : List Entry
    pub result : r ≡ ok q
    pub fronts : AreFronts q
    pub left : all_left ends triples q ≡ concat segments

  pub push_heads-IsHeads :
      (pre : List TripleValue) (a : ℕ) (bs : List ℕ) (segments : List (List TripleValue))
      → triples ≡ pre ++ concat segments
      → length pre ≡ a
      → Marks ends a bs
      → AreCut a bs segments
      → All (Sorted less) segments
      → IsHeads segments (push_heads (starts_of a bs) triples)
  unfolding push_heads starts_of Marks AreCut concat Sorted all_left
  push_heads-IsHeads pre a [] segments e k m c h = record {
    q = [];
    result = refl;
    fronts = tt;
    left = ap concat (sym c);
  }
  push_heads-IsHeads pre a (b ∷ bs) [] e k m c h = absurd c
  push_heads-IsHeads pre a (b ∷ bs) ([] ∷ segments) e k (up, _, _, m) c h =
      absurd (omega (arith, c.0))
  push_heads-IsHeads pre a (b ∷ bs) ((t ∷ ts) ∷ segments) e k (up, inside, here, m) (size, c) h =
      let found = get_elem?-append pre t (ts ++ concat segments) a (sym k) in
      let rest =
        push_heads-IsHeads (pre ++ t ∷ ts) b bs segments
          (e ∙ sym (append_assoc pre (t ∷ ts) (concat segments)))
          (omega (arith, length-append pre (t ∷ ts))) m c h.1 in
      let front : IsFront ends triples less (t, a) = record {
        behind = ts;
        goes_on =
            GoesOn-part ends triples (pre ++ t ∷ []) ts (concat segments) (suc a) b
              (e ∙ sym (append_assoc pre (t ∷ []) (ts ++ concat segments)))
              (omega (arith, length-append pre (t ∷ []))) (omega arith)
              (λ j g l. inside j (omega arith) l) here;
        few = omega (
          arith,
          ap length e,
          length-append pre ((t ∷ ts) ++ concat segments),
          length-append ts (concat segments),
        );
        sorted = h.0;
      } in
      record {
        q = (t, a) ∷ rest.q;
        result = rw (ap (λ v. get_elem? v a) e, found, rest.result) refl;
        fronts = (front, rest.fronts);
        left = rw (whole-IsFront ends triples less (t, a) front, rest.left) refl;
      }

  -- The queue after an entry has been replaced by the next one of its segment.
  record IsPushed (behind : List TripleValue) (rest : List Entry) (r : Result (List Entry))
      : Type 0 where
    pub q : List Entry
    pub result : r ≡ ok q
    pub fronts : AreFronts q
    pub left : all_left ends triples q ≡ behind ++ all_left ends triples rest

  push_next-IsPushed :
      (i : ℕ) (behind : List TripleValue) (rest : List Entry)
      → GoesOn ends triples i behind
      → length behind ≤ length triples
      → Sorted less behind
      → AreFronts rest
      → IsPushed behind rest (push_next lib (is_end ends i) i triples rest)
  unfolding push_next GoesOn all_left
  push_next-IsPushed i [] rest g few sorted h = record {
    q = rest;
    result = rw g refl;
    fronts = h;
    left = refl;
  }
  push_next-IsPushed i (u ∷ us) rest (inside, found, g) few sorted h =
      let front : IsFront ends triples less (u, i) = record {
        behind = us;
        goes_on = g;
        few = omega arith;
        sorted = sorted;
      } in
      record {
        q = (u, i) ∷ rest;
        result = rw (inside, found) refl;
        fronts = (front, h);
        left = rw (whole-IsFront ends triples less (u, i) front) refl;
      }

  -- The triples of the queue are among those that are left.
  All-heads :
      (P : TripleValue → Type 0) (q : List Entry)
      → All P (all_left ends triples q)
      → All P (map (λ (e : Entry). e.0) q)
  unfolding all_left whole
  All-heads P [] h = tt
  All-heads P (e ∷ q) h =
      (h.0, All-heads P q (All-right P (whole ends triples e) (all_left ends triples q) h))

  Distinct-heads :
      (q : List Entry)
      → Distinct less (all_left ends triples q)
      → Distinct less (map (λ (e : Entry). e.0) q)
  unfolding all_left whole Distinct
  Distinct-heads [] h = tt
  Distinct-heads (e ∷ q) h = (
    All-heads (Apart less e.0) q (
        All-right (Apart less e.0) (left_of ends triples (length triples) (suc e.1))
          (all_left ends triples q) h.0),
    Distinct-heads q (Distinct-right less (whole ends triples e) (all_left ends triples q) h),
  )

  module _ (promised : IsSortLibrary less lib) where
    -- A triple that stands in front of the triples of the queue stands in front of all.
    Before-all_left :
        (t : TripleValue) (q : List Entry)
        → AreFronts q
        → All (λ (e : Entry). Before less t e.0) q
        → All (Before less t) (all_left ends triples q)
    unfolding all_left Sorted
    Before-all_left t [] h b = tt
    Before-all_left t (e ∷ q) h b =
        let behind =
          All-mono (Before less e.0) (Before less t) h.0.behind
            (λ u c. promised.trans t e.0 u b.0 c) h.0.sorted.0 in
        rw (whole-IsFront ends triples less e h.0) (
          b.0,
          All-append (Before less t) h.0.behind (all_left ends triples q) behind
              (Before-all_left t q h.1 b.1),
        )

    pub record IsMerged (pend : List TripleValue) (r : Result (List TripleValue)) : Type 0 where
      pub out : List TripleValue
      pub result : r ≡ ok out
      pub elements : Perm pend out
      pub sorted : Sorted less out

    -- One round, when the top of the queue is known.
    merge_step :
        (n : ℕ) (q : List Entry) (top : IsTop less q (lib.pop_top q))
        → length (all_left ends triples q) ≤ suc n
        → AreFronts q
        → Distinct less (all_left ends triples q)
        → ((p : List Entry)
            → length (all_left ends triples p) ≤ n
            → AreFronts p
            → Distinct less (all_left ends triples p)
            → IsMerged (all_left ends triples p) (merge_segments lib n ends triples p))
        → IsMerged (all_left ends triples q) (merge_segments lib (suc n) ends triples q)
    unfolding merge_segments all_left Sorted
    merge_step n q top few h distinct next =
        let fronts = All-Perm (IsFront ends triples less) top.elements h in
        let front = fronts.0 in
        let e = top.top in
        let pushed =
          push_next-IsPushed (suc e.1) front.behind top.rest front.goes_on front.few front.sorted.1
            fronts.1 in
        let left : all_left ends triples (e ∷ top.rest) ≡ e.0 ∷ all_left ends triples pushed.q =
          rw (whole-IsFront ends triples less e front, pushed.left) refl in
        let moved : Perm (all_left ends triples q) (e.0 ∷ all_left ends triples pushed.q) =
          subst (Perm (all_left ends triples q)) left (all_left-Perm ends triples top.elements) in
        let rest =
          next pushed.q (omega (arith, length-Perm moved)) pushed.fronts
            (unfold Distinct in (Distinct-Perm less moved distinct).1) in
        let behind : All (Before less e.0) (all_left ends triples pushed.q) = rw pushed.left (
          All-append (Before less e.0) front.behind (all_left ends triples top.rest) front.sorted.0
            (Before-all_left e.0 top.rest fronts.1 top.least)) in
        record {
          out = e.0 ∷ rest.out;
          result = rw (merge_segments, top.result, pushed.result, rest.result) refl;
          elements = Perm.trans moved (Perm.cons refl rest.elements);
          sorted = (All-Perm (Before less e.0) rest.elements behind, rest.sorted);
        }

    pub merge_segments-IsMerged :
        (n : ℕ) (q : List Entry)
        → length (all_left ends triples q) ≤ n
        → AreFronts q
        → Distinct less (all_left ends triples q)
        → IsMerged (all_left ends triples q) (merge_segments lib n ends triples q)
    unfolding merge_segments all_left Sorted whole
    merge_segments-IsMerged zero [] few h distinct = record {
      out = [];
      result = rw (merge_segments, promised.pop_top-empty) refl;
      elements = Perm.nil;
      sorted = tt;
    }
    merge_segments-IsMerged (suc n) [] few h distinct = record {
      out = [];
      result = rw (merge_segments, promised.pop_top-empty) refl;
      elements = Perm.nil;
      sorted = tt;
    }
    merge_segments-IsMerged zero (e ∷ q) few h distinct = absurd (omega arith)
    merge_segments-IsMerged (suc n) (e ∷ q) few h distinct =
        merge_step n (e ∷ q) (promised.pop_top-IsTop e q (Distinct-heads (e ∷ q) distinct)) few h
          distinct (merge_segments-IsMerged n)
