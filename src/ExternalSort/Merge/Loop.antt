-- ===== src/ExternalSort/Merge/Loop.antt =====
-- algorithms/triple_external_sort.hpp: the loop of `merge_pass`.
use rdfcache_k.Stream.{OStream}
use rdfcache_k.Prelude.{
  ℕ, suc, ◌<◌, ◌≡◌, ◌≢◌, ◌==◌, refl, sym, arith, ap, ◌∙◌, subst, List, [], ◌∷◌, ◌++◌, Option, none,
  some, Bool, Bool-cases, inl, inr, length, get_elem?_total, set, All, All-append, Result, ok,
}
use mathlib.Core.List.{cons≢nil, Permᴰ as Perm}
use mathlib.Core.List.Permᴰ as Perm
use rdfcache_k.Stream.Laws.{at_end}
use rdfcache_k.ExternalSort.Triples.{TripleValue}
use rdfcache_k.ExternalSort.Triples.Bytes.{triples_bytes}
use rdfcache_k.ExternalSort.Orders.{
  Among-tail, Among, All-Among, All-Perm, Among-Perm, map-Perm, concat, Before, Sorted, All-mono,
}
use rdfcache_k.ExternalSort.Library.{Entry, SortLibrary, IsSortLibrary}
use rdfcache_k.ExternalSort.Merge.{MergeSource, push, block_update}
use rdfcache_k.ExternalSort.Merge.Source.{head_of, tail_of, next_from-IsTaken}
use rdfcache_k.ExternalSort.Merge.Rows.{
  row, AllHold, Holds-row, AllHold-set, AllHold-length, row-set_self, row-set_ne, All-rows,
  concat-taken, set_empty_row,
}
use rdfcache_k.ExternalSort.Merge.Invariant.{taken, triples_of, IsAhead, IsLive, IsMerging}

-- What `block_update` makes of the sources.
pub record IsUpdated (rows : List (List TripleValue)) (i : ℕ) (q : List Entry)
    (r : Result (List MergeSource × List Entry)) : Type 0 where
  pub sources : List MergeSource
  pub result : r ≡ ok (sources, push (head_of (row rows i)) i q)
  pub hold : AllHold sources (taken rows i)

pub block_update-IsUpdated :
    (sources : List MergeSource) (rows : List (List TripleValue)) (i block_size : ℕ)
    (q : List Entry)
    → 0 < block_size
    → AllHold sources rows
    → i < length rows
    → IsUpdated rows i q (block_update block_size i sources q)
unfolding block_update taken
block_update-IsUpdated sources rows i block_size q some_room h place =
    let (s, found) = get_elem?_total sources i (omega (arith, AllHold-length sources rows h)) in
    let next =
      next_from-IsTaken s (row rows i) s.block s.opened_file block_size some_room refl refl
        (Holds-row sources rows i s h found) in
    record {
      sources = set sources i next.source;
      result = rw (found, next.result) refl;
      hold = AllHold-set sources rows i next.source (tail_of (row rows i)) h next.holds;
    }

push-Among :
    (e : Entry) (o : Option TripleValue) (i : ℕ) (q : List Entry) → Among e q → Among e (push o i q)
unfolding push Among
push-Among e none i q m = m
push-Among e (some t) i q m = inr m

head-Among :
    (r : List TripleValue) (i : ℕ) (q : List Entry)
    → tail_of r ≢ []
    → (t : TripleValue) × Among (t, i) (push (head_of r) i q)
unfolding push Among head_of tail_of
head-Among [] i q ne = absurd (ne refl)
head-Among (t ∷ ts) i q ne = (t, inl refl)

-- What is to be written: the triples of the queue and of the rows.
abbrev pub pending : List (List TripleValue) → List Entry → List TripleValue
pending rows q = triples_of q ++ concat rows

pending_of-row :
    (rows : List (List TripleValue)) (q : List Entry) (i : ℕ) (r : List TripleValue)
    → row rows i ≡ r
    → Perm (pending rows q) (pending (set rows i (tail_of r)) (push (head_of r) i q))
unfolding push head_of tail_of
pending_of-row rows q i [] e = rw (set_empty_row rows i e) (Perm.refl _)
pending_of-row rows q i (t ∷ ts) e =
    Perm.trans (Perm.append_left (triples_of q) (concat-taken rows i t ts e))
      (Perm.middle t (triples_of q) (concat (set rows i ts)))

pub pending-taken :
    (rows : List (List TripleValue)) (q : List Entry) (i : ℕ)
    → Perm (pending rows q) (pending (taken rows i) (push (head_of (row rows i)) i q))
unfolding taken
pending-taken rows q i = pending_of-row rows q i (row rows i) refl

pub empty_row : (r : List TripleValue) → (r ≢ [] → ⊥) → r ≡ []
empty_row [] h = refl
empty_row (t ∷ ts) h = absurd (h cons≢nil)

pub no_rows : (rows : List (List TripleValue)) → ((i : ℕ) → row rows i ≡ []) → concat rows ≡ []
unfolding concat
no_rows [] h = refl
no_rows (r ∷ rows) h = rw (h 0, no_rows rows (λ i. h (suc i))) refl

module _ (less : TripleValue → TripleValue → Bool) where
  pub IsLive-taken :
      (rows : List (List TripleValue)) (q : List Entry) (i j : ℕ)
      → i < length rows
      → (j ≢ i → IsLive less rows q j)
      → IsLive less (taken rows i) (push (head_of (row rows i)) i q) j
  unfolding taken
  IsLive-taken rows q i j place h = elim (Bool-cases (j == i)) [
    | inl t ↦
        (let same : j ≡ i = ground arith in
          rw (same, row-set_self rows i (tail_of (row rows i)) place) (head-Among (row rows i) i q))
    | inr f ↦
        (let other : j ≢ i = λ e. ground arith in
          rw (row-set_ne rows i j (tail_of (row rows i)) other)
            (λ ne. let (t, m) = h other ne in (t, push-Among (t, j) (head_of (row rows i)) i q m)))
  ]

  -- What the loop writes.
  pub record IsMerged (c : List ℕ) (ts : List TripleValue) (r : Result OStream) : Type 0 where
    pub out : List TripleValue
    pub result : r ≡ ok (at_end (c ++ triples_bytes out))
    pub elements : Perm ts out
    pub sorted : Sorted less out

  module _ (lib : SortLibrary) (promised : IsSortLibrary less lib) where
    row_behind :
        (t : TripleValue) (q : List Entry) (rows : List (List TripleValue)) (j : ℕ)
        (r : List TripleValue)
        → row rows j ≡ r
        → All (λ (e : Entry). Before less t e.0 × IsAhead less rows e) q
        → IsLive less rows q j
        → All (Before less t) r
    row_behind t q rows j [] e h live = tt
    row_behind t q rows j (x ∷ xs) e h live =
        let (u, m) = live (λ n. cons≢nil (sym e ∙ n)) in
        let (first, ahead) =
          All-Among (λ (e' : Entry). Before less t e'.0 × IsAhead less rows e') q (u, j) h m in
        All-mono (Before less u) (Before less t) (x ∷ xs) (λ a k. promised.trans t u a first k)
          (subst (All (Before less u)) e ahead.1)

    -- The queue with what is known of its top.
    module _ (rows : List (List TripleValue)) (q : List Entry) (top : Entry) (rest : List Entry)
        (elements : Perm q (top ∷ rest)) (least : All (λ (e : Entry). Before less top.0 e.0) rest)
        (merging : IsMerging less rows q) (live : (j : ℕ) → IsLive less rows q j) where
      both :
          (es : List Entry)
          → All (λ (e : Entry). Before less top.0 e.0) es
          → All (IsAhead less rows) es
          → All (λ (e : Entry). Before less top.0 e.0 × IsAhead less rows e) es
      both [] h k = tt
      both (e ∷ es) h k = ((h.0, k.0), both es h.1 k.1)

      queue-IsAhead : All (IsAhead less rows) (top ∷ rest)
      queue-IsAhead = All-Perm (IsAhead less rows) elements merging.ahead

      pub top-place : top.1 < length rows
      top-place = queue-IsAhead.0.0

      pub rest-IsMerging : IsMerging less rows rest
      rest-IsMerging = record { sorted = merging.sorted; ahead = queue-IsAhead.1 }

      triples_least :
          (es : List Entry)
          → All (λ (e : Entry). Before less top.0 e.0) es
          → All (Before less top.0) (triples_of es)
      triples_least [] h = tt
      triples_least (e ∷ es) h = (h.0, triples_least es h.1)

      pub pending_least : All (Before less top.0) (pending rows rest)
      pending_least =
          All-append (Before less top.0) (triples_of rest) (concat rows) (triples_least rest least)
            (All-rows (Before less top.0) rows (λ j place.
              row_behind top.0 (top ∷ rest) rows j (row rows j) refl
                (both (top ∷ rest) (promised.irrefl top.0, least) queue-IsAhead)
                (λ ne. let (t, m) = live j ne in (t, Among-Perm (t, j) elements m))))

      pub rest-IsLive : (j : ℕ) → j ≢ top.1 → IsLive less rows rest j
      rest-IsLive j other ne =
          let (t, m) = live j ne in
          (
            t,
            Among-tail (t, j) top rest (λ e. other (ap (λ (x : Entry). x.1) e))
                (Among-Perm (t, j) elements m),
          )

      pub pending_popped : Perm (pending rows q) (top.0 ∷ pending rows rest)
      pending_popped = Perm.append_right (concat rows) (map-Perm (λ (e : Entry). e.0) elements)
