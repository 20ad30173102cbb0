-- ===== src/ExternalSort/Merge/Invariant.antt =====
-- algorithms/triple_external_sort.hpp: the queue and the rows while `merge_pass` runs.
use rdfcache_k.Prelude.{
  length-set, ℕ, ◌<◌, ◌≡◌, ◌≢◌, ◌==◌, refl, arith, subst, List, [], ◌∷◌, Bool, Bool-cases, inl, inr,
  length, set, All, map,
}
use rdfcache_k.ExternalSort.Triples.{TripleValue}
use rdfcache_k.ExternalSort.Orders.{Among, Before, Sorted, All-mono}
use rdfcache_k.ExternalSort.Library.{Entry}
use rdfcache_k.ExternalSort.Merge.{push}
use rdfcache_k.ExternalSort.Merge.Source.{head_of, tail_of}
use rdfcache_k.ExternalSort.Merge.Rows.{row, row-set_self, row-set_ne, All-row, All-set}

-- The rows after the first of one is taken.
unfoldable pub taken : List (List TripleValue) → ℕ → List (List TripleValue)
taken rows i = set rows i (tail_of (row rows i))

abbrev pub triples_of : List Entry → List TripleValue
triples_of q = map (λ (e : Entry). e.0) q

module _ (less : TripleValue → TripleValue → Bool) where
  -- The triple stands in front of those of its row.
  abbrev pub IsAhead : List (List TripleValue) → Entry → Type 0
  IsAhead rows e = (e.1 < length rows) × All (Before less e.0) (row rows e.1)

  -- A row that is not empty has an entry in the queue.
  abbrev pub IsLive : List (List TripleValue) → List Entry → ℕ → Type 0
  IsLive rows q j = row rows j ≢ [] → (t : TripleValue) × Among (t, j) q

  pub record IsMerging (rows : List (List TripleValue)) (q : List Entry) : Type 0 where
    pub sorted : All (Sorted less) rows
    pub ahead : All (IsAhead rows) q

  tail-Sorted : (ts : List TripleValue) → Sorted less ts → Sorted less (tail_of ts)
  unfolding tail_of Sorted
  tail-Sorted [] h = tt
  tail-Sorted (t ∷ ts) h = h.1

  tail-All : (P : TripleValue → Type 0) (ts : List TripleValue) → All P ts → All P (tail_of ts)
  unfolding tail_of
  tail-All P [] h = tt
  tail-All P (t ∷ ts) h = h.1

  pub length-taken : (rows : List (List TripleValue)) (i : ℕ) → length (taken rows i) ≡ length rows
  unfolding taken
  length-taken rows i = length-set rows i (tail_of (row rows i))

  IsAhead-taken :
      (rows : List (List TripleValue)) (i : ℕ) (e : Entry)
      → IsAhead rows e
      → IsAhead (taken rows i) e
  unfolding taken
  IsAhead-taken rows i e h = (
    omega (arith, h.0, length-set rows i (tail_of (row rows i))),
    elim (Bool-cases (e.1 == i)) [
      | inl t ↦
          (let same : e.1 ≡ i = ground arith in
            let place : i < length rows = omega (arith, h.0, same) in
            rw (same, row-set_self rows i (tail_of (row rows i)) place)
              (tail-All (Before less e.0) (row rows i)
                (subst (λ j. All (Before less e.0) (row rows j)) same h.1)))
      | inr f ↦ rw (row-set_ne rows i e.1 (tail_of (row rows i)) (λ t. ground arith)) h.1
    ],
  )

  All-IsAhead-taken :
      (rows : List (List TripleValue)) (i : ℕ) (q : List Entry)
      → All (IsAhead rows) q
      → All (IsAhead (taken rows i)) q
  All-IsAhead-taken rows i q h =
      All-mono (IsAhead rows) (IsAhead (taken rows i)) q (λ e k. IsAhead-taken rows i e k) h

  -- The first of a row goes to the queue.
  pushed-IsAhead :
      (rows : List (List TripleValue)) (i : ℕ) (q : List Entry) (r : List TripleValue)
      → row rows i ≡ r
      → i < length rows
      → Sorted less r
      → All (IsAhead (taken rows i)) q
      → All (IsAhead (taken rows i)) (push (head_of r) i q)
  unfolding push head_of
  pushed-IsAhead rows i q [] e place h k = k
  pushed-IsAhead rows i q (t ∷ ts) e place h k = (
    (
      omega (arith, length-taken rows i),
      unfold taken in
          unfold Sorted in
          rw (row-set_self rows i (tail_of (row rows i)) place, e) (unfold tail_of in h.0),
    ),
    k,
  )

  pub IsMerging-taken :
      (rows : List (List TripleValue)) (q : List Entry) (i : ℕ)
      → i < length rows
      → IsMerging rows q
      → IsMerging (taken rows i) (push (head_of (row rows i)) i q)
  IsMerging-taken rows q i place h =
      let here : Sorted less (row rows i) =
        All-row (Sorted less) rows i (unfold Sorted in tt) h.sorted in
      record {
        sorted =
            unfold taken in
            All-set (Sorted less) rows i (tail_of (row rows i)) (tail-Sorted (row rows i) here)
              h.sorted;
        ahead =
            pushed-IsAhead rows i q (row rows i) refl place here
              (All-IsAhead-taken rows i q h.ahead);
      }
