-- ===== src/ExternalSort/Parallel/Bounds.antt =====
-- algorithms/triple_external_sort.hpp: the places at which `parallel_sort` cuts its data.
use rdfcache_k.Prelude.{
  inl, inr, ◌⊎◌, subst, ℕ, zero, suc, ◌+◌, ◌-◌, ◌<◌, ◌≤◌, ◌≡◌, refl, arith, List, [], ◌∷◌, ◌++◌,
  true, false, leb, if_both, length, add64,
}
use rdfcache_k.ExternalSort.Triples.{TripleValue}
use rdfcache_k.ExternalSort.Parallel.{segment_starts, segment_ends, is_end}

-- The places go up from `a`, and the last one is `n`.
unfoldable pub AscendsTo : ℕ → ℕ → List ℕ → Type 0
AscendsTo a n [] = a ≡ n
AscendsTo a n (b ∷ bs) = (a < b) × AscendsTo b n bs

segment_starts-AscendsTo :
    (n i acc_size segment_size a : ℕ)
    → a < i
    → AscendsTo a (i + n) (segment_starts n i acc_size segment_size ++ (i + n) ∷ [])
unfolding segment_starts AscendsTo
segment_starts-AscendsTo zero i acc_size segment_size a h = (omega arith, refl)
segment_starts-AscendsTo (suc n) i acc_size segment_size a h =
    let moved : suc i + n ≡ i + suc n = omega arith in
    let cut =
      subst (λ m. AscendsTo i m (segment_starts n (suc i) 0 segment_size ++ m ∷ [])) moved
        (segment_starts-AscendsTo n (suc i) 0 segment_size i (omega arith)) in
    let uncut =
      subst
        (λ m. AscendsTo a m (segment_starts n (suc i) (add64 acc_size 24) segment_size ++ m ∷ []))
        moved
        (segment_starts-AscendsTo n (suc i) (add64 acc_size 24) segment_size a (omega arith)) in
    if_both (λ starts. AscendsTo a (i + suc n) (starts ++ (i + suc n) ∷ []))
      (leb segment_size (add64 acc_size 24)) _ _ (λ t. (h, cut)) (λ f. uncut)

pub segment_ends-AscendsTo :
    (triples : List TripleValue) (segment_size : ℕ)
    → 0 < length triples
    → AscendsTo 0 (length triples) (segment_ends triples segment_size)
unfolding segment_ends
segment_ends-AscendsTo triples segment_size h =
    let whole : 1 + (length triples - 1) ≡ length triples = omega arith in
    subst (λ m. AscendsTo 0 m (segment_starts (length triples - 1) 1 24 segment_size ++ m ∷ []))
      whole (segment_starts-AscendsTo (length triples - 1) 1 24 segment_size 0 (omega arith))

length-AscendsTo : (a n : ℕ) (bs : List ℕ) → AscendsTo a n bs → a + length bs ≤ n
unfolding AscendsTo
length-AscendsTo a n [] h = omega arith
length-AscendsTo a n (b ∷ bs) h = omega (arith, h.0, length-AscendsTo b n bs h.1)

pub segment_ends-nil : (segment_size : ℕ) → length (segment_ends [] segment_size) ≡ 1
unfolding segment_ends segment_starts
segment_ends-nil segment_size = refl

-- There are no more segments than triples, but one at least.
pub segment_ends_below :
    (triples : List TripleValue) (segment_size : ℕ)
    → (length (segment_ends triples segment_size) ≤ length triples)
      ⊎ (length (segment_ends triples segment_size) ≡ 1)
segment_ends_below [] segment_size = inr (segment_ends-nil segment_size)
segment_ends_below (t ∷ ts) segment_size = inl (
    omega (
      arith,
      length-AscendsTo 0 (length (t ∷ ts)) (segment_ends (t ∷ ts) segment_size)
          (segment_ends-AscendsTo (t ∷ ts) segment_size (omega arith)),
    ))

-- No place up to `a` is an end, if the ends go up from there.
below-is_end : (a n j : ℕ) (bs : List ℕ) → AscendsTo a n bs → j ≤ a → is_end bs j ≡ false
unfolding AscendsTo is_end
below-is_end a n j [] h k = refl
below-is_end a n j (b ∷ bs) h k =
    ground (arith, h.0, below-is_end b n j bs h.1 (omega (arith, h.0)))

-- From `a` on, the ends that are left are the next places that `all` has.
unfoldable pub Marks : List ℕ → ℕ → List ℕ → Type 0
Marks all a [] = Unit {0}
Marks all a (b ∷ bs) =
    (a < b)
    × ((j : ℕ) → a < j → j < b → is_end all j ≡ false)
    × (is_end all b ≡ true)
    × Marks all b bs

Marks-cons : (x a : ℕ) (all bs : List ℕ) → x ≤ a → Marks all a bs → Marks (x ∷ all) a bs
unfolding Marks is_end
Marks-cons x a all [] h m = tt
Marks-cons x a all (b ∷ bs) h (up, none, here, rest) = (
  up,
  (λ j g k. rw (none j g k) (ground arith)),
  rw here (ground arith),
  Marks-cons x b all bs (omega arith) rest,
)

pub AscendsTo-Marks : (a n : ℕ) (bs : List ℕ) → AscendsTo a n bs → Marks bs a bs
unfolding AscendsTo Marks is_end
AscendsTo-Marks a n [] h = tt
AscendsTo-Marks a n (b ∷ bs) (up, h) = (
  up,
  (λ j g k. rw (below-is_end b n j bs h (omega arith)) (ground arith)),
  ground arith,
  Marks-cons b b bs bs (omega arith) (AscendsTo-Marks b n bs h),
)
