-- ===== src/ExternalSort/Parallel/Parts.antt =====
-- algorithms/triple_external_sort.hpp: the parts of its data that `parallel_sort` sorts.
use rdfcache_k.Prelude.{
  drop-drop, take_append-drop, length-drop, subst, ℕ, zero, suc, ◌+◌, ◌-◌, ◌≤◌, ◌≡◌, refl, sym,
  arith, ap, ◌∙◌, List, [], ◌∷◌, ◌++◌, append_assoc, length, take, drop, take-append, drop-append,
  map, All, Bool,
}
use mathlib.Core.List.{Permᴰ as Perm}
use mathlib.Core.List.Permᴰ as Perm
use rdfcache_k.ExternalSort.Triples.{TripleValue}
use rdfcache_k.ExternalSort.Orders.{concat, Sorted, length-Perm}
use rdfcache_k.ExternalSort.Library.{SortLibrary, IsSortLibrary}
use rdfcache_k.ExternalSort.Parallel.{sort_range}
use rdfcache_k.ExternalSort.Parallel.Bounds.{AscendsTo}

-- The parts between the places.
unfoldable pub cut : ℕ → List ℕ → List TripleValue → List (List TripleValue)
cut a [] ts = []
cut a (b ∷ bs) ts = take (b - a) ts ∷ cut b bs (drop (b - a) ts)

-- The segments have the sizes that the places say.
unfoldable pub AreCut : ℕ → List ℕ → List (List TripleValue) → Type 0
AreCut a [] segments = segments ≡ []
AreCut a (b ∷ bs) [] = ⊥
AreCut a (b ∷ bs) (s ∷ segments) = (a + length s ≡ b) × AreCut b bs segments

pub empty_if : (ts : List TripleValue) → length ts ≡ 0 → ts ≡ []
empty_if [] h = refl
empty_if (t ∷ ts) h = absurd (omega arith)

length-take : (n : ℕ) (ts : List TripleValue) → n ≤ length ts → length (take n ts) ≡ n
length-take zero ts h = refl
length-take (suc n) [] h = absurd (omega arith)
length-take (suc n) (t ∷ ts) h = ap suc (length-take n ts (omega arith))

AscendsTo-le : (a n : ℕ) (bs : List ℕ) → AscendsTo a n bs → a ≤ n
unfolding AscendsTo
AscendsTo-le a n [] h = omega arith
AscendsTo-le a n (b ∷ bs) h = omega (arith, h.0, AscendsTo-le b n bs h.1)

pub concat-cut :
    (a n : ℕ) (bs : List ℕ) (ts : List TripleValue)
    → AscendsTo a n bs
    → n ≡ a + length ts
    → concat (cut a bs ts) ≡ ts
unfolding AscendsTo cut concat
concat-cut a n [] ts h e = sym (empty_if ts (omega arith))
concat-cut a n (b ∷ bs) ts (up, h) e =
    let top = AscendsTo-le b n bs h in
    ap (◌++◌ (take (b - a) ts))
      (concat-cut b n bs (drop (b - a) ts) h (omega (arith, length-drop (b - a) ts)))
    ∙ take_append-drop (b - a) ts

pub cut-AreCut :
    (a n : ℕ) (bs : List ℕ) (ts : List TripleValue)
    → AscendsTo a n bs
    → n ≡ a + length ts
    → AreCut a bs (cut a bs ts)
unfolding AscendsTo cut AreCut
cut-AreCut a n [] ts h e = refl
cut-AreCut a n (b ∷ bs) ts (up, h) e =
    let top = AscendsTo-le b n bs h in
    (
      omega (arith, length-take (b - a) ts (omega arith)),
      cut-AreCut b n bs (drop (b - a) ts) h (omega (arith, length-drop (b - a) ts)),
    )

module _ (less : TripleValue → TripleValue → Bool) (lib : SortLibrary)
    (promised : IsSortLibrary less lib) where
  pub sort_range-part :
      (pre ts : List TripleValue) (a b : ℕ)
      → a ≤ b
      → length pre ≡ a
      → sort_range lib a b (pre ++ ts) ≡ (pre ++ lib.sort (take (b - a) ts)) ++ drop (b - a) ts
  unfolding sort_range
  sort_range-part pre ts a b h e =
      let far : b ≡ a + (b - a) = omega arith in
      let behind : drop b (pre ++ ts) ≡ drop (b - a) ts =
        ap (λ k. drop k (pre ++ ts)) far
        ∙ sym (drop-drop a (b - a) (pre ++ ts))
        ∙ ap (drop (b - a)) (drop-append pre ts a (sym e)) in
      rw (take-append pre ts a (sym e), drop-append pre ts a (sym e), behind)
        (sym (append_assoc pre (lib.sort (take (b - a) ts)) (drop (b - a) ts)))

  -- What the sorted parts are.
  pub sorted-AreCut :
      (a n : ℕ) (bs : List ℕ) (ts : List TripleValue)
      → AscendsTo a n bs
      → n ≡ a + length ts
      → AreCut a bs (map lib.sort (cut a bs ts))
  unfolding AscendsTo cut AreCut
  sorted-AreCut a n [] ts h e = refl
  sorted-AreCut a n (b ∷ bs) ts (up, h) e =
      let top = AscendsTo-le b n bs h in
      let part = take (b - a) ts in
      let size : length part ≡ b - a = length-take (b - a) ts (omega arith) in
      (
        omega (arith, length-Perm (promised.sort-Perm part), size),
        sorted-AreCut b n bs (drop (b - a) ts) h (omega (arith, length-drop (b - a) ts)),
      )

  pub sort-AreSorted :
      (segments : List (List TripleValue)) → All (Sorted less) (map lib.sort segments)
  sort-AreSorted [] = tt
  sort-AreSorted (s ∷ segments) = (promised.sort-Sorted s, sort-AreSorted segments)

  sorted-Perm :
      (segments : List (List TripleValue)) → Perm (concat segments) (concat (map lib.sort segments))
  unfolding concat
  sorted-Perm [] = Perm.nil
  sorted-Perm (s ∷ segments) =
      Perm.trans (Perm.append_right (concat segments) (promised.sort-Perm s))
        (Perm.append_left (lib.sort s) (sorted-Perm segments))

  pub sorted_parts-Perm :
      (a n : ℕ) (bs : List ℕ) (ts : List TripleValue)
      → AscendsTo a n bs
      → n ≡ a + length ts
      → Perm ts (concat (map lib.sort (cut a bs ts)))
  sorted_parts-Perm a n bs ts h e =
      subst (λ v. Perm v (concat (map lib.sort (cut a bs ts)))) (concat-cut a n bs ts h e)
        (sorted-Perm (cut a bs ts))
