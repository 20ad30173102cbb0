-- ===== src/Replacement/Frequency/Order.antt =====
-- core/replacement/FrequencyReplacementStrategy.cpp: what the cache relies on.
use rdfcache_k.Prelude.{
  ap, Bool-cases, ◌==◌, assign, add64, inl, find-assign_ne, leb, inr, if_both, find_value, ◌≢◌, ◌∙◌,
  ◌≡◌, Option-cases, refl, [], ◌∷◌, none, true, arith, ℕ, List, Bool,
}
use rdfcache_k.Replacement.Strategy.{Cost, cost_lt}
use rdfcache_k.Replacement.Frequency.{
  hit_key, cost_function, frequency_strategy, get_key_size, size_found, enough_cheaper,
  should_discard_others_for_key,
}
use rdfcache_k.Replacement.Cache.{precedes, size_of, size_or_zero}
use rdfcache_k.Replacement.Cache.Accounting.{size-assign_self, size-assign_ne, SameSizes}
use rdfcache_k.Replacement.Cache.Ordered.{StrategyLaws}
use rdfcache_k.Replacement.Cache.Capacity.{KeepsSizes}

missing-size : (m : List (ℕ × ℕ)) (k : ℕ) → find_value m k ≡ none → size_of m k ≡ 0
unfolding size_of size_or_zero
missing-size m k e = rw e refl

assign_zero-SameSizes :
    (m : List (ℕ × ℕ)) (k : ℕ) → find_value m k ≡ none → SameSizes (assign m k 0) m
assign_zero-SameSizes m k e j = elim (Bool-cases (j == k)) [
  | inl same ↦ ground (
    arith,
    size-assign_self m k 0,
    missing-size m k e,
    ap (size_of m) {x = j} {y = k},
    ap (size_of (assign m k 0)) {x = j} {y = k},
  )
  | inr other ↦ size-assign_ne m k j 0 (λ h. ground arith)
]

-- A missing size reads as zero, and asking for it writes zero.
get_key_size-SameSizes : (m : List (ℕ × ℕ)) (k : ℕ) → SameSizes (get_key_size m k).1 m
unfolding get_key_size size_found
get_key_size-SameSizes m k j = elim (Option-cases (find_value m k)) [
  | inr (v, e) ↦ rw e refl
  | inl e ↦ rw e (assign_zero-SameSizes m k e j)
]

enough_cheaper-SameSizes :
    (f : List (ℕ × ℕ)) (required : ℕ) (c : Cost) (n : ℕ) (pq : List ℕ) (m : List (ℕ × ℕ))
    → SameSizes (enough_cheaper f required c n pq m).1 m
unfolding enough_cheaper
enough_cheaper-SameSizes f required c n [] m j = refl
enough_cheaper-SameSizes f required c n (k ∷ pq) m j =
    let got = get_key_size m k in
    let here = get_key_size-SameSizes m k j in
    let P : Bool × List (ℕ × ℕ) → Type 0 = λ r. size_of r.1 j ≡ size_of m j in
    if_both P (cost_lt c (cost_function f k)) _ _ (λ cheaper. here)
      (λ dearer.
        if_both P (leb required (add64 n got.0)) _ _ (λ enough. here)
          (λ more. enough_cheaper-SameSizes f required c (add64 n got.0) pq got.1 j ∙ here))

pub frequency-KeepsSizes : KeepsSizes frequency_strategy
unfolding should_discard_others_for_key
frequency-KeepsSizes s key [] m j = refl
frequency-KeepsSizes s key (k ∷ pq) m j =
    let got = get_key_size m key in
    enough_cheaper-SameSizes s got.0 (cost_function s key) 0 (k ∷ pq) got.1 j
    ∙ get_key_size-SameSizes m key j

find-hit_key : (s : List (ℕ × ℕ)) (k j : ℕ) → j ≢ k → find_value (hit_key s k) j ≡ find_value s j
unfolding hit_key
find-hit_key s k j h = find-assign_ne s k j _ h

pub frequency_laws : StrategyLaws frequency_strategy
frequency_laws = record {
  tracked = λ s k. true;
  hit_tracks = λ s k. refl;
  hit_keeps = λ s k j h t. refl;
  remove_keeps = λ s k j h t. refl;
  hit_order = λ s k i j h h' t t'.
      unfold precedes cost_function in rw (find-hit_key s k i h, find-hit_key s k j h') refl;
  remove_order = λ s k i j h h' t t'. refl;
}
