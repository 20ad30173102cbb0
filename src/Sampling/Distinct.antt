-- ===== src/Sampling/Distinct.antt =====
-- core/util_algorithms/fisher_yates.cpp: the state as a permutation of the indices.
use rdfcache_k.Prelude.{
  IsU64, lt→ltb, ◌-◌, ◌%◌, add64, ap, subst, get_elem?, length, ◌+◌, ◌⊎◌, ◌∙◌, inr, inl, Bool-cases,
  ◌==◌, ◌≤◌, if◌then◌else◌, find-assign_ne, find-assign_self, ◌<◌, ◌≡◌, ℕ, suc, zero, [], some,
  List, ok, arith, refl, find_value, assign,
}
use native.Mathlib.Nat.{mod-lt}
use rdfcache_k.Sampling.{value_or, exchange, rounds, collect, fisher_yates}

-- The number that stands at an index.
unfoldable at_index : List (ℕ × ℕ) → ℕ → ℕ
at_index state j = value_or (find_value state j) j

at-assign :
    (m : List (ℕ × ℕ)) (k v j : ℕ)
    → at_index (assign m k v) j ≡ (if j == k then v else at_index m j)
unfolding at_index value_or
at-assign m k v j = elim (Bool-cases (j == k)) [
  | inl e ↦ (let same : j ≡ k = ground arith in rw e (rw (same, find-assign_self m k v) refl))
  | inr e ↦ rw (e, find-assign_ne m k j v (λ t. ground arith)) refl
]

exchange-at_index :
    (m : List (ℕ × ℕ)) (i r : ℕ)
    → exchange m i r ≡ assign (assign m i (at_index m r)) r (at_index m i)
unfolding exchange at_index
exchange-at_index m i r = refl

-- An exchange swaps two indices.
at-exchange :
    (m : List (ℕ × ℕ)) (i r j : ℕ)
    → at_index (exchange m i r) j
      ≡ (if j == r then at_index m i else (if j == i then at_index m r else at_index m j))
at-exchange m i r j =
    rw
      (
        exchange-at_index m i r,
        at-assign (assign m i (at_index m r)) r (at_index m i) j,
        at-assign m i (at_index m r) j,
      )
      refl

-- An index has an entry.
abbrev HasEntry : List (ℕ × ℕ) → ℕ → Type 0
HasEntry m a = (v : ℕ) × (find_value m a ≡ some v)

HasEntry-assign :
    (m : List (ℕ × ℕ)) (k v a : ℕ) → (a ≡ k) ⊎ HasEntry m a → HasEntry (assign m k v) a
HasEntry-assign m k v a (inl e) = (v, rw e (find-assign_self m k v))
HasEntry-assign m k v a (inr (w, e)) = elim (Bool-cases (a == k)) [
  | inl t ↦ (v, let same : a ≡ k = ground arith in rw same (find-assign_self m k v))
  | inr t ↦ (w, find-assign_ne m k a v (λ t'. ground arith) ∙ e)
]

-- What a state of the first loop is: the indices are permuted within the choice set, and those of
-- the rounds done have an entry.
record IsPermuted (size done : ℕ) (m : List (ℕ × ℕ)) : Type 0 where
  injective : (a b : ℕ) → at_index m a ≡ at_index m b → a ≡ b
  bounded : (a : ℕ) → a < size → at_index m a < size
  present : (a : ℕ) → a < done → HasEntry m a

exchange-IsPermuted :
    (size i r : ℕ) (m : List (ℕ × ℕ))
    → i < size
    → r < size
    → i ≤ r
    → IsPermuted size i m
    → IsPermuted size (suc i) (exchange m i r)
exchange-IsPermuted size i r m hi hr le h = record {
  injective = λ a b e. ground (
    arith,
    e,
    at-exchange m i r a,
    at-exchange m i r b,
    h.injective a b,
    h.injective i r,
    h.injective a i,
    h.injective a r,
    h.injective i b,
    h.injective r b,
  );
  bounded = λ a l. ground (arith, at-exchange m i r a, h.bounded a, h.bounded i hi, h.bounded r hr);
  present = λ a l. rw (exchange-at_index m i r) (
      HasEntry-assign (assign m i (at_index m r)) r (at_index m i) a (
        inr (
          HasEntry-assign m i (at_index m r) a (elim (Bool-cases (a == i)) [
            | inl e ↦ inl (ground arith)
            | inr e ↦ inr (h.present a (ground arith))
          ]))));
}

initial-IsPermuted : (size : ℕ) → IsPermuted size 0 []
unfolding at_index value_or find_value
initial-IsPermuted size = record {
  injective = λ a b e. e;
  bounded = λ a l. l;
  present = λ a l. absurd (omega arith);
}

rounds-IsPermuted :
    (rand : ℕ → ℕ) (size n i : ℕ) (m : List (ℕ × ℕ))
    → i + n ≤ size
    → IsPermuted size i m
    → (m' : List (ℕ × ℕ)) × (rounds rand size n i m ≡ ok m') × IsPermuted size (i + n) m'
unfolding rounds
rounds-IsPermuted rand size zero i m l h =
    (m, refl, subst (λ d. IsPermuted size d m) {y = i + 0} (omega arith) h)
rounds-IsPermuted rand size (suc n) i m l h =
    let drawn = rand i % (size - i) + i in
    let below : drawn < size = omega (arith, mod-lt (rand i) {m = size - i} (omega arith)) in
    let (m', done, h') =
      rounds-IsPermuted rand size n (suc i) (exchange m i drawn) (omega arith)
        (exchange-IsPermuted size i drawn m (omega arith) below (omega arith) h) in
    (
      m',
      rw (lt→ltb i size (omega arith)) done,
      subst (λ d. IsPermuted size d m') {y = i + suc n} (omega arith) h',
    )

length-collect : (m : List (ℕ × ℕ)) (n i : ℕ) → length (collect m n i) ≡ n
unfolding collect
length-collect m zero i = refl
length-collect m (suc n) i = ap suc (length-collect m n (suc i))

get_elem?-collect :
    (m : List (ℕ × ℕ)) (n i j a : ℕ)
    → get_elem? (collect m n i) j ≡ some a
    → (j < n) × (a ≡ add64 (value_or (find_value m (i + j)) 0) 1)
unfolding collect
get_elem?-collect m zero i j a e = absurd (ground arith)
get_elem?-collect m (suc n) i zero a e =
    let here = ap (λ k. value_or (find_value m k) 0) {x = i + 0} {y = i} (omega arith) in
    ground (arith, e, here)
get_elem?-collect m (suc n) i (suc j) a e =
    let (l, same) = get_elem?-collect m n (suc i) j a e in
    let here =
      ap (λ k. value_or (find_value m k) 0) {x = suc i + j} {y = i + suc j} (omega arith) in
    (omega (arith, l), ground (arith, same, here))

-- A number in the sample is one more than what stands at its place.
drawn_at :
    (size n : ℕ) (m : List (ℕ × ℕ)) (i a : ℕ)
    → n ≤ size
    → IsU64 size
    → IsPermuted size n m
    → get_elem? (collect m n 0) i ≡ some a
    → (at_index m i < size) × (a ≡ at_index m i + 1)
unfolding at_index value_or
drawn_at size n m i a l fits h e =
    let (inside, same) = get_elem?-collect m n 0 i a e in
    let (v, entry) = h.present i inside in
    let here : value_or (find_value m i) 0 ≡ v = rw entry refl in
    let there : at_index m i ≡ v = rw entry refl in
    let below = h.bounded i (omega (arith, inside, l)) in
    (below, ground (arith, same, here, there, below, fits))

-- A sample of these numbers: so many, each from 1 to the size of the choice set, none twice.
pub record IsSample (result_size choice_set_size : ℕ) (result : List ℕ) : Type 0 where
  pub size : length result ≡ result_size
  pub in_range : (i a : ℕ) → get_elem? result i ≡ some a → (1 ≤ a) × (a ≤ choice_set_size)
  pub distinct : (i j a : ℕ) → get_elem? result i ≡ some a → get_elem? result j ≡ some a → i ≡ j

-- Whatever numbers `std::rand` returns, if the sample is no larger than the choice set, whose size
-- is a word, `fisher_yates` returns as many numbers as asked for, from 1 to the size of the choice
-- set, none of them twice.
pub fisher_yates-IsSample :
    (rand : ℕ → ℕ) (result_size choice_set_size : ℕ)
    → result_size ≤ choice_set_size
    → IsU64 choice_set_size
    → (result : List ℕ) × (fisher_yates rand result_size choice_set_size ≡ ok result)
      × IsSample result_size choice_set_size result
unfolding fisher_yates
fisher_yates-IsSample rand n size l fits =
    let (m, done, permuted) =
      rounds-IsPermuted rand size n 0 [] (omega arith) (initial-IsPermuted size) in
    let h = subst (λ d. IsPermuted size d m) {x = 0 + n} {y = n} (omega arith) permuted in
    let at =
      λ (i a : ℕ) (e : get_elem? (collect m n 0) i ≡ some a). drawn_at size n m i a l fits h e in
    (
      collect m n 0,
      rw done refl,
      record {
        size = length-collect m n 0;
        in_range = λ i a e.
            let (below, same) = at i a e in (omega (arith, same), omega (arith, below, same));
        distinct = λ i j a e e'. h.injective i j (omega (arith, at i a e, at j a e'));
      },
    )
