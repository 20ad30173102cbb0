-- ===== src/Sampling.antt =====
-- core/util_algorithms/fisher_yates.cpp: a sample of the numbers from 1 on, without repetition.
pub mod Distinct
pub mod Examples
use rdfcache_k.Prelude.{
  ◌>>=◌ as bind, ℕ, suc, zero, ◌+◌, ◌-◌, ◌%◌, [], ◌∷◌, some, none, List, Option, ok, err, undefined,
  if◌then◌else◌, ltb, Result, find_value, assign, add64,
}

unfoldable pub value_or : Option ℕ → ℕ → ℕ
value_or none d = d
value_or (some v) d = v

-- One round: the entries of `i` and of the number drawn are exchanged; an entry that is missing
-- stands for its own index.
unfoldable pub exchange : List (ℕ × ℕ) → (i random_number : ℕ) → List (ℕ × ℕ)
exchange state i random_number =
    let which_rand = value_or (find_value state random_number) random_number in
    let which_i = value_or (find_value state i) i in
    assign (assign state i which_rand) random_number which_i

-- The first loop from `i` on, with `n` rounds left. `rand i` is what `std::rand` returns in round
-- `i`. The remainder by zero is undefined.
unfoldable pub rounds :
    (rand : ℕ → ℕ) (choice_set_size n i : ℕ) → List (ℕ × ℕ) → Result (List (ℕ × ℕ))
rounds rand choice_set_size zero i state = ok state
rounds rand choice_set_size (suc n) i state =
    let drawn = rand i % (choice_set_size - i) + i in
    let rest = rounds rand choice_set_size n (suc i) (exchange state i drawn) in
    if ltb i choice_set_size then rest else err undefined

-- The second loop. A missing entry would be read as zero.
unfoldable pub collect : List (ℕ × ℕ) → (n i : ℕ) → List ℕ
collect state zero i = []
collect state (suc n) i = add64 (value_or (find_value state i) 0) 1 ∷ collect state n (suc i)

unfoldable pub fisher_yates : (rand : ℕ → ℕ) (result_size choice_set_size : ℕ) → Result (List ℕ)
fisher_yates rand result_size choice_set_size =
    bind (rounds rand choice_set_size result_size 0 []) λ state. ok (collect state result_size 0)
