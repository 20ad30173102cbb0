-- ===== src/Sampling/Examples.antt =====
-- Tests of the sampling on small sets.
use rdfcache_k.Prelude.{assign, ◌≡◌, find_value, ◌+◌, ℕ, List, ok, arith, refl, [], ◌∷◌}
use rdfcache_k.Sampling.{fisher_yates, rounds, exchange, collect, value_or}
use rdfcache_k.Sampling.Distinct.{IsSample, fisher_yates-IsSample}

fisher_yates-IsSample_example :
    (result : List ℕ) × (fisher_yates (λ i. 7 + i) 3 5 ≡ ok result) × IsSample 3 5 result
fisher_yates-IsSample_example = fisher_yates-IsSample (λ i. 7 + i) 3 5 (omega arith) (omega arith)

fisher_yates_test : fisher_yates (λ i. 7 + i) 3 5 ≡ ok (3 ∷ 2 ∷ 1 ∷ [])
unfolding fisher_yates rounds exchange collect value_or find_value assign
fisher_yates_test = refl
