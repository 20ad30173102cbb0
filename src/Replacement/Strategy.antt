-- ===== src/Replacement/Strategy.antt =====
-- core/replacement: what the cache asks of its replacement strategy.
use rdfcache_k.Prelude.{ℕ, ◌+◌, Bool, List, ltb, ◌==◌}

-- A `long` that the code computes as a difference: `value - low`, with no overflow.
pub record Cost : Type 0 where
  pub value : ℕ
  pub low : ℕ

-- The order and the equality of two differences.
abbrev pub cost_lt : Cost → Cost → Bool
cost_lt a b = ltb (a.value + b.low) (b.value + a.low)

abbrev pub cost_eq : Cost → Cost → Bool
cost_eq a b = a.value + b.low == b.value + a.low

-- What the cache asks of a strategy `S`. The queue is the priority set, in its order, with the map
-- of sizes; to ask for a size may add an entry to that map.
pub record Strategy (S : Type 0) : Type 0 where
  pub cost_function : S → ℕ → Cost
  pub hit_key : S → ℕ → S
  pub remove_key : S → ℕ → S
  pub should_discard_others_for_key : S → ℕ → List ℕ → List (ℕ × ℕ) → Bool × List (ℕ × ℕ)
  pub should_hit_without_retrieval : Bool
