-- ===== src/Replacement/Frequency.antt =====
-- core/replacement/FrequencyReplacementStrategy.cpp: the key hit least often costs least.
pub mod Order
use rdfcache_k.Prelude.{
  ℕ, suc, zero, ◌+◌, ◌≡◌, refl, Bool, true, false, Option, none, some, List, [], ◌∷◌, ltb, leb,
  ◌==◌, ◌&&◌, if◌then◌else◌, find_value, assign, erase_key, add64,
}
use rdfcache_k.Replacement.Strategy.{Cost, cost_lt, Strategy}

unfoldable pub size_found : List (ℕ × ℕ) → ℕ → Option ℕ → ℕ × List (ℕ × ℕ)
size_found sizes key none = (0, assign sizes key 0)
size_found sizes key (some n) = (n, sizes)

-- `space_map[key]`, which adds a missing entry.
unfoldable pub get_key_size : List (ℕ × ℕ) → ℕ → ℕ × List (ℕ × ℕ)
get_key_size sizes key = size_found sizes key (find_value sizes key)

unfoldable pub count_hit : Option ℕ → ℕ
count_hit none = 1
count_hit (some n) = suc n

unfoldable pub hit_key : List (ℕ × ℕ) → ℕ → List (ℕ × ℕ)
hit_key frequency_map key = assign frequency_map key (count_hit (find_value frequency_map key))

unfoldable pub frequency_or_zero : Option ℕ → ℕ
frequency_or_zero none = 0
frequency_or_zero (some n) = n

unfoldable pub cost_function : List (ℕ × ℕ) → ℕ → Cost
cost_function frequency_map key = record {
  value = frequency_or_zero (find_value frequency_map key);
  low = 0;
}

-- The loop over the queue.
unfoldable pub enough_cheaper :
    List (ℕ × ℕ)
    → (required : ℕ) → Cost
    → (accumulated : ℕ) → List ℕ
    → List (ℕ × ℕ)
    → Bool × List (ℕ × ℕ)
enough_cheaper m required key_cost accumulated [] sizes = (false, sizes)
enough_cheaper m required key_cost accumulated (current ∷ pq) sizes =
    let got = get_key_size sizes current in
    let total = add64 accumulated got.0 in
    let rest = enough_cheaper m required key_cost total pq got.1 in
    if cost_lt key_cost (cost_function m current)
    then (false, got.1)
    else (if leb required total then (true, got.1) else rest)

unfoldable pub should_discard_others_for_key :
    List (ℕ × ℕ) → ℕ → List ℕ → List (ℕ × ℕ) → Bool × List (ℕ × ℕ)
should_discard_others_for_key m key [] sizes = (false, sizes)
should_discard_others_for_key m key (k ∷ pq) sizes =
    let got = get_key_size sizes key in
    enough_cheaper m got.0 (cost_function m key) 0 (k ∷ pq) got.1

abbrev pub frequency_strategy : Strategy (List (ℕ × ℕ))
frequency_strategy = record {
  cost_function = cost_function;
  hit_key = hit_key;
  remove_key = λ m key. m;
  should_discard_others_for_key = should_discard_others_for_key;
  should_hit_without_retrieval = true;
}
