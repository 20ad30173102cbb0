-- ===== src/Replacement/Lru.antt =====
-- core/replacement/LRUReplacementStrategy.cpp: a key costs the number of its last hit, from a moving start.
pub mod Order
use rdfcache_k.Prelude.{
  ℕ, suc, zero, ◌+◌, ◌≡◌, refl, Bool, true, false, Option, none, some, List, [], ◌∷◌, ltb, leb,
  ◌==◌, ◌&&◌, if◌then◌else◌, find_value, assign, erase_key, add64,
}
use rdfcache_k.Replacement.Strategy.{Cost, cost_lt, Strategy}

pub record LruState : Type 0 where
  pub low : ℕ
  pub high : ℕ
  pub key_mapping_to_lru_value : List (ℕ × ℕ)

unfoldable pub initial : LruState
initial = record { low = 0; high = 0; key_mapping_to_lru_value = [] }

-- `std::next(it)` for the entry of a key.
unfoldable pub head_value : List (ℕ × ℕ) → Option ℕ
head_value [] = none
head_value ((j, w) ∷ n) = some w

unfoldable pub next_entry : List (ℕ × ℕ) → ℕ → Option ℕ
next_entry [] k = none
next_entry ((k', v) ∷ m) k = if k == k' then head_value m else next_entry m k

-- `low` moves on to the next entry in the order of the keys, or both bounds start again.
unfoldable pub reset_bounds : Option ℕ → LruState → LruState
reset_bounds none s = record s { low = 0; high = 0 }
reset_bounds (some v) s = record s { low = v }

unfoldable pub remove_found : LruState → ℕ → Option ℕ → LruState
remove_found s key none = s
remove_found s key (some lru_value) =
    let moved =
      if lru_value == s.low
      then reset_bounds (next_entry s.key_mapping_to_lru_value key) s
      else s in
    record moved { key_mapping_to_lru_value = erase_key s.key_mapping_to_lru_value key }

unfoldable pub remove_key : LruState → ℕ → LruState
remove_key s key = remove_found s key (find_value s.key_mapping_to_lru_value key)

unfoldable pub hit_key : LruState → ℕ → LruState
hit_key s key =
    let removed = remove_key (record s { high = suc s.high }) key in
    record removed { key_mapping_to_lru_value = assign removed.key_mapping_to_lru_value key s.high }

unfoldable pub value_or : Option ℕ → ℕ → ℕ
value_or none d = d
value_or (some v) d = v

unfoldable pub cost_function : LruState → ℕ → Cost
cost_function s key = record {
  value = value_or (find_value s.key_mapping_to_lru_value key) s.high;
  low = s.low;
}

abbrev pub lru_strategy : Strategy LruState
lru_strategy = record {
  cost_function = cost_function;
  hit_key = hit_key;
  remove_key = remove_key;
  should_discard_others_for_key = λ s key pq sizes. (true, sizes);
  should_hit_without_retrieval = false;
}
