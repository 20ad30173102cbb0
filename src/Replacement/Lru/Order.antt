-- ===== src/Replacement/Lru/Order.antt =====
-- core/replacement/LRUReplacementStrategy.cpp: what the cache relies on.
use rdfcache_k.Prelude.{
  find-erase_ne, inr, ltb, sym, inl, ◌==◌, ◌∙◌, find-assign_ne, Option-cases, if◌then◌else◌,
  find-assign_self, ◌≢◌, ◌≡◌, find_value, refl, true, arith, suc, ℕ, List, Bool,
}
use rdfcache_k.Replacement.Lru.{
  LruState, remove_key, remove_found, hit_key, cost_function, value_or, lru_strategy,
}
use rdfcache_k.Replacement.Cache.{precedes, is_found}
use rdfcache_k.Replacement.Cache.Ordered.{StrategyLaws}
use rdfcache_k.Replacement.Cache.Capacity.{KeepsSizes}

pub lru-KeepsSizes : KeepsSizes lru_strategy
lru-KeepsSizes s key pq m j = refl

unfoldable pub lru_tracked : LruState → ℕ → Bool
lru_tracked s key = is_found (find_value s.key_mapping_to_lru_value key)

-- The order of two keys that are in the map is that of their values.
unfoldable value_precedes : List (ℕ × ℕ) → ℕ → ℕ → Bool
value_precedes m i j =
    let left = value_or (find_value m i) 0 in
    let right = value_or (find_value m j) 0 in if left == right then ltb i j else ltb left right

tracked_value :
    (m : List (ℕ × ℕ)) (k d : ℕ)
    → is_found (find_value m k) ≡ true
    → value_or (find_value m k) d ≡ value_or (find_value m k) 0
unfolding value_or is_found
tracked_value m k d h = elim (Option-cases (find_value m k)) [
  | inl e ↦ absurd (ground (arith, e, h))
  | inr (v, e) ↦ rw e refl
]

precedes-value :
    (s : LruState) (i j : ℕ)
    → lru_tracked s i ≡ true
    → lru_tracked s j ≡ true
    → precedes lru_strategy s i j ≡ value_precedes s.key_mapping_to_lru_value i j
unfolding precedes cost_function value_precedes lru_tracked
precedes-value s i j h k = ground (
  arith,
  tracked_value s.key_mapping_to_lru_value i s.high h,
  tracked_value s.key_mapping_to_lru_value j s.high k,
)

pub find-remove_key :
    (s : LruState) (k j : ℕ)
    → j ≢ k
    → find_value (remove_key s k).key_mapping_to_lru_value j
      ≡ find_value s.key_mapping_to_lru_value j
unfolding remove_key remove_found
find-remove_key s k j h = elim (Option-cases (find_value s.key_mapping_to_lru_value k)) [
  | inl e ↦ rw e refl
  | inr (v, e) ↦ rw e (find-erase_ne s.key_mapping_to_lru_value k j h)
]

pub find-hit_key :
    (s : LruState) (k j : ℕ)
    → j ≢ k
    → find_value (hit_key s k).key_mapping_to_lru_value j ≡ find_value s.key_mapping_to_lru_value j
unfolding hit_key
find-hit_key s k j h =
    find-assign_ne _ k j s.high h ∙ find-remove_key (record s { high = suc s.high }) k j h

pub same_values-precedes :
    (s s' : LruState) (i j : ℕ)
    → find_value s'.key_mapping_to_lru_value i ≡ find_value s.key_mapping_to_lru_value i
    → find_value s'.key_mapping_to_lru_value j ≡ find_value s.key_mapping_to_lru_value j
    → lru_tracked s i ≡ true
    → lru_tracked s j ≡ true
    → precedes lru_strategy s' i j ≡ precedes lru_strategy s i j
unfolding lru_tracked value_precedes
same_values-precedes s s' i j e e' h k =
    precedes-value s' i j (rw e h) (rw e' k) ∙ rw (e, e') refl ∙ sym (precedes-value s i j h k)

pub hit_key-tracks : (s : LruState) (k : ℕ) → lru_tracked (hit_key s k) k ≡ true
unfolding hit_key is_found lru_tracked
hit_key-tracks s k = rw (find-assign_self _ k s.high) refl

unfoldable pub lru_laws : StrategyLaws lru_strategy
unfolding lru_tracked
lru_laws = record {
  tracked = lru_tracked;
  hit_tracks = hit_key-tracks;
  hit_keeps = λ s k j h t. rw (find-hit_key s k j h) t;
  remove_keeps = λ s k j h t. rw (find-remove_key s k j h) t;
  hit_order = λ s k i j h h' t t'.
      same_values-precedes s (hit_key s k) i j (find-hit_key s k i h) (find-hit_key s k j h') t t';
  remove_order = λ s k i j h h' t t'.
      same_values-precedes s (remove_key s k) i j (find-remove_key s k i h)
        (find-remove_key s k j h') t t';
}
