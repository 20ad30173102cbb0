-- ===== src/Replacement/Cache/Cases.antt =====
-- core/replacement/CacheReplacement.cpp: the ways that `hit_key` can go.
use rdfcache_k.Prelude.{add64, ltb, ◌≤◌, ◌≡◌, if_both, true, false, arith, ℕ, List, Bool}
use rdfcache_k.Replacement.Strategy.{Strategy}
use rdfcache_k.Replacement.Cache.{
  CacheReplacement, contains, load_key, refuse, rehit, make_room, hit_key,
}

module _ {S : Type 0} (strategy : Strategy S) where
  -- What the strategy leaves of the sizes when it is asked.
  abbrev pub asked : CacheReplacement S → ℕ → Bool × List (ℕ × ℕ)
  asked c key =
      strategy.should_discard_others_for_key c.strategy_state key c.priority_set c.space_map

  make_room-cases :
      (P : Bool × CacheReplacement S → Type 0) (c : CacheReplacement S) (key required : ℕ)
      → P (refuse strategy c key (asked c key).1)
      → P (load_key strategy (record c { space_map = (asked c key).1 }) key required)
      → P (make_room strategy c key required)
  unfolding make_room
  make_room-cases P c key required stay discard =
      if_both P (asked c key).0
        (load_key strategy (record c { space_map = (asked c key).1 }) key required)
        (refuse strategy c key (asked c key).1) (λ _. discard) (λ _. stay)

  pub hit_key-cases :
      (P : Bool × CacheReplacement S → Type 0) (c : CacheReplacement S) (key required : ℕ)
      → P (false, c)
      → (contains c.priority_set key ≡ true → P (rehit strategy c key))
      → (contains c.priority_set key ≡ false → P (refuse strategy c key (asked c key).1))
      → (required ≤ c.max_size_allowed
          → contains c.priority_set key ≡ false
          → P (load_key strategy c key required))
      → (required ≤ c.max_size_allowed
          → contains c.priority_set key ≡ false
          → P (load_key strategy (record c { space_map = (asked c key).1 }) key required))
      → P (hit_key strategy c key required)
  unfolding hit_key
  hit_key-cases P c key required ignored again stay load discard =
      if_both P (ltb c.max_size_allowed required) _ _ (λ large. ignored)
        (λ small. if_both P (contains c.priority_set key) _ _ again (λ out.
          if_both P (ltb c.max_size_allowed (add64 required c.size_used)) _ _
            (λ full. make_room-cases P c key required (stay out) (discard (ground arith) out))
            (λ room. load (ground arith) out)))
