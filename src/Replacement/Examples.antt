-- ===== src/Replacement/Examples.antt =====
-- Tests of the cache replacement on small caches.
use rdfcache_k.Prelude.{
  ap, find_value, assign, erase_key, find_value, ◌≡◌, refl, [], ◌∷◌, true, false, arith, Bool,
}
use rdfcache_k.Replacement.Lru
use rdfcache_k.Replacement.Lru.{
  remove_found, reset_bounds, value_or, next_entry, head_value, LruState, lru_strategy,
}
use rdfcache_k.Replacement.Lru.Order.{lru-KeepsSizes, lru_laws, lru_tracked}
use rdfcache_k.Replacement.Frequency.{frequency_strategy}
use rdfcache_k.Replacement.Frequency.Order.{frequency-KeepsSizes}
use rdfcache_k.Replacement.Cache.{
  make_room, load_key, finish, evict, sub64, insert, keep, refuse, rehit, remove, is_found,
  size_or_zero, Call, CacheReplacement, hit_key, contains, size_of, is_using, precedes,
}
use rdfcache_k.Replacement.Cache.Accounting.{AreDistinct, total_size}
use rdfcache_k.Replacement.Cache.Capacity.{IsAccounted, hit_key-IsAccounted}
use rdfcache_k.Replacement.Cache.Residents.{
  IsSynced, loaded, hit_key-IsSynced, hit_key-keeps_used, hit_key-loaded,
}
use rdfcache_k.Replacement.Cache.Ordered.{IsQueue}
use rdfcache_k.Replacement.Cache.OrderKept.{hit_key-IsQueue}
use rdfcache_k.Replacement.Cache.Victims.{hit_key-drops_first}

-- Key 5 was hit before key 1, and key 1 is in use.
abbrev sample : CacheReplacement LruState
sample = record {
  strategy_state = record {
    low = 0;
    high = 3;
    key_mapping_to_lru_value = (1, 1) ∷ (5, 0) ∷ (8, 2) ∷ [];
  };
  priority_set = 5 ∷ 1 ∷ 8 ∷ [];
  space_map = (1, 30) ∷ (5, 40) ∷ (8, 20) ∷ [];
  max_size_allowed = 100;
  size_used = 90;
  in_use = (1, 1) ∷ [];
  calls = Call.retrieve_key 8 ∷ Call.retrieve_key 1 ∷ Call.retrieve_key 5 ∷ [];
}

abbrev after : CacheReplacement LruState
after = (hit_key lru_strategy sample 9 50).1

sample-IsAccounted : IsAccounted sample
unfolding AreDistinct total_size contains size_of size_or_zero find_value
sample-IsAccounted = record {
  distinct = (refl, (refl, (refl, tt)));
  used = refl;
  within = omega arith;
  bounded = omega arith;
}

hit_key-IsAccounted_example : IsAccounted after
hit_key-IsAccounted_example =
    hit_key-IsAccounted lru_strategy lru-KeepsSizes sample 9 50 sample-IsAccounted

sample-IsSynced : IsSynced sample
unfolding AreDistinct contains loaded
sample-IsSynced = record { distinct = (refl, (refl, (refl, tt))); same = λ key. ground arith }

hit_key-IsSynced_example : IsSynced after
hit_key-IsSynced_example = hit_key-IsSynced lru_strategy sample 9 sample-IsSynced 50

one_used : is_using sample 1 ≡ true
unfolding is_using is_found find_value
one_used = refl

one_there : contains sample.priority_set 1 ≡ true
unfolding contains
one_there = refl

hit_key-keeps_used_example : contains after.priority_set 1 ≡ true
hit_key-keeps_used_example =
    hit_key-keeps_used lru_strategy sample 9 sample-IsSynced 50 1 one_used one_there

hit_key_test : hit_key lru_strategy sample 9 50 ≡ (
  true,
  record {
    strategy_state = record {
      low = 2;
      high = 4;
      key_mapping_to_lru_value = (1, 1) ∷ (8, 2) ∷ (9, 3) ∷ [];
    };
    priority_set = 1 ∷ 8 ∷ 9 ∷ [];
    space_map = (1, 30) ∷ (8, 20) ∷ (9, 50) ∷ [];
    max_size_allowed = 100;
    size_used = 100;
    in_use = (1, 1) ∷ [];
    calls =
        Call.retrieve_key 9
        ∷ Call.remove_key 5
        ∷ Call.retrieve_key 8
        ∷ Call.retrieve_key 1
        ∷ Call.retrieve_key 5
        ∷ [];
  },
)
unfolding hit_key contains make_room load_key finish evict is_using is_found find_value sub64
    size_of size_or_zero Lru.hit_key insert assign Lru.remove_key precedes erase_key remove_found
    Lru.cost_function reset_bounds value_or next_entry head_value keep refuse rehit remove
hit_key_test = refl

returned : (hit_key lru_strategy sample 9 50).0 ≡ true
returned = ap (λ (r : Bool × CacheReplacement LruState). r.0) hit_key_test

hit_key-loaded_example : loaded after.calls 9 ≡ true
hit_key-loaded_example = hit_key-loaded lru_strategy sample 9 sample-IsSynced 50 returned

sample-IsQueue : IsQueue lru_strategy lru_laws sample.strategy_state sample.priority_set
unfolding IsQueue lru_laws lru_tracked is_found find_value contains precedes Lru.cost_function
    value_or
sample-IsQueue =
    (refl, (λ j c. ground arith), (refl, (λ j c. ground arith), (refl, (λ j c. ground arith), tt)))

hit_key-IsQueue_example : IsQueue lru_strategy lru_laws after.strategy_state after.priority_set
hit_key-IsQueue_example = hit_key-IsQueue lru_strategy lru_laws sample 9 50 sample-IsQueue

dropped : contains after.priority_set 5 ≡ false
unfolding contains
dropped = ap (λ (r : Bool × CacheReplacement LruState). contains r.1.priority_set 5) hit_key_test

stays : contains after.priority_set 8 ≡ true
unfolding contains
stays = ap (λ (r : Bool × CacheReplacement LruState). contains r.1.priority_set 8) hit_key_test

eight_unused : is_using sample 8 ≡ false
unfolding is_using is_found find_value
eight_unused = refl

five_there : contains sample.priority_set 5 ≡ true
unfolding contains
five_there = refl

eight_there : contains sample.priority_set 8 ≡ true
unfolding contains
eight_there = refl

hit_key-drops_first_example : precedes lru_strategy sample.strategy_state 5 8 ≡ true
hit_key-drops_first_example =
    hit_key-drops_first lru_strategy lru_laws sample 9 50 5 8 sample-IsQueue five_there dropped
      eight_unused eight_there stays

-- After key 1 is hit last, it still precedes key 5.
hit_last_test :
    precedes lru_strategy
      (Lru.hit_key
        (Lru.hit_key
          (record { low = 0; high = 2; key_mapping_to_lru_value = (1, 1) ∷ (5, 0) ∷ [] })
          5)
        1)
      1
      5
    ≡ true
unfolding Lru.hit_key Lru.remove_key remove_found reset_bounds next_entry head_value find_value
    assign erase_key precedes Lru.cost_function value_or
hit_last_test = refl

frequency-KeepsSizes_test :
    size_of (frequency_strategy.should_discard_others_for_key [] 3 (5 ∷ []) ((5, 2) ∷ [])).1 5
    ≡ size_of ((5, 2) ∷ []) 5
frequency-KeepsSizes_test = frequency-KeepsSizes [] 3 (5 ∷ []) ((5, 2) ∷ []) 5
