-- ===== src/Replacement/Cache/Capacity.antt =====
-- core/replacement/CacheReplacement.cpp: `hit_key` and the account of the memory used.
use rdfcache_k.Replacement.Cache.Cases.{hit_key-cases}
use rdfcache_k.Prelude.{
  add64, assign, if_both, inr, ◌^◌, ◌+◌, sym, ◌<◌, ◌≤◌, ◌∙◌, ◌≡◌, true, false, arith, ℕ, List, Bool,
}
use rdfcache_k.Replacement.Strategy.{Strategy}
use rdfcache_k.Replacement.Cache.{
  is_using, CacheReplacement, Eviction, contains, remove, finish, load_key, refuse, rehit, hit_key,
}
use rdfcache_k.Replacement.Cache.Accounting.{
  size-assign_ne, size-assign_self, total-remove, total-insert, contains-remove, AreDistinct-remove,
  AreDistinct-insert, AreDistinct, SameSizes, total_size, total-same,
}
use rdfcache_k.Replacement.Cache.Loop.{ne_of_contains, IsEvicted, evict-IsEvicted, sub64_le}

-- No key twice, `size_used` the sum of their sizes, and that within the limit.
pub record IsAccounted {S : Type 0} (c : CacheReplacement S) : Type 0 where
  pub distinct : AreDistinct c.priority_set
  pub used : c.size_used ≡ total_size c.space_map c.priority_set
  pub within : c.size_used ≤ c.max_size_allowed
  pub bounded : c.max_size_allowed < 2 ^ 63

-- To ask whether others should go changes no size.
abbrev pub KeepsSizes : {S : Type 0} → Strategy S → Type 0
KeepsSizes {S} strategy =
    (s : S) (key : ℕ) (pq : List ℕ) (m : List (ℕ × ℕ))
    → SameSizes (strategy.should_discard_others_for_key s key pq m).1 m

module _ {S : Type 0} (strategy : Strategy S) where
  with_sizes-IsAccounted :
      (c : CacheReplacement S) (s : S) (m : List (ℕ × ℕ))
      → SameSizes m c.space_map
      → IsAccounted c
      → IsAccounted (record c { strategy_state = s; space_map = m })
  with_sizes-IsAccounted c s m same h = record {
    distinct = h.distinct;
    used = h.used ∙ sym (total-same m c.space_map c.priority_set (λ j _. same j));
    within = h.within;
    bounded = h.bounded;
  }

  rehit-IsAccounted :
      (c : CacheReplacement S) (key : ℕ)
      → contains c.priority_set key ≡ true
      → IsAccounted c
      → IsAccounted (rehit strategy c key).1
  unfolding rehit
  rehit-IsAccounted c key there h = record {
    distinct =
        AreDistinct-insert strategy _ (remove c.priority_set key) key
          (AreDistinct-remove c.priority_set key h.distinct)
          (contains-remove c.priority_set key key h.distinct ∙ ground arith);
    used = omega (
      arith,
      h.used,
      total-insert strategy (strategy.hit_key c.strategy_state key) c.space_map
          (remove c.priority_set key) key,
      total-remove c.space_map c.priority_set key there,
    );
    within = h.within;
    bounded = h.bounded;
  }

  finish-IsAccounted :
      (c : CacheReplacement S) (key required : ℕ) (e : Eviction S)
      → required ≤ c.max_size_allowed
      → contains c.priority_set key ≡ false
      → IsAccounted c
      → IsEvicted c.max_size_allowed c.priority_set c.space_map (required + c.size_used) 0 e
      → IsAccounted (finish strategy c key required e).1
  unfolding finish
  finish-IsAccounted c key required e small out h done =
      let same =
        total-same e.space_map c.space_map e.priority_set (λ j t. done.same_sizes j (inr t)) in
      let absent : contains e.priority_set key ≡ false = ground (arith, done.kept key) in
      let erased : e.size_erased + total_size c.space_map e.priority_set ≡ c.size_used =
        omega (arith, done.balance, done.moved, h.used) in
      let subtracted =
        sub64_le c.size_used e.size_erased (omega (arith, erased))
          (omega (arith, h.within, h.bounded)) in
      if_both {A = Bool × CacheReplacement S} (λ r. IsAccounted {S = S} r.1) e.enough _ _
        (λ enough. record {
          distinct = AreDistinct-insert strategy _ e.priority_set key done.distinct absent;
          used = omega (
            arith,
            done.balance,
            same,
            h.used,
            total-insert strategy (strategy.hit_key e.strategy_state key)
                (assign e.space_map key required) e.priority_set key,
            size-assign_self e.space_map key required,
            total-same (assign e.space_map key required) e.space_map e.priority_set (λ j t.
                size-assign_ne e.space_map key j required
                  (ne_of_contains e.priority_set j key t absent)),
          );
          within = done.within enough;
          bounded = h.bounded;
        })
        (λ not_enough. record {
          distinct = done.distinct;
          used = omega (arith, subtracted, erased, same);
          within = omega (arith, subtracted, h.within);
          bounded = h.bounded;
        })

  load_key-IsAccounted :
      (c : CacheReplacement S) (key required : ℕ)
      → required ≤ c.max_size_allowed
      → contains c.priority_set key ≡ false
      → IsAccounted c
      → IsAccounted (load_key strategy c key required).1
  unfolding load_key
  load_key-IsAccounted c key required small out h =
      let sum : add64 required c.size_used ≡ required + c.size_used =
        omega (arith, h.within, h.bounded) in
      rw sum (
        finish-IsAccounted c key required _ small out h (
          evict-IsEvicted strategy c.max_size_allowed (is_using c) c.priority_set c.strategy_state
            c.space_map (required + c.size_used) 0 c.calls h.distinct (omega (arith, h.used))
            (omega (arith, h.within, h.bounded))))

  -- If asking the strategy whether others should go changes no size, then whatever `hit_key` does, from
  -- an account that is right it leaves one that is right: no key twice, `size_used` the sum of the sizes
  -- of the keys in memory, and that within a limit below 2 ^ 63.
  pub hit_key-IsAccounted :
      KeepsSizes strategy
      → (c : CacheReplacement S) (key space_required : ℕ) → IsAccounted c
      → IsAccounted (hit_key strategy c key space_required).1
  unfolding refuse
  hit_key-IsAccounted keeps c key required h =
      let same = keeps c.strategy_state key c.priority_set c.space_map in
      hit_key-cases strategy (λ r. IsAccounted r.1) c key required h
        (λ there. rehit-IsAccounted c key there h) (λ out. with_sizes-IsAccounted c _ _ same h)
        (λ small out. load_key-IsAccounted c key required small out h)
        (λ small out.
          load_key-IsAccounted _ key required small out
            (with_sizes-IsAccounted c c.strategy_state _ same h))
