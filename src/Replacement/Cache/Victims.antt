-- ===== src/Replacement/Cache/Victims.antt =====
-- core/replacement/CacheReplacement.cpp: which keys `hit_key` drops to make room.
use rdfcache_k.Replacement.Cache.Accounting.{contains-remove, contains-insert, AreDistinct}
use rdfcache_k.Prelude.{
  add64, erase_key, ap, ltb, if_both, ◌≡◌, [], ◌∷◌, true, false, arith, ℕ, List, Bool,
}
use rdfcache_k.Replacement.Strategy.{Strategy}
use rdfcache_k.Replacement.Cache.{
  is_using, size_of, sub64, Call, CacheReplacement, Eviction, contains, precedes, remove, evict,
  keep, finish, load_key, refuse, rehit, hit_key,
}
use rdfcache_k.Replacement.Cache.Cases.{hit_key-cases}
use rdfcache_k.Replacement.Cache.Ordered.{
  IsQueue-AreDistinct, contains-all, StrategyLaws, IsQueue, IsQueue-fresh,
}

module _ {S : Type 0} (strategy : Strategy S) (laws : StrategyLaws strategy) (s0 : S)
    (using : ℕ → Bool) where
  -- Of the keys `ks`, those left are `left`, and what was dropped precedes, under `s0`, what stays
  -- without being in use.
  record DropsFirst (ks left : List ℕ) : Type 0 where
    kept : (j : ℕ) → contains left j ≡ true → contains ks j ≡ true
    first :
        (v j : ℕ)
        → contains ks v ≡ true
        → contains left v ≡ false
        → using j ≡ false
        → contains left j ≡ true
        → precedes strategy s0 v j ≡ true

  evict-DropsFirst :
      (max_size : ℕ) (ks : List ℕ) (s : S) (m : List (ℕ × ℕ)) (next erased : ℕ) (cs : List Call)
      → IsQueue strategy laws s0 ks
      → DropsFirst ks (evict strategy max_size using ks s m next erased cs).priority_set
  unfolding evict IsQueue contains keep
  evict-DropsFirst max_size [] s m next erased cs q = record {
    kept = λ j c. c;
    first = λ v j c d. absurd (ground arith);
  }
  evict-DropsFirst max_size (k ∷ ks) s m next erased cs q =
      let fresh = IsQueue-fresh strategy laws s0 k ks q.1 in
      if_both {A = Eviction S} (λ e. DropsFirst (k ∷ ks) e.priority_set) (ltb max_size next) _ _
        (λ over.
          if_both {A = Eviction S} (λ e. DropsFirst (k ∷ ks) e.priority_set) (using k) _ _
            (λ used.
              let h = evict-DropsFirst max_size ks s m next erased cs q.2 in
              record {
                kept = λ j c. ground (arith, h.kept j);
                first = λ v j c d u t.
                    h.first v j (ground (arith, c, d)) (ground (arith, d)) u
                      (ground (arith, t, u, used, ap using {x = j} {y = k}));
              })
            (λ free.
              let h =
                evict-DropsFirst max_size ks (strategy.remove_key s k) (erase_key m k)
                  (sub64 next (size_of m k)) (add64 erased (size_of m k)) (Call.remove_key k ∷ cs)
                  q.2 in
              record {
                kept = λ j c. ground (arith, h.kept j c);
                first = λ v j c d u t.
                    contains-all (λ v. contains _ v ≡ false → precedes strategy s0 v j ≡ true) k
                      (contains ks) (λ _. q.1 j (h.kept j t)) (λ v c d. h.first v j c d u t) v c d;
              }))
        (λ fits. record { kept = λ j c. c; first = λ v j c d. absurd (ground (arith, c, d)) })

module _ {S : Type 0} (strategy : Strategy S) (laws : StrategyLaws strategy)
    (c : CacheReplacement S) (key : ℕ) where
  -- What was dropped of the keys of `c` precedes what stayed of them without being in use.
  unfoldable IsFair : List ℕ → Type 0
  IsFair left =
      (v j : ℕ)
      → contains c.priority_set v ≡ true
      → contains left v ≡ false
      → is_using c j ≡ false
      → contains c.priority_set j ≡ true
      → contains left j ≡ true
      → precedes strategy c.strategy_state v j ≡ true

  all_stay-IsFair :
      (left : List ℕ)
      → ((j : ℕ) → contains c.priority_set j ≡ true → contains left j ≡ true)
      → IsFair left
  unfolding IsFair
  all_stay-IsFair left h v j t f u there stays = absurd (ground (arith, h v t, f))

  rehit-IsFair : AreDistinct c.priority_set → IsFair (rehit strategy c key).1.priority_set
  unfolding rehit
  rehit-IsFair d = all_stay-IsFair _ λ j t. ground (
    arith,
    contains-insert strategy (strategy.hit_key c.strategy_state key) (remove c.priority_set key) key
        j,
    contains-remove c.priority_set key j d,
    t,
  )

  load-IsFair :
      (m : List (ℕ × ℕ)) (required : ℕ)
      → contains c.priority_set key ≡ false
      → IsQueue strategy laws c.strategy_state c.priority_set
      → IsFair (load_key strategy (record c { space_map = m }) key required).1.priority_set
  unfolding IsFair load_key finish is_using
  load-IsFair m required out q =
      let e =
        evict strategy c.max_size_allowed (is_using c) c.priority_set c.strategy_state m
          (add64 required c.size_used) 0 c.calls in
      let h =
        evict-DropsFirst strategy laws c.strategy_state (is_using c) c.max_size_allowed
          c.priority_set c.strategy_state m (add64 required c.size_used) 0 c.calls q in
      if_both {A = Bool × CacheReplacement S} (λ r. IsFair r.1.priority_set) e.enough _ _
        (λ enough v j t f u there stays.
          let s = strategy.hit_key e.strategy_state key in
          let at = contains-insert strategy s e.priority_set key in
          h.first v j t (ground (arith, f, at v)) u (
            ground
              (arith, stays, at j, out, there, ap (contains c.priority_set) {x = j} {y = key})))
        (λ short v j t f u there. h.first v j t f u)

  -- If every key of the priority set is tracked and precedes those behind it, then a key that
  -- `hit_key` drops precedes every key that it keeps and that is not in use.
  pub hit_key-drops_first :
      (required v j : ℕ)
      → IsQueue strategy laws c.strategy_state c.priority_set
      → contains c.priority_set v ≡ true
      → contains (hit_key strategy c key required).1.priority_set v ≡ false
      → is_using c j ≡ false
      → contains c.priority_set j ≡ true
      → contains (hit_key strategy c key required).1.priority_set j ≡ true
      → precedes strategy c.strategy_state v j ≡ true
  unfolding IsFair refuse
  hit_key-drops_first required v j q =
      hit_key-cases strategy (λ r. IsFair r.1.priority_set) c key required
        (all_stay-IsFair c.priority_set (λ j t. t))
        (λ there.
          rehit-IsFair (IsQueue-AreDistinct strategy laws c.strategy_state c.priority_set q))
        (λ out. all_stay-IsFair c.priority_set (λ j t. t))
        (λ small out. load-IsFair c.space_map required out q)
        (λ small out. load-IsFair _ required out q) v j
