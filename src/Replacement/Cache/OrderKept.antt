-- ===== src/Replacement/Cache/OrderKept.antt =====
-- core/replacement/CacheReplacement.cpp: `hit_key` and the order of the priority set.
use rdfcache_k.Prelude.{
  inr, add64, inl, ◌⊎◌, ltb, ◌∙◌, if_both, ◌≡◌, refl, [], ◌∷◌, true, false, arith, ℕ, List, Bool,
}
use rdfcache_k.Replacement.Strategy.{Strategy}
use rdfcache_k.Replacement.Cache.{
  is_using, Call, CacheReplacement, Eviction, contains, precedes, remove, evict, keep, finish,
  load_key, refuse, rehit, hit_key,
}
use rdfcache_k.Replacement.Cache.Accounting.{contains-remove, AreDistinct}
use rdfcache_k.Replacement.Cache.Loop.{dropped_size, kept_size}
use rdfcache_k.Replacement.Cache.Cases.{hit_key-cases}
use rdfcache_k.Replacement.Cache.Ordered.{
  IsQueue-tracked, IsQueue-AreDistinct, remove-IsQueue, insert-IsQueue, drop-IsQueue, IsQueue-fresh,
  StrategyLaws, IsQueue, hit-IsQueue,
}

module _ {S : Type 0} (strategy : Strategy S) (laws : StrategyLaws strategy) where
  -- What the loop leaves of the keys `ks` under the strategy `s`: the keys that it has not dropped
  -- are tracked and ordered as before.
  record KeepsQueue (s : S) (ks : List ℕ) (e : Eviction S) : Type 0 where
    queue : IsQueue strategy laws e.strategy_state e.priority_set
    kept : (j : ℕ) → contains e.priority_set j ≡ true → contains ks j ≡ true
    tracked_kept :
        (j : ℕ)
        → (contains ks j ≡ false) ⊎ (contains e.priority_set j ≡ true)
        → laws.tracked s j ≡ true
        → laws.tracked e.strategy_state j ≡ true
    order_kept :
        (i j : ℕ)
        → (contains ks i ≡ false) ⊎ (contains e.priority_set i ≡ true)
        → (contains ks j ≡ false) ⊎ (contains e.priority_set j ≡ true)
        → laws.tracked s i ≡ true
        → laws.tracked s j ≡ true
        → precedes strategy e.strategy_state i j ≡ precedes strategy s i j

  stopped-KeepsQueue :
      (ks : List ℕ) (s : S) (m : List (ℕ × ℕ)) (next erased : ℕ) (cs : List Call) (b : Bool)
      → IsQueue strategy laws s ks
      → KeepsQueue s ks (record {
        strategy_state = s;
        space_map = m;
        next_size = next;
        size_erased = erased;
        calls = cs;
        priority_set = ks;
        enough = b;
      })
  stopped-KeepsQueue ks s m next erased cs b q = record {
    queue = q;
    kept = λ j c. c;
    tracked_kept = λ j v t. t;
    order_kept = λ i j v w t u. refl;
  }

  keep-KeepsQueue :
      (k : ℕ) (ks : List ℕ) (s : S) (e : Eviction S)
      → IsQueue strategy laws s (k ∷ ks)
      → KeepsQueue s ks e
      → KeepsQueue s (k ∷ ks) (keep k e)
  unfolding contains IsQueue keep
  keep-KeepsQueue k ks s e q h =
      let fresh = IsQueue-fresh strategy laws s k ks q.1 in
      let survives = λ (j : ℕ). kept_size k j ks e.priority_set fresh in
      record {
        queue = (
          h.tracked_kept k (inl fresh) q.0,
          (λ j c.
              h.order_kept k j (inl fresh) (inr c) q.0
                (IsQueue-tracked strategy laws s ks j q.2 (h.kept j c))
              ∙ q.1 j (h.kept j c)),
          h.queue,
        );
        kept = λ j c. ground (arith, h.kept j);
        tracked_kept = λ j v. h.tracked_kept j (survives j v);
        order_kept = λ i j v w. h.order_kept i j (survives i v) (survives j w);
      }

  drop-KeepsQueue :
      (k : ℕ) (ks : List ℕ) (s : S) (e : Eviction S)
      → IsQueue strategy laws s (k ∷ ks)
      → KeepsQueue (strategy.remove_key s k) ks e
      → KeepsQueue s (k ∷ ks) e
  unfolding contains IsQueue
  drop-KeepsQueue k ks s e q h =
      let fresh = IsQueue-fresh strategy laws s k ks q.1 in
      let survives = λ (j : ℕ). dropped_size k j ks e.priority_set fresh h.kept in
      record {
        queue = h.queue;
        kept = λ j c. ground (arith, h.kept j c);
        tracked_kept = λ j v t.
            let (other, v') = survives j v in h.tracked_kept j v' (laws.remove_keeps s k j other t);
        order_kept = λ i j v w t u.
            let (other, v') = survives i v in
            let (other', w') = survives j w in
            h.order_kept i j v' w' (laws.remove_keeps s k i other t)
              (laws.remove_keeps s k j other' u)
            ∙ laws.remove_order s k i j other other' t u;
      }

  evict-KeepsQueue :
      (max_size : ℕ) (using : ℕ → Bool) (ks : List ℕ) (s : S) (m : List (ℕ × ℕ)) (next erased : ℕ)
      (cs : List Call)
      → IsQueue strategy laws s ks
      → KeepsQueue s ks (evict strategy max_size using ks s m next erased cs)
  unfolding evict IsQueue
  evict-KeepsQueue max_size using [] s m next erased cs q =
      stopped-KeepsQueue [] s m next erased cs _ tt
  evict-KeepsQueue max_size using (k ∷ ks) s m next erased cs q =
      if_both (KeepsQueue s (k ∷ ks)) (ltb max_size next) _ _
        (λ over.
          if_both (KeepsQueue s (k ∷ ks)) (using k) _ _
            (λ used.
              keep-KeepsQueue k ks s _ q
                (evict-KeepsQueue max_size using ks s m next erased cs q.2))
            (λ free. drop-KeepsQueue k ks s _ q (
              evict-KeepsQueue max_size using ks _ _ _ _ _
                (drop-IsQueue strategy laws s ks k (IsQueue-fresh strategy laws s k ks q.1) q.2))))
        (λ fits. stopped-KeepsQueue (k ∷ ks) s m next erased cs true q)

  rehit-IsQueue :
      (c : CacheReplacement S) (key : ℕ)
      → AreDistinct c.priority_set
      → IsQueue strategy laws c.strategy_state c.priority_set
      → let r = (rehit strategy c key).1 in IsQueue strategy laws r.strategy_state r.priority_set
  unfolding rehit
  rehit-IsQueue c key d q =
      let left = remove c.priority_set key in
      let out : contains left key ≡ false =
        contains-remove c.priority_set key key d ∙ ground arith in
      insert-IsQueue strategy laws (strategy.hit_key c.strategy_state key) left key
        (laws.hit_tracks c.strategy_state key) out
        (hit-IsQueue strategy laws c.strategy_state left key out
          (remove-IsQueue strategy laws c.strategy_state c.priority_set key q))

  finish-IsQueue :
      (c : CacheReplacement S) (key required : ℕ) (e : Eviction S)
      → contains c.priority_set key ≡ false
      → KeepsQueue c.strategy_state c.priority_set e
      → let r = (finish strategy c key required e).1 in
        IsQueue strategy laws r.strategy_state r.priority_set
  unfolding finish
  finish-IsQueue c key required e out h =
      let absent : contains e.priority_set key ≡ false = ground (arith, h.kept key) in
      if_both {A = Bool × CacheReplacement S}
        (λ r. IsQueue strategy laws r.1.strategy_state r.1.priority_set) e.enough _ _
        (λ enough.
          insert-IsQueue strategy laws (strategy.hit_key e.strategy_state key) e.priority_set key
            (laws.hit_tracks e.strategy_state key) absent
            (hit-IsQueue strategy laws e.strategy_state e.priority_set key absent h.queue))
        (λ short. h.queue)

  refuse-IsQueue :
      (c : CacheReplacement S) (key : ℕ) (m : List (ℕ × ℕ))
      → contains c.priority_set key ≡ false
      → IsQueue strategy laws c.strategy_state c.priority_set
      → let r = (refuse strategy c key m).1 in IsQueue strategy laws r.strategy_state r.priority_set
  unfolding refuse
  refuse-IsQueue c key m out q =
      if_both (λ s. IsQueue strategy laws s c.priority_set) strategy.should_hit_without_retrieval _
        _ (λ hit. hit-IsQueue strategy laws c.strategy_state c.priority_set key out q) (λ no. q)

  -- If the strategy meets its laws and every key of the priority set is tracked and precedes those
  -- behind it, which is what `std::set` asks of its comparator, then this holds after `hit_key`.
  pub hit_key-IsQueue :
      (c : CacheReplacement S) (key space_required : ℕ)
      → IsQueue strategy laws c.strategy_state c.priority_set
      → let r = (hit_key strategy c key space_required).1 in
        IsQueue strategy laws r.strategy_state r.priority_set
  unfolding load_key is_using
  hit_key-IsQueue c key required q =
      let load = λ (m : List (ℕ × ℕ)) (out : contains c.priority_set key ≡ false).
        finish-IsQueue (record c { space_map = m }) key required _ out
          (evict-KeepsQueue c.max_size_allowed (is_using c) c.priority_set c.strategy_state m
            (add64 required c.size_used) 0 c.calls q) in
      hit_key-cases strategy (λ r. IsQueue strategy laws r.1.strategy_state r.1.priority_set) c key
        required q
        (λ there.
          rehit-IsQueue c key (IsQueue-AreDistinct strategy laws c.strategy_state c.priority_set q)
            q)
        (λ out. refuse-IsQueue c key _ out q) (λ small out. load c.space_map out)
        (λ small out. load _ out)
