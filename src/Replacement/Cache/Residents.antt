-- ===== src/Replacement/Cache/Residents.antt =====
-- core/replacement/CacheReplacement.cpp: the keys that the data manager is told to hold, and those in
-- use.
use rdfcache_k.Prelude.{
  add64, ◌∙◌, not, ltb, ap, ◌&&◌, ◌||◌, if_both, ◌≡◌, ◌==◌, [], ◌∷◌, true, false, arith, ℕ, List,
  Bool,
}
use rdfcache_k.Replacement.Strategy.{Strategy}
use rdfcache_k.Replacement.Cache.{
  is_using, Call, CacheReplacement, Eviction, contains, remove, evict, keep, finish, load_key,
  refuse, rehit, hit_key,
}
use rdfcache_k.Replacement.Cache.Accounting.{
  AreDistinct-remove, AreDistinct-insert, AreDistinct, contains-remove, contains-insert,
}
use rdfcache_k.Replacement.Cache.Cases.{hit_key-cases}

-- Whether a key is in memory after these calls, the last call first.
unfoldable pub loaded : List Call → ℕ → Bool
loaded [] key = false
loaded (Call.retrieve_key j ∷ cs) key = key == j || loaded cs key
loaded (Call.remove_key j ∷ cs) key = not (key == j) && loaded cs key

-- The data manager holds the keys of the priority set, each once.
pub record IsSynced {S : Type 0} (c : CacheReplacement S) : Type 0 where
  pub distinct : AreDistinct c.priority_set
  pub same : (key : ℕ) → loaded c.calls key ≡ contains c.priority_set key

-- From the keys `ks` and the calls `cs`, the loop came to `e`.
record Tracks {S : Type 0} (using : ℕ → Bool) (ks : List ℕ) (cs : List Call) (e : Eviction S)
    : Type 0 where
  distinct : AreDistinct e.priority_set
  kept : (j : ℕ) → contains e.priority_set j ≡ true → contains ks j ≡ true
  used_stay : (j : ℕ) → using j ≡ true → contains ks j ≡ true → contains e.priority_set j ≡ true
  dropped :
      (j : ℕ)
      → loaded e.calls j ≡ (loaded cs j && (not (contains ks j) || contains e.priority_set j))

module _ {S : Type 0} (strategy : Strategy S) (max_size : ℕ) (using : ℕ → Bool) where
  stopped-Tracks :
      (ks : List ℕ) (s : S) (m : List (ℕ × ℕ)) (next erased : ℕ) (cs : List Call) (b : Bool)
      → AreDistinct ks
      → Tracks using ks cs (record {
        strategy_state = s;
        space_map = m;
        next_size = next;
        size_erased = erased;
        calls = cs;
        priority_set = ks;
        enough = b;
      })
  stopped-Tracks ks s m next erased cs b d = record {
    distinct = d;
    kept = λ j c. c;
    used_stay = λ j u c. c;
    dropped = λ j. ground arith;
  }

  keep-Tracks :
      (k : ℕ) (ks : List ℕ) (cs : List Call) (e : Eviction S)
      → contains ks k ≡ false
      → Tracks using ks cs e
      → Tracks using (k ∷ ks) cs (keep k e)
  unfolding contains AreDistinct keep
  keep-Tracks k ks cs e d h = record {
    distinct = (ground (arith, h.kept k, d), h.distinct);
    kept = λ j c. ground (arith, h.kept j);
    used_stay = λ j u c. ground (arith, h.used_stay j);
    dropped = λ j. ground (arith, h.dropped j, ap (contains ks) {x = j} {y = k});
  }

  drop-Tracks :
      (k : ℕ) (ks : List ℕ) (cs : List Call) (e : Eviction S)
      → contains ks k ≡ false
      → using k ≡ false
      → Tracks using ks (Call.remove_key k ∷ cs) e
      → Tracks using (k ∷ ks) cs e
  unfolding contains loaded
  drop-Tracks k ks cs e d u h = record {
    distinct = h.distinct;
    kept = λ j c. ground (arith, h.kept j c);
    used_stay = λ j v c. ground (arith, h.used_stay j, u, v, ap using {x = j} {y = k});
    dropped = λ j. ground (arith, h.dropped j, h.kept j, ap (contains ks) {x = j} {y = k}, d);
  }

  evict-Tracks :
      (ks : List ℕ) (s : S) (m : List (ℕ × ℕ)) (next erased : ℕ) (cs : List Call)
      → AreDistinct ks
      → Tracks using ks cs (evict strategy max_size using ks s m next erased cs)
  unfolding evict AreDistinct
  evict-Tracks [] s m next erased cs d = stopped-Tracks [] s m next erased cs _ tt
  evict-Tracks (k ∷ ks) s m next erased cs d =
      if_both (Tracks using (k ∷ ks) cs) (ltb max_size next) _ _
        (λ over.
          if_both (Tracks using (k ∷ ks) cs) (using k) _ _
            (λ used. keep-Tracks k ks cs _ d.0 (evict-Tracks ks s m next erased cs d.1))
            (λ free. drop-Tracks k ks cs _ d.0 free (evict-Tracks ks _ _ _ _ _ d.1)))
        (λ fits. stopped-Tracks (k ∷ ks) s m next erased cs true d)

-- What a call of `hit_key` for `key` makes of `c`.
record IsHit {S : Type 0} (c : CacheReplacement S) (key : ℕ) (r : Bool × CacheReplacement S)
    : Type 0 where
  synced : IsSynced r.1
  used_stay :
      (j : ℕ)
      → is_using c j ≡ true
      → contains c.priority_set j ≡ true
      → contains r.1.priority_set j ≡ true
  resident : r.0 ≡ true → contains r.1.priority_set key ≡ true

module _ {S : Type 0} (strategy : Strategy S) (c : CacheReplacement S) (key : ℕ)
    (h : IsSynced c) where
  rehit-IsHit : contains c.priority_set key ≡ true → IsHit c key (rehit strategy c key)
  unfolding rehit
  rehit-IsHit there =
      let s = strategy.hit_key c.strategy_state key in
      let left = remove c.priority_set key in
      let members = λ (j : ℕ). contains-insert strategy s left key j in
      let others = λ (j : ℕ). contains-remove c.priority_set key j h.distinct in
      record {
        synced = record {
          distinct =
              AreDistinct-insert strategy s left key
                (AreDistinct-remove c.priority_set key h.distinct) (others key ∙ ground arith);
          same = λ j. ground (
            arith,
            h.same j,
            members j,
            others j,
            there,
            ap (contains c.priority_set) {x = j} {y = key},
          );
        };
        used_stay = λ j u t. ground (arith, members j, others j, t);
        resident = λ _. ground (arith, members key);
      }

  unchanged-IsHit :
      (s : S) (m : List (ℕ × ℕ))
      → IsHit c key (false, record c { strategy_state = s; space_map = m })
  unchanged-IsHit s m = record {
    synced = record { distinct = h.distinct; same = h.same };
    used_stay = λ j u t. t;
    resident = λ e. ground arith;
  }

  finish-IsHit :
      (m : List (ℕ × ℕ)) (required : ℕ) (e : Eviction S)
      → contains c.priority_set key ≡ false
      → Tracks (is_using c) c.priority_set c.calls e
      → IsHit c key (finish strategy (record c { space_map = m }) key required e)
  unfolding finish loaded
  finish-IsHit m required e out t =
      let s = strategy.hit_key e.strategy_state key in
      let members = λ (j : ℕ). contains-insert strategy s e.priority_set key j in
      let left : (j : ℕ) → loaded e.calls j ≡ contains e.priority_set j =
        λ j. ground (arith, h.same j, t.dropped j, t.kept j) in
      if_both {A = Bool × CacheReplacement S} (IsHit c key) e.enough _ _
        (λ enough. record {
          synced = record {
            distinct =
                AreDistinct-insert strategy s e.priority_set key t.distinct
                  (ground (arith, t.kept key));
            same = λ j. ground (arith, left j, members j);
          };
          used_stay = λ j u there. ground (arith, members j, t.used_stay j u there);
          resident = λ _. ground (arith, members key);
        })
        (λ short. record {
          synced = record { distinct = t.distinct; same = left };
          used_stay = t.used_stay;
          resident = λ e. ground arith;
        })

  hit_key-IsHit : (required : ℕ) → IsHit c key (hit_key strategy c key required)
  unfolding refuse load_key is_using
  hit_key-IsHit required =
      let load = λ (m : List (ℕ × ℕ)) (out : contains c.priority_set key ≡ false).
        finish-IsHit m required _ out (
          evict-Tracks strategy c.max_size_allowed (is_using c) c.priority_set c.strategy_state m
            (add64 required c.size_used) 0 c.calls h.distinct) in
      hit_key-cases strategy (IsHit c key) c key required
        (unchanged-IsHit c.strategy_state c.space_map) rehit-IsHit (λ out. unchanged-IsHit _ _)
        (λ small out. load c.space_map out) (λ small out. load _ out)

  -- If the keys that the data manager has been told to hold are those of the priority set, each
  -- once, then they are so after `hit_key`.
  pub hit_key-IsSynced : (required : ℕ) → IsSynced (hit_key strategy c key required).1
  hit_key-IsSynced required = (hit_key-IsHit required).synced

  -- A key that is in memory and in use stays in memory, whatever `hit_key` is called for.
  pub hit_key-keeps_used :
      (required j : ℕ)
      → is_using c j ≡ true
      → contains c.priority_set j ≡ true
      → contains (hit_key strategy c key required).1.priority_set j ≡ true
  hit_key-keeps_used required j = (hit_key-IsHit required).used_stay j

  -- When `hit_key` returns `true`, the data manager has been told to hold the key.
  pub hit_key-loaded :
      (required : ℕ)
      → (hit_key strategy c key required).0 ≡ true
      → loaded (hit_key strategy c key required).1.calls key ≡ true
  hit_key-loaded required e =
      let hit = hit_key-IsHit required in hit.synced.same key ∙ hit.resident e
