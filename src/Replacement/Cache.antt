-- ===== src/Replacement/Cache.antt =====
-- core/replacement/CacheReplacement.cpp: the keys in memory, in the order of their costs, within a
-- limit on their total size.
pub mod Accounting
pub mod Loop
pub mod Cases
pub mod Capacity
pub mod Residents
pub mod Ordered
pub mod OrderKept
pub mod Victims
pub mod Users
use rdfcache_k.Prelude.{
  ℕ, zero, suc, ◌+◌, ◌-◌, ◌%◌, ◌^◌, Bool, true, false, Option, none, some, List, [], ◌∷◌, ◌++◌, ltb,
  ◌==◌, ◌&&◌, ◌||◌, not, if◌then◌else◌, find_value, assign, erase_key, add64,
}
use rdfcache_k.Replacement.Strategy.{Strategy, cost_lt, cost_eq}

-- The calls of the data manager.
pub data Call : Type 0 where
  retrieve_key remove_key : ℕ → Call

-- `a - b` on sixty-four bits.
unfoldable pub sub64 : ℕ → ℕ → ℕ
sub64 a b = (a + (2 ^ 64 - b)) % 2 ^ 64

unfoldable pub size_or_zero : Option ℕ → ℕ
size_or_zero none = 0
size_or_zero (some n) = n

-- The value of `space_map[key]`.
unfoldable pub size_of : List (ℕ × ℕ) → ℕ → ℕ
size_of space_map key = size_or_zero (find_value space_map key)

unfoldable pub contains : List ℕ → ℕ → Bool
contains [] key = false
contains (k ∷ ks) key = key == k || contains ks key

-- `priority_set.erase(it)` at the place of a key.
unfoldable pub remove : List ℕ → ℕ → List ℕ
remove [] key = []
remove (k ∷ ks) key = let rest = remove ks key in if key == k then ks else k ∷ rest

unfoldable pub is_found : Option ℕ → Bool
is_found none = false
is_found (some n) = true

-- `priority_set` in its order, and the calls made so far. `in_use` counts the users of a key.
pub record CacheReplacement (S : Type 0) : Type 0 where
  pub strategy_state : S
  pub priority_set : List ℕ
  pub space_map : List (ℕ × ℕ)
  pub max_size_allowed : ℕ
  pub size_used : ℕ
  pub in_use : List (ℕ × ℕ)
  pub calls : List Call

unfoldable pub count_user : Option ℕ → ℕ
count_user none = 1
count_user (some n) = suc n

unfoldable pub mark_using : {S : Type 0} → CacheReplacement S → ℕ → CacheReplacement S
mark_using c key = record c { in_use = assign c.in_use key (count_user (find_value c.in_use key)) }

-- `second > 0 ? second - 1 : 0`, and an entry that comes to zero is erased.
unfoldable pub mark_ready_found :
    {S : Type 0} → CacheReplacement S → ℕ → Option ℕ → CacheReplacement S
mark_ready_found c key none = c
mark_ready_found c key (some n) =
    if n - 1 == 0
    then record c { in_use = erase_key c.in_use key }
    else record c { in_use = assign c.in_use key (n - 1) }

unfoldable pub mark_ready : {S : Type 0} → CacheReplacement S → ℕ → CacheReplacement S
mark_ready c key = mark_ready_found c key (find_value c.in_use key)

unfoldable pub is_using : {S : Type 0} → CacheReplacement S → ℕ → Bool
is_using c key = is_found (find_value c.in_use key)

-- What the eviction loop changes: the part of the priority set that it has passed over is in front
-- of the part that it has not reached.
pub record Eviction (S : Type 0) : Type 0 where
  pub strategy_state : S
  pub space_map : List (ℕ × ℕ)
  pub next_size : ℕ
  pub size_erased : ℕ
  pub calls : List Call
  pub priority_set : List ℕ
  pub enough : Bool

-- `it++`: the key stays.
unfoldable pub keep : {S : Type 0} → ℕ → Eviction S → Eviction S
keep k e = record e { priority_set = k ∷ e.priority_set }

module _ {S : Type 0} (strategy : Strategy S) where
  -- `StrategyWrapper::operator()`.
  unfoldable pub precedes : S → ℕ → ℕ → Bool
  precedes s lhs rhs =
      let left = strategy.cost_function s lhs in
      let right = strategy.cost_function s rhs in
      if cost_eq left right then ltb lhs rhs else cost_lt left right

  -- `priority_set.insert(key)`.
  unfoldable pub insert : S → List ℕ → ℕ → List ℕ
  insert s [] key = key ∷ []
  insert s (k ∷ ks) key =
      let rest = insert s ks key in if precedes s key k then key ∷ k ∷ ks else k ∷ rest

  -- The loop from the iterator on. A key in use is passed over; another one is dropped.
  unfoldable pub evict :
      (max_size_allowed : ℕ)
      → (ℕ → Bool)
      → List ℕ
      → S
      → List (ℕ × ℕ)
      → (next_size size_erased : ℕ) → List Call
      → Eviction S
  evict max_size using [] s sizes next_size erased calls = record {
    strategy_state = s;
    space_map = sizes;
    next_size = next_size;
    size_erased = erased;
    calls = calls;
    priority_set = [];
    enough = not (ltb max_size next_size);
  }
  evict max_size using (k ∷ ks) s sizes next_size erased calls =
      let passed = keep k (evict max_size using ks s sizes next_size erased calls) in
      let size = size_of sizes k in
      let dropped =
        evict max_size using ks (strategy.remove_key s k) (erase_key sizes k) (sub64 next_size size)
          (add64 erased size) (remove_key k ∷ calls) in
      if ltb max_size next_size then (if using k then passed else dropped) else record {
        strategy_state = s;
        space_map = sizes;
        next_size = next_size;
        size_erased = erased;
        calls = calls;
        priority_set = k ∷ ks;
        enough = true;
      }

  -- After the loop: either there was not enough to free, or the key comes in.
  unfoldable pub finish :
      CacheReplacement S → (key space_required : ℕ) → Eviction S → Bool × CacheReplacement S
  finish c key space_required e =
      let s = strategy.hit_key e.strategy_state key in
      if e.enough
      then (
        true,
        record c {
          strategy_state = s;
          priority_set = insert s e.priority_set key;
          space_map = assign e.space_map key space_required;
          size_used = e.next_size;
          calls = retrieve_key key ∷ e.calls;
        },
      )
      else (
        false,
        record c {
          strategy_state = e.strategy_state;
          priority_set = e.priority_set;
          space_map = e.space_map;
          size_used = sub64 c.size_used e.size_erased;
          calls = e.calls;
        },
      )

  unfoldable pub load_key :
      CacheReplacement S → (key space_required : ℕ) → Bool × CacheReplacement S
  load_key c key space_required = finish c key space_required (
      evict c.max_size_allowed (is_using c) c.priority_set c.strategy_state c.space_map
        (add64 space_required c.size_used) 0 c.calls)

  -- The key stays out.
  unfoldable pub refuse : CacheReplacement S → ℕ → List (ℕ × ℕ) → Bool × CacheReplacement S
  refuse c key sizes = (
    false,
    record c {
      strategy_state =
          (if strategy.should_hit_without_retrieval
            then strategy.hit_key c.strategy_state key
            else c.strategy_state);
      space_map = sizes;
    },
  )

  -- A key in memory is taken out, hit and put back.
  unfoldable pub rehit : CacheReplacement S → ℕ → Bool × CacheReplacement S
  rehit c key =
      let s = strategy.hit_key c.strategy_state key in
      (
        true,
        record c { strategy_state = s; priority_set = insert s (remove c.priority_set key) key },
      )

  unfoldable pub make_room :
      CacheReplacement S → (key space_required : ℕ) → Bool × CacheReplacement S
  make_room c key space_required =
      let asked =
        strategy.should_discard_others_for_key c.strategy_state key c.priority_set c.space_map in
      if asked.0
      then load_key (record c { space_map = asked.1 }) key space_required
      else refuse c key asked.1

  unfoldable pub hit_key : CacheReplacement S → (key space_required : ℕ) → Bool × CacheReplacement S
  hit_key c key space_required =
      if ltb c.max_size_allowed space_required
      then (false, c)
      else (if contains c.priority_set key
          then rehit c key
          else (if ltb c.max_size_allowed (add64 space_required c.size_used)
              then make_room c key space_required
              else load_key c key space_required))
