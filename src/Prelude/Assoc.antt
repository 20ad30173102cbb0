-- ===== src/Prelude/Assoc.antt =====
-- `std::map` and `std::unordered_map` with keys of a machine word: lists of entries in key order.
use Prim.Native.Nat.{ℕ}
use mathlib.Core.Path.{◌≡◌, refl}
use mathlib.Core.Logic.{◌≢◌}
use mathlib.Core.Option.{Option, none, some}
use mathlib.Core.List.{List, [], ◌∷◌}
use native.Mathlib.Omega.{arith}
use rdfcache_k.Prelude.Tests.{◌==◌, if◌then◌else◌, ltb}

module _ {V : Type 0} where
  unfoldable pub find_value : List (ℕ × V) → ℕ → Option V
  find_value [] k = none
  find_value ((k', v) ∷ m) k = if k == k' then some v else find_value m k

  -- `m[k] = v`.
  unfoldable pub assign : List (ℕ × V) → ℕ → V → List (ℕ × V)
  assign [] k v = (k, v) ∷ []
  assign ((k', v') ∷ m) k v =
      let rest = assign m k v in
      if ltb k k' then (k, v) ∷ (k', v') ∷ m else (if k == k' then (k, v) ∷ m else (k', v') ∷ rest)

  unfoldable pub erase_key : List (ℕ × V) → ℕ → List (ℕ × V)
  erase_key [] k = []
  erase_key ((k', v) ∷ m) k = let rest = erase_key m k in if k == k' then rest else (k', v) ∷ rest

  pub find-assign_self : (m : List (ℕ × V)) (k : ℕ) (v : V) → find_value (assign m k v) k ≡ some v
  unfolding find_value assign
  find-assign_self [] k v = ground arith
  find-assign_self ((k', v') ∷ m) k v = ground (arith, find-assign_self m k v)

  pub find-assign_ne :
      (m : List (ℕ × V)) (k j : ℕ) (v : V) → j ≢ k → find_value (assign m k v) j ≡ find_value m j
  unfolding find_value assign
  find-assign_ne [] k j v h = ground arith
  find-assign_ne ((k', v') ∷ m) k j v h = ground (arith, find-assign_ne m k j v h)

  pub find-erase_self : (m : List (ℕ × V)) (k : ℕ) → find_value (erase_key m k) k ≡ none
  unfolding find_value erase_key
  find-erase_self [] k = refl
  find-erase_self ((k', v') ∷ m) k = ground (arith, find-erase_self m k)

  pub find-erase_ne :
      (m : List (ℕ × V)) (k j : ℕ) → j ≢ k → find_value (erase_key m k) j ≡ find_value m j
  unfolding find_value erase_key
  find-erase_ne [] k j h = refl
  find-erase_ne ((k', v') ∷ m) k j h = ground (arith, find-erase_ne m k j h)
