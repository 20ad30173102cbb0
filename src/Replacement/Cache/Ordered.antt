-- ===== src/Replacement/Cache/Ordered.antt =====
-- core/replacement/CacheReplacement.cpp: the order of the priority set under a strategy that changes.
use rdfcache_k.Prelude.{
  subst, inr, inl, ◌∙◌, Bool-cases, sym, ◌||◌, if_both, ◌==◌, ap, ◌≢◌, ◌≡◌, [], ◌∷◌, true, false,
  arith, ℕ, List, Bool,
}
use rdfcache_k.Replacement.Strategy.{Strategy}
use rdfcache_k.Replacement.Cache.{contains, precedes, remove, insert}
use rdfcache_k.Replacement.Cache.Accounting.{AreDistinct, contains-insert}
use rdfcache_k.Replacement.Cache.Loop.{ne_of_contains}

-- What the order of the set needs of a strategy: a key that is hit is tracked from then on, until
-- it is removed, and a hit or a removal moves no other tracked key past another.
pub record StrategyLaws {S : Type 0} (strategy : Strategy S) : Type 0 where
  pub tracked : S → ℕ → Bool
  pub hit_tracks : (s : S) (k : ℕ) → tracked (strategy.hit_key s k) k ≡ true
  pub hit_keeps :
      (s : S) (k j : ℕ) → j ≢ k → tracked s j ≡ true → tracked (strategy.hit_key s k) j ≡ true
  pub remove_keeps :
      (s : S) (k j : ℕ) → j ≢ k → tracked s j ≡ true → tracked (strategy.remove_key s k) j ≡ true
  pub hit_order :
      (s : S) (k i j : ℕ)
      → i ≢ k
      → j ≢ k
      → tracked s i ≡ true
      → tracked s j ≡ true
      → precedes strategy (strategy.hit_key s k) i j ≡ precedes strategy s i j
  pub remove_order :
      (s : S) (k i j : ℕ)
      → i ≢ k
      → j ≢ k
      → tracked s i ≡ true
      → tracked s j ≡ true
      → precedes strategy (strategy.remove_key s k) i j ≡ precedes strategy s i j

module _ {S : Type 0} (strategy : Strategy S) where
  precedes_irreflexive : (s : S) (k : ℕ) → precedes strategy s k k ≡ false
  unfolding precedes
  precedes_irreflexive s k = ground arith

  precedes_total :
      (s : S) (j k : ℕ) → j ≢ k → precedes strategy s j k ≡ false → precedes strategy s k j ≡ true
  unfolding precedes
  precedes_total s j k h e = ground arith

  precedes_trans :
      (s : S) (i j k : ℕ)
      → precedes strategy s i j ≡ true
      → precedes strategy s j k ≡ true
      → precedes strategy s i k ≡ true
  unfolding precedes
  precedes_trans s i j k h e = ground arith

-- What holds at a key and at each of the others holds at all of them.
pub contains-all :
    (P : ℕ → Type 0) (key : ℕ) (b : ℕ → Bool)
    → P key
    → ((j : ℕ) → b j ≡ true → P j)
    → (j : ℕ) → (j == key || b j) ≡ true
    → P j
contains-all P key b p h j c = elim (Bool-cases (b j)) [
  | inl t ↦ h j t
  | inr f ↦ subst P {x = key} {y = j} (ground (arith, c, f)) p
]

pub contains-remove_subset :
    (ks : List ℕ) (key j : ℕ) → contains (remove ks key) j ≡ true → contains ks j ≡ true
unfolding contains remove
contains-remove_subset [] key j c = c
contains-remove_subset (k ∷ ks) key j c = ground (arith, contains-remove_subset ks key j)

module _ {S : Type 0} (strategy : Strategy S) (laws : StrategyLaws strategy) where
  -- Every key is tracked and precedes those behind it.
  unfoldable pub IsQueue : S → List ℕ → Type 0
  IsQueue s [] = Unit {0}
  IsQueue s (k ∷ ks) =
      (laws.tracked s k ≡ true)
      × ((j : ℕ) → contains ks j ≡ true → precedes strategy s k j ≡ true)
      × IsQueue s ks

  pub IsQueue-tracked :
      (s : S) (ks : List ℕ) (j : ℕ) → IsQueue s ks → contains ks j ≡ true → laws.tracked s j ≡ true
  unfolding IsQueue contains
  IsQueue-tracked s [] j q c = absurd (ground arith)
  IsQueue-tracked s (k ∷ ks) j q c =
      ground (arith, q.0, IsQueue-tracked s ks j q.2, ap (laws.tracked s) {x = j} {y = k})

  -- No key stands behind itself.
  pub IsQueue-fresh :
      (s : S) (k : ℕ) (ks : List ℕ)
      → ((j : ℕ) → contains ks j ≡ true → precedes strategy s k j ≡ true)
      → contains ks k ≡ false
  IsQueue-fresh s k ks h = ground (arith, h k, precedes_irreflexive strategy s k)

  pub IsQueue-AreDistinct : (s : S) (ks : List ℕ) → IsQueue s ks → AreDistinct ks
  unfolding IsQueue AreDistinct
  IsQueue-AreDistinct s [] q = tt
  IsQueue-AreDistinct s (k ∷ ks) q = (IsQueue-fresh s k ks q.1, IsQueue-AreDistinct s ks q.2)

  pub insert-IsQueue :
      (s : S) (ks : List ℕ) (key : ℕ)
      → laws.tracked s key ≡ true
      → contains ks key ≡ false
      → IsQueue s ks
      → IsQueue s (insert strategy s ks key)
  unfolding IsQueue contains insert
  insert-IsQueue s [] key t out q = (t, (λ j c. absurd (ground arith)), tt)
  insert-IsQueue s (k ∷ ks) key t out q =
      if_both (IsQueue s) (precedes strategy s key k) _ _
        (λ first. (
          t,
          contains-all (λ j. precedes strategy s key j ≡ true) k (contains ks) first
              (λ j c. precedes_trans strategy s key k j first (q.1 j c)),
          q,
        ))
        (λ later. (
          q.0,
          (λ j c.
              contains-all (λ j. precedes strategy s k j ≡ true) key (contains ks)
                (precedes_total strategy s key k (λ e. ground (arith, out, e)) later) q.1 j
                (sym (contains-insert strategy s ks key j) ∙ c)),
          insert-IsQueue s ks key t (ground (arith, out)) q.2,
        ))

  pub remove-IsQueue : (s : S) (ks : List ℕ) (key : ℕ) → IsQueue s ks → IsQueue s (remove ks key)
  unfolding IsQueue contains remove
  remove-IsQueue s [] key q = q
  remove-IsQueue s (k ∷ ks) key q =
      if_both (IsQueue s) (key == k) _ _ (λ here. q.2)
        (λ there.
          (q.0, (λ j c. q.1 j (contains-remove_subset ks key j c)), remove-IsQueue s ks key q.2))

  -- A change of the strategy that keeps the tracked keys among `ks` in their order.
  change-IsQueue :
      (s s' : S) (ks : List ℕ)
      → ((j : ℕ) → contains ks j ≡ true → laws.tracked s j ≡ true → laws.tracked s' j ≡ true)
      → ((i j : ℕ)
          → contains ks i ≡ true
          → contains ks j ≡ true
          → laws.tracked s i ≡ true
          → laws.tracked s j ≡ true
          → precedes strategy s' i j ≡ precedes strategy s i j)
      → IsQueue s ks
      → IsQueue s' ks
  unfolding IsQueue contains
  change-IsQueue s s' [] keeps order q = tt
  change-IsQueue s s' (k ∷ ks) keeps order q =
      let here : contains (k ∷ ks) k ≡ true = ground arith in
      let behind = λ (j : ℕ) (c : contains ks j ≡ true).
        let t : contains (k ∷ ks) j ≡ true = ground (arith, c) in t in
      (
        keeps k here q.0,
        (λ j c. order k j here (behind j c) q.0 (IsQueue-tracked s ks j q.2 c) ∙ q.1 j c),
        change-IsQueue s s' ks (λ j c. keeps j (behind j c))
            (λ i j c d. order i j (behind i c) (behind j d)) q.2,
      )

  pub hit-IsQueue :
      (s : S) (ks : List ℕ) (key : ℕ)
      → contains ks key ≡ false
      → IsQueue s ks
      → IsQueue (strategy.hit_key s key) ks
  hit-IsQueue s ks key out =
      change-IsQueue s (strategy.hit_key s key) ks
        (λ j c. laws.hit_keeps s key j (ne_of_contains ks j key c out))
        (λ i j c d.
          laws.hit_order s key i j (ne_of_contains ks i key c out) (ne_of_contains ks j key d out))

  pub drop-IsQueue :
      (s : S) (ks : List ℕ) (key : ℕ)
      → contains ks key ≡ false
      → IsQueue s ks
      → IsQueue (strategy.remove_key s key) ks
  drop-IsQueue s ks key out =
      change-IsQueue s (strategy.remove_key s key) ks
        (λ j c. laws.remove_keeps s key j (ne_of_contains ks j key c out))
        (λ i j c d.
          laws.remove_order s key i j (ne_of_contains ks i key c out)
            (ne_of_contains ks j key d out))
