-- ===== src/Replacement/Cache/Loop.antt =====
-- core/replacement/CacheReplacement.cpp: what the loop of `hit_key` that drops keys leaves.
use rdfcache_k.Prelude.{
  if_both, Bool-cases, ltb, inr, ap, not, ◌∙◌, inl, ◌≢◌, add64, ◌-◌, ◌^◌, erase_key, ◌⊎◌, ◌<◌, ◌≡◌,
  ◌+◌, ◌≤◌, refl, [], ◌∷◌, true, false, arith, ℕ, List, Bool,
}
use rdfcache_k.Replacement.Strategy.{Strategy}
use rdfcache_k.Replacement.Cache.{Call, Eviction, size_of, contains, evict, keep, sub64}
use rdfcache_k.Replacement.Cache.Accounting.{AreDistinct, total_size, total-same, size-erase_ne}

pub sub64_le : (a b : ℕ) → b ≤ a → a < 2 ^ 64 → sub64 a b ≡ a - b
unfolding sub64
sub64_le a b h k = omega arith

add64_fits : (a b : ℕ) → a + b < 2 ^ 64 → add64 a b ≡ a + b
add64_fits a b h = omega arith

-- From the keys `ks` with the sizes `m` and the counters `next` and `erased`, the loop came to `e`:
-- it kept some of the keys with their sizes, and moved the sizes of the others between the counters.
pub record IsEvicted {S : Type 0} (max_size : ℕ) (ks : List ℕ) (m : List (ℕ × ℕ)) (next erased : ℕ)
    (e : Eviction S) : Type 0 where
  pub kept : (j : ℕ) → contains e.priority_set j ≡ true → contains ks j ≡ true
  pub distinct : AreDistinct e.priority_set
  pub same_sizes :
      (j : ℕ)
      → (contains ks j ≡ false) ⊎ (contains e.priority_set j ≡ true)
      → size_of e.space_map j ≡ size_of m j
  pub balance : e.next_size + total_size m ks ≡ next + total_size m e.priority_set
  pub moved : e.size_erased + e.next_size ≡ erased + next
  pub within : e.enough ≡ true → e.next_size ≤ max_size

pub ne_of_contains : (ks : List ℕ) (j k : ℕ) → contains ks j ≡ true → contains ks k ≡ false → j ≢ k
ne_of_contains ks j k c d e = ground (arith, ap (contains ks) e)

pub kept_size :
    (k j : ℕ) (ks ps : List ℕ)
    → contains ks k ≡ false
    → (contains (k ∷ ks) j ≡ false) ⊎ (contains (k ∷ ps) j ≡ true)
    → (contains ks j ≡ false) ⊎ (contains ps j ≡ true)
unfolding contains
kept_size k j ks ps d (inl c) = inl (ground (arith, c))
kept_size k j ks ps d (inr c) = elim (Bool-cases (contains ps j)) [
  | inl t ↦ inr t
  | inr f ↦ inl (ap (contains ks) (ground (arith, c, f)) ∙ d)
]

pub dropped_size :
    (k j : ℕ) (ks ps : List ℕ)
    → contains ks k ≡ false
    → ((i : ℕ) → contains ps i ≡ true → contains ks i ≡ true)
    → (contains (k ∷ ks) j ≡ false) ⊎ (contains ps j ≡ true)
    → (j ≢ k) × ((contains ks j ≡ false) ⊎ (contains ps j ≡ true))
unfolding contains
dropped_size k j ks ps d h (inl c) = (λ e. ground (arith, c, e), inl (ground (arith, c)))
dropped_size k j ks ps d h (inr c) = (ne_of_contains ks j k (h j c) d, inr c)

module _ {S : Type 0} (max_size : ℕ) where
  stopped-IsEvicted :
      (s : S) (ks : List ℕ) (m : List (ℕ × ℕ)) (next erased : ℕ) (calls : List Call) (b : Bool)
      → AreDistinct ks
      → (b ≡ true → next ≤ max_size)
      → IsEvicted max_size ks m next erased (record {
        strategy_state = s;
        space_map = m;
        next_size = next;
        size_erased = erased;
        calls = calls;
        priority_set = ks;
        enough = b;
      })
  stopped-IsEvicted s ks m next erased calls b d h = record {
    kept = λ j c. c;
    distinct = d;
    same_sizes = λ j c. refl;
    balance = refl;
    moved = refl;
    within = h;
  }

  keep-IsEvicted :
      (k : ℕ) (ks : List ℕ) (m : List (ℕ × ℕ)) (next erased : ℕ) (e : Eviction S)
      → contains ks k ≡ false
      → IsEvicted max_size ks m next erased e
      → IsEvicted max_size (k ∷ ks) m next erased (keep k e)
  unfolding contains AreDistinct total_size keep
  keep-IsEvicted k ks m next erased e d h = record {
    kept = λ j c. ground (arith, h.kept j);
    distinct = (ground (arith, h.kept k, d), h.distinct);
    same_sizes = λ j c. h.same_sizes j (kept_size k j ks e.priority_set d c);
    balance = omega (arith, h.balance);
    moved = h.moved;
    within = h.within;
  }

  drop-IsEvicted :
      (k : ℕ) (ks : List ℕ) (m : List (ℕ × ℕ)) (next erased : ℕ) (e : Eviction S)
      → contains ks k ≡ false
      → size_of m k ≤ next
      → IsEvicted max_size ks (erase_key m k) (next - size_of m k) (erased + size_of m k) e
      → IsEvicted max_size (k ∷ ks) m next erased e
  unfolding contains total_size
  drop-IsEvicted k ks m next erased e d l h =
      let same : (j : ℕ) → contains ks j ≡ true → size_of (erase_key m k) j ≡ size_of m j =
        λ j c. size-erase_ne m k j (ne_of_contains ks j k c d) in
      record {
        kept = λ j c. ground (arith, h.kept j c);
        distinct = h.distinct;
        same_sizes = λ j c.
            let (different, there) = dropped_size k j ks e.priority_set d h.kept c in
            h.same_sizes j there ∙ size-erase_ne m k j different;
        balance = omega (
          arith,
          h.balance,
          total-same (erase_key m k) m ks same,
          total-same (erase_key m k) m e.priority_set (λ j c. same j (h.kept j c)),
        );
        moved = omega (arith, h.moved);
        within = h.within;
      }

module _ {S : Type 0} (strategy : Strategy S) (max_size : ℕ) (using : ℕ → Bool) where
  pub evict-IsEvicted :
      (ks : List ℕ) (s : S) (m : List (ℕ × ℕ)) (next erased : ℕ) (calls : List Call)
      → AreDistinct ks
      → total_size m ks ≤ next
      → erased + next < 2 ^ 64
      → IsEvicted max_size ks m next erased (evict strategy max_size using ks s m next erased calls)
  unfolding evict AreDistinct total_size
  evict-IsEvicted [] s m next erased calls d l f =
      stopped-IsEvicted max_size s [] m next erased calls (not (ltb max_size next)) tt
        (λ h. ground arith)
  evict-IsEvicted (k ∷ ks) s m next erased calls d l f =
      if_both (IsEvicted max_size (k ∷ ks) m next erased) (ltb max_size next) _ _
        (λ over.
          if_both (IsEvicted max_size (k ∷ ks) m next erased) (using k) _ _
            (λ used.
              keep-IsEvicted max_size k ks m next erased _ d.0
                (evict-IsEvicted ks s m next erased calls d.1 (omega arith) f))
            (λ free. drop-IsEvicted max_size k ks m next erased _ d.0 (omega arith) (
              let same =
                total-same (erase_key m k) m ks
                  (λ j c. size-erase_ne m k j (ne_of_contains ks j k c d.0)) in
              rw
                (
                  sub64_le next (size_of m k) (omega arith) (omega arith),
                  add64_fits erased (size_of m k) (omega arith),
                )
                (evict-IsEvicted ks (strategy.remove_key s k) (erase_key m k) (next - size_of m k)
                  (erased + size_of m k) (Call.remove_key k ∷ calls) d.1 (omega (arith, same))
                  (omega arith)))))
        (λ fits.
          stopped-IsEvicted max_size s (k ∷ ks) m next erased calls true d (λ h. ground arith))
