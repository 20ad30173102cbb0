-- ===== src/ExternalSort/Parallel/Segments.antt =====
-- algorithms/triple_external_sort.hpp: what is left of a segment while `parallel_sort` merges.
use rdfcache_k.Prelude.{
  subst, ℕ, zero, suc, ◌+◌, ◌<◌, ◌≤◌, ◌≡◌, refl, sym, arith, ap, ◌∙◌, List, [], ◌∷◌, ◌++◌,
  append_assoc, length, length-append, get_elem?, Option, some, none, Bool, true, false,
}
use mathlib.Core.List.{Permᴰ as Perm}
use mathlib.Core.List.Permᴰ as Perm
use rdfcache_k.ExternalSort.Triples.{TripleValue}
use rdfcache_k.ExternalSort.Orders.{Sorted}
use rdfcache_k.ExternalSort.Library.{Entry}
use rdfcache_k.ExternalSort.Parallel.{is_end}

-- The element behind the first ones.
pub get_elem?-append :
    (pre : List TripleValue) (t : TripleValue) (post : List TripleValue) (i : ℕ)
    → i ≡ length pre
    → get_elem? (pre ++ t ∷ post) i ≡ some t
get_elem?-append [] t post zero e = refl
get_elem?-append [] t post (suc i) e = absurd (omega arith)
get_elem?-append (x ∷ pre) t post zero e = absurd (omega arith)
get_elem?-append (x ∷ pre) t post (suc i) e = get_elem?-append pre t post i (omega arith)

swap_parts : (xs ys zs : List TripleValue) → Perm (xs ++ (ys ++ zs)) (ys ++ (xs ++ zs))
swap_parts xs ys zs =
    subst (λ ts. Perm ts (ys ++ (xs ++ zs))) (append_assoc xs ys zs)
      (subst (λ ts. Perm ((xs ++ ys) ++ zs) ts) (append_assoc ys xs zs)
        (Perm.append_right zs (Perm.append_comm xs ys)))

module _ (ends : List ℕ) (triples : List TripleValue) where
  -- From the place `i` on, the segment goes on with these triples, and then ends.
  unfoldable pub GoesOn : ℕ → List TripleValue → Type 0
  GoesOn i [] = is_end ends i ≡ true
  GoesOn i (t ∷ ts) = (is_end ends i ≡ false) × (get_elem? triples i ≡ some t) × GoesOn (suc i) ts

  -- What is left of the segment from a place on, for at most `n` triples.
  unfoldable pub left_of : ℕ → ℕ → List TripleValue
  left_of zero i = []
  left_of (suc n) i = left_from (is_end ends i) (get_elem? triples i) (left_of n (suc i))
    where
      left_from : Bool → Option TripleValue → List TripleValue → List TripleValue
      left_from true o rest = []
      left_from false none rest = []
      left_from false (some t) rest = t ∷ rest

  pub left_of-GoesOn :
      (n i : ℕ) (ts : List TripleValue) → length ts ≤ n → GoesOn i ts → left_of n i ≡ ts
  unfolding left_of GoesOn
  left_of-GoesOn zero i [] h g = refl
  left_of-GoesOn (suc n) i [] h g = rw g refl
  left_of-GoesOn zero i (t ∷ ts) h g = absurd (omega arith)
  left_of-GoesOn (suc n) i (t ∷ ts) h (inside, found, rest) =
      rw (inside, found, left_of-GoesOn n (suc i) ts (omega arith) rest) refl

  pub GoesOn-part :
      (pre ts post : List TripleValue) (i b : ℕ)
      → triples ≡ pre ++ (ts ++ post)
      → length pre ≡ i
      → i + length ts ≡ b
      → ((j : ℕ) → i ≤ j → j < b → is_end ends j ≡ false)
      → is_end ends b ≡ true
      → GoesOn i ts
  unfolding GoesOn
  GoesOn-part pre [] post i b e k size inside last =
      let same : b ≡ i = omega arith in subst (λ j. is_end ends j ≡ true) same last
  GoesOn-part pre (t ∷ ts) post i b e k size inside last = (
    inside i (omega arith) (omega arith),
    rw e (get_elem?-append pre t (ts ++ post) i (sym k)),
    GoesOn-part (pre ++ t ∷ []) ts post (suc i) b (e ∙ sym (append_assoc pre (t ∷ []) (ts ++ post)))
        (omega (arith, length-append pre (t ∷ []))) (omega arith)
        (λ j g h. inside j (omega arith) h) last,
  )

  -- The triple of an entry and what is left of its segment.
  unfoldable pub whole : Entry → List TripleValue
  whole e = e.0 ∷ left_of (length triples) (suc e.1)

  -- An entry stands at the front of a sorted rest of its segment.
  pub record IsFront (less : TripleValue → TripleValue → Bool) (e : Entry) : Type 0 where
    pub behind : List TripleValue
    pub goes_on : GoesOn (suc e.1) behind
    pub few : length behind ≤ length triples
    pub sorted : Sorted less (e.0 ∷ behind)

  pub whole-IsFront :
      (less : TripleValue → TripleValue → Bool) (e : Entry) (h : IsFront less e)
      → whole e ≡ e.0 ∷ h.behind
  unfolding whole
  whole-IsFront less e h =
      ap (◌∷◌ e.0) (left_of-GoesOn (length triples) (suc e.1) h.behind h.few h.goes_on)

  unfoldable pub all_left : List Entry → List TripleValue
  all_left [] = []
  all_left (e ∷ q) = whole e ++ all_left q

  pub all_left-Perm : {p q : List Entry} → Perm p q → Perm (all_left p) (all_left q)
  unfolding all_left
  all_left-Perm Perm.nil = Perm.nil
  all_left-Perm (Perm.cons {a = a} {l₁ = p} {l₂ = q} e d) =
      subst (λ ts. Perm (whole a ++ all_left p) (ts ++ all_left q)) (ap whole e)
        (Perm.append_left (whole a) (all_left-Perm d))
  all_left-Perm (Perm.swap {a = a} {b = b} {b' = b'} {l = l} e f) =
      subst (λ ts. Perm (whole a ++ (whole b ++ all_left l)) (ts ++ (whole b' ++ all_left l)))
        (ap whole f)
        (subst (λ ts. Perm (whole a ++ (whole b ++ all_left l)) (whole b ++ (ts ++ all_left l)))
          (ap whole e) (swap_parts (whole a) (whole b) (all_left l)))
  all_left-Perm (Perm.trans d e) = Perm.trans (all_left-Perm d) (all_left-Perm e)
