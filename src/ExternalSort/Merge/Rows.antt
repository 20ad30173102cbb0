-- ===== src/ExternalSort/Merge/Rows.antt =====
-- algorithms/triple_external_sort.hpp: the rows of triples that the files of a merge have left.
use rdfcache_k.Prelude.{
  All-append, subst, ℕ, zero, suc, ◌<◌, ◌≡◌, ◌≢◌, refl, arith, ap, List, [], ◌∷◌, some, length,
  get_or, get_elem?, set, All,
}
use mathlib.Core.List.{Permᴰ as Perm}
use mathlib.Core.List.Permᴰ as Perm
use mathlib.Core.Option.{some-injective}
use mathlib.Core.List.{nil≢cons}
use rdfcache_k.ExternalSort.Triples.{TripleValue}
use rdfcache_k.ExternalSort.Orders.{concat}
use rdfcache_k.ExternalSort.Merge.{MergeSource}
use rdfcache_k.ExternalSort.Merge.Source.{Holds}

-- The row of a place, which is empty behind the last one.
abbrev pub row : List (List TripleValue) → ℕ → List TripleValue
row rows i = get_or rows i []

-- Each source holds its row.
unfoldable pub AllHold : List MergeSource → List (List TripleValue) → Type 0
AllHold [] [] = Unit {0}
AllHold [] (r ∷ rows) = ⊥
AllHold (s ∷ sources) [] = ⊥
AllHold (s ∷ sources) (r ∷ rows) = Holds s r × AllHold sources rows

pub Holds-row :
    (sources : List MergeSource) (rows : List (List TripleValue)) (i : ℕ) (s : MergeSource)
    → AllHold sources rows
    → get_elem? sources i ≡ some s
    → Holds s (row rows i)
unfolding AllHold
Holds-row [] [] i s h e = absurd (ground arith)
Holds-row [] (r ∷ rows) i s h e = absurd h
Holds-row (x ∷ sources) [] i s h e = absurd h
Holds-row (x ∷ sources) (r ∷ rows) zero s h e = subst (λ v. Holds v r) (some-injective _ _ e) h.0
Holds-row (x ∷ sources) (r ∷ rows) (suc i) s h e = Holds-row sources rows i s h.1 e

pub AllHold-set :
    (sources : List MergeSource) (rows : List (List TripleValue)) (i : ℕ) (s : MergeSource)
    (r : List TripleValue)
    → AllHold sources rows
    → Holds s r
    → AllHold (set sources i s) (set rows i r)
unfolding AllHold
AllHold-set [] [] i s r h k = tt
AllHold-set [] (x ∷ rows) i s r h k = absurd h
AllHold-set (x ∷ sources) [] i s r h k = absurd h
AllHold-set (x ∷ sources) (y ∷ rows) zero s r h k = (k, h.1)
AllHold-set (x ∷ sources) (y ∷ rows) (suc i) s r h k = (h.0, AllHold-set sources rows i s r h.1 k)

pub AllHold-length :
    (sources : List MergeSource) (rows : List (List TripleValue))
    → AllHold sources rows
    → length sources ≡ length rows
unfolding AllHold
AllHold-length [] [] h = refl
AllHold-length [] (r ∷ rows) h = absurd h
AllHold-length (s ∷ sources) [] h = absurd h
AllHold-length (s ∷ sources) (r ∷ rows) h = ap suc (AllHold-length sources rows h.1)

pub row-set_self :
    (rows : List (List TripleValue)) (i : ℕ) (r : List TripleValue)
    → i < length rows
    → row (set rows i r) i ≡ r
row-set_self [] i r h = absurd (omega arith)
row-set_self (x ∷ rows) zero r h = refl
row-set_self (x ∷ rows) (suc i) r h = row-set_self rows i r (omega arith)

pub row-set_ne :
    (rows : List (List TripleValue)) (i j : ℕ) (r : List TripleValue)
    → j ≢ i
    → row (set rows i r) j ≡ row rows j
row-set_ne [] i j r h = refl
row-set_ne (x ∷ rows) zero zero r h = absurd (h refl)
row-set_ne (x ∷ rows) zero (suc j) r h = refl
row-set_ne (x ∷ rows) (suc i) zero r h = refl
row-set_ne (x ∷ rows) (suc i) (suc j) r h = row-set_ne rows i j r (λ e. h (ap suc e))

-- A row that is not empty has a place.
pub row_place : (rows : List (List TripleValue)) (i : ℕ) → row rows i ≢ [] → i < length rows
row_place [] i h = absurd (h refl)
row_place (x ∷ rows) zero h = omega arith
row_place (x ∷ rows) (suc i) h = omega (arith, row_place rows i h)

-- A property of all triples of all rows.
pub All-rows :
    (P : TripleValue → Type 0) (rows : List (List TripleValue))
    → ((i : ℕ) → i < length rows → All P (row rows i))
    → All P (concat rows)
unfolding concat
All-rows P [] h = tt
All-rows P (x ∷ rows) h =
    All-append P x (concat rows) (h 0 (omega arith))
      (All-rows P rows (λ i k. h (suc i) (omega arith)))

-- Of all rows: a property of one.
pub All-row :
    (P : List TripleValue → Type 0) (rows : List (List TripleValue)) (i : ℕ)
    → P []
    → All P rows
    → P (row rows i)
All-row P [] i e h = e
All-row P (x ∷ rows) zero e h = h.0
All-row P (x ∷ rows) (suc i) e h = All-row P rows i e h.1

pub All-set :
    (P : List TripleValue → Type 0) (rows : List (List TripleValue)) (i : ℕ) (r : List TripleValue)
    → P r
    → All P rows
    → All P (set rows i r)
All-set P [] i r k h = tt
All-set P (x ∷ rows) zero r k h = (k, h.1)
All-set P (x ∷ rows) (suc i) r k h = (h.0, All-set P rows i r k h.1)

-- Taking the first of a row takes it out of all the triples.
pub concat-taken :
    (rows : List (List TripleValue)) (i : ℕ) (t : TripleValue) (ts : List TripleValue)
    → row rows i ≡ t ∷ ts
    → Perm (concat rows) (t ∷ concat (set rows i ts))
unfolding concat
concat-taken [] i t ts e = absurd (nil≢cons e)
concat-taken (x ∷ rows) zero t ts e = rw e (Perm.refl _)
concat-taken (x ∷ rows) (suc i) t ts e =
    Perm.trans (Perm.append_left x (concat-taken rows i t ts e))
      (Perm.middle t x (concat (set rows i ts)))

-- An empty row stays as it is.
pub set_empty_row :
    (rows : List (List TripleValue)) (i : ℕ) → row rows i ≡ [] → set rows i [] ≡ rows
set_empty_row [] i e = refl
set_empty_row (x ∷ rows) zero e = rw e refl
set_empty_row (x ∷ rows) (suc i) e = ap (◌∷◌ x) (set_empty_row rows i e)
