-- ===== src/PathSearch/Directed.antt =====
-- core/algorithms/DirectedPath.cpp: equality and order of paths.
use rdfcache_k.Prelude.{
  subst, ◌≡◌, refl, arith, List, [], ◌∷◌, Bool, Bool-cases, true, false, ◌&&◌, ◌==◌, ltb,
  if◌then◌else◌, length, inl, inr,
}
use rdfcache_k.PathSearch.{RdfTriple, same_triple}

-- `RDFTriple::operator<`.
unfoldable pub triple_less : RdfTriple → RdfTriple → Bool
triple_less a b =
    if a.subject == b.subject
    then (if a.predicate == b.predicate then ltb a.object b.object else ltb a.predicate b.predicate)
    else ltb a.subject b.subject

-- The loop of `operator==`, on lists of one length.
unfoldable pub same_edges : List RdfTriple → List RdfTriple → Bool
same_edges [] [] = true
same_edges (a ∷ ps) (b ∷ qs) = same_triple a b && same_edges ps qs
same_edges _ _ = false

unfoldable pub path_equal : List RdfTriple → List RdfTriple → Bool
path_equal p q = length q == length p && same_edges p q

-- `operator<`: the first edges that differ decide, and without such the lengths.
unfoldable pub path_less : List RdfTriple → List RdfTriple → Bool
path_less [] [] = false
path_less [] (b ∷ qs) = true
path_less (a ∷ ps) [] = false
path_less (a ∷ ps) (b ∷ qs) =
    let rest = path_less ps qs in if same_triple a b then rest else triple_less a b

-- One of three tests holds, and the others do not.
unfoldable pub ExactlyOne : Bool → Bool → Bool → Type 0
ExactlyOne true false false = Unit {0}
ExactlyOne false true false = Unit {0}
ExactlyOne false false true = Unit {0}
ExactlyOne _ _ _ = ⊥

triple_tests : (a b : RdfTriple) → ExactlyOne (same_triple a b) (triple_less a b) (triple_less b a)
unfolding ExactlyOne same_triple triple_less
triple_tests a b = ground arith

same_triple_comm : (a b : RdfTriple) → same_triple a b ≡ same_triple b a
unfolding same_triple
same_triple_comm a b = ground arith

triple_less_trans :
    (a b c : RdfTriple) → triple_less a b ≡ true → triple_less b c ≡ true → triple_less a c ≡ true
unfolding triple_less
triple_less_trans a b c h k = ground arith

-- Triples that are the same are less than the same ones.
less_of-same : (a b c : RdfTriple) → same_triple a b ≡ true → triple_less b c ≡ triple_less a c
unfolding same_triple triple_less
less_of-same a b c h = ground arith

less_than-same : (a b c : RdfTriple) → same_triple b c ≡ true → triple_less a b ≡ triple_less a c
unfolding same_triple triple_less
less_than-same a b c h = ground arith

same-same_of : (a b c : RdfTriple) → same_triple a b ≡ true → same_triple b c ≡ same_triple a c
unfolding same_triple
same-same_of a b c h = ground arith

not_same-less : (a b : RdfTriple) → triple_less a b ≡ true → same_triple a b ≡ false
unfolding same_triple triple_less
not_same-less a b h = ground arith

path_equal-cons :
    (a b : RdfTriple) (p q : List RdfTriple)
    → path_equal (a ∷ p) (b ∷ q) ≡ same_triple a b && path_equal p q
unfolding path_equal same_edges
path_equal-cons a b p q = ground arith

shorter-path_equal : (b : RdfTriple) (q : List RdfTriple) → path_equal [] (b ∷ q) ≡ false
unfolding path_equal
shorter-path_equal b q = ground arith

longer-path_equal : (a : RdfTriple) (p : List RdfTriple) → path_equal (a ∷ p) [] ≡ false
unfolding path_equal
longer-path_equal a p = ground arith

-- Of two paths, either they are equal, or the first is less, or the second is, and only one of these.
pub path_tests :
    (p q : List RdfTriple) → ExactlyOne (path_equal p q) (path_less p q) (path_less q p)
unfolding path_less
path_tests [] [] = unfold path_equal in unfold same_edges in unfold ExactlyOne in tt
path_tests [] (b ∷ q) = rw (shorter-path_equal b q) (unfold ExactlyOne in tt)
path_tests (a ∷ p) [] = rw (longer-path_equal a p) (unfold ExactlyOne in tt)
path_tests (a ∷ p) (b ∷ q) = elim (Bool-cases (same_triple a b)) [
  | inl e ↦ rw (path_equal-cons a b p q, same_triple_comm b a, e) (path_tests p q)
  | inr e ↦
      rw (path_equal-cons a b p q, same_triple_comm b a, e)
        (subst (λ t. ExactlyOne t (triple_less a b) (triple_less b a)) e (triple_tests a b))
]

-- The order of paths is transitive.
pub path_less_trans :
    (p q r : List RdfTriple) → path_less p q ≡ true → path_less q r ≡ true → path_less p r ≡ true
unfolding path_less
path_less_trans [] [] r h k = absurd (ground arith)
path_less_trans [] (b ∷ q) [] h k = absurd (ground arith)
path_less_trans [] (b ∷ q) (c ∷ r) h k = refl
path_less_trans (a ∷ p) [] r h k = absurd (ground arith)
path_less_trans (a ∷ p) (b ∷ q) [] h k = absurd (ground arith)
path_less_trans (a ∷ p) (b ∷ q) (c ∷ r) h k = ground (
  arith,
  path_less_trans p q r,
  less_of-same a b c,
  less_than-same a b c,
  same-same_of a b c,
  same_triple_comm b a,
  not_same-less a c,
  triple_less_trans a b c,
)
