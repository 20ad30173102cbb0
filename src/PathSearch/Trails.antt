-- ===== src/PathSearch/Trails.antt =====
-- core/algorithms/search_paths.cpp: trails, the paths that visit no edge twice.
use rdfcache_k.Prelude.{
  ℕ, suc, ◌≤◌, ◌≡◌, refl, sym, arith, ◌∙◌, List, [], ◌∷◌, ◌++◌, Bool-cases, true, false, length,
  length-append, All, All-append, inl, inr,
}
use rdfcache_k.PathSearch.{RdfTriple, is_among, same_triple, is_visited, Paths}

-- The edges lead from `a` to `b`.
unfoldable pub Connects : ℕ → List RdfTriple → ℕ → Type 0
Connects a [] b = a ≡ b
Connects a (t ∷ ts) b = (t.subject ≡ a) × Connects t.object ts b

-- No edge is there twice.
unfoldable pub IsDistinct : List RdfTriple → Type 0
IsDistinct [] = Unit {0}
IsDistinct (t ∷ ts) = All (λ u. same_triple u t ≡ false) ts × IsDistinct ts

pub Connects-snoc :
    (a b : ℕ) (ts : List RdfTriple) (t : RdfTriple)
    → Connects a ts b
    → t.subject ≡ b
    → Connects a (ts ++ t ∷ []) t.object
unfolding Connects
Connects-snoc a b [] t h e = (e ∙ sym h, refl)
Connects-snoc a b (u ∷ ts) t h e = (h.0, Connects-snoc u.object b ts t h.1 e)

pub IsDistinct-snoc :
    (ts : List RdfTriple) (t : RdfTriple)
    → IsDistinct ts
    → All (λ u. same_triple t u ≡ false) ts
    → IsDistinct (ts ++ t ∷ [])
unfolding IsDistinct
IsDistinct-snoc [] t h k = (tt, tt)
IsDistinct-snoc (u ∷ ts) t h k = (
  All-append (λ v. same_triple v u ≡ false) ts (t ∷ []) h.0 (k.0, tt),
  IsDistinct-snoc ts t h.1 k.1,
)

pub same_triple_refl : (t : RdfTriple) → same_triple t t ≡ true
unfolding same_triple
same_triple_refl t = ground arith

same-same : (t u v : RdfTriple) → same_triple t u ≡ true → same_triple t v ≡ same_triple u v
unfolding same_triple
same-same t u v h = ground arith

is_visited-same :
    (t u : RdfTriple) (visited : List RdfTriple)
    → same_triple t u ≡ true
    → is_visited t visited ≡ is_visited u visited
unfolding is_visited
is_visited-same t u [] h = refl
is_visited-same t u (v ∷ visited) h = rw (same-same t u v h, is_visited-same t u visited h) refl

-- A triple that is not visited is none of those that are.
pub unvisited :
    (t : RdfTriple) (ts visited : List RdfTriple)
    → All (λ u. is_visited u visited ≡ true) ts
    → is_visited t visited ≡ false
    → All (λ u. same_triple t u ≡ false) ts
unvisited t [] visited h e = tt
unvisited t (u ∷ ts) visited h e = (
  elim (Bool-cases (same_triple t u)) [
    | inl same ↦
        (let both : true ≡ false = sym h.0 ∙ sym (is_visited-same t u visited same) ∙ e in
          absurd (ground arith))
    | inr other ↦ other
  ],
  unvisited t ts visited h.1 e,
)

is_among-behind :
    (x : ℕ) (xs os : List ℕ)
    → All (λ o. is_among o xs ≡ true) os
    → All (λ o. is_among o (x ∷ xs) ≡ true) os
is_among-behind x xs [] h = tt
is_among-behind x xs (o ∷ os) h =
    (unfold is_among in rw h.0 (ground arith), is_among-behind x xs os h.1)

pub each_among : (os : List ℕ) → All (λ o. is_among o os ≡ true) os
each_among [] = tt
each_among (o ∷ os) = (unfold is_among in ground arith, is_among-behind o os os (each_among os))

module _ (objects : ℕ → ℕ → List ℕ) where
  -- The dataset has the edge.
  abbrev pub IsEdge : RdfTriple → Type 0
  IsEdge t = is_among t.object (objects t.predicate t.subject) ≡ true

  -- Edges of the dataset that follow one another from `a` to `b`, none twice.
  pub record IsTrail (a b n : ℕ) (ts : List RdfTriple) : Type 0 where
    pub size : length ts ≡ n
    pub connects : Connects a ts b
    pub distinct : IsDistinct ts
    pub edges : All IsEdge ts

  abbrev pub IsPath : ℕ → List RdfTriple → Type 0
  IsPath n ts = (a : ℕ) × (b : ℕ) × IsTrail a b n ts

  -- The edge that a round adds to a trail that is visited.
  pub IsTrail-snoc :
      (a n : ℕ) (ts visited : List RdfTriple) (t : RdfTriple)
      → IsTrail a t.subject n ts
      → All (λ u. is_visited u visited ≡ true) ts
      → is_visited t visited ≡ false
      → IsEdge t
      → IsTrail a t.object (suc n) (ts ++ t ∷ [])
  IsTrail-snoc a n ts visited t h each_visited new edge = record {
    size = omega (arith, h.size, length-append ts (t ∷ []));
    connects = Connects-snoc a t.subject ts t h.connects refl;
    distinct = IsDistinct-snoc ts t h.distinct (unvisited t ts visited each_visited new);
    edges = All-append IsEdge ts (t ∷ []) h.edges (edge, tt);
  }

module _ (objects : ℕ → ℕ → List ℕ) (max_paths : ℕ) where
  -- No more paths than asked for, and each a path.
  pub record ArePaths (n : ℕ) (paths : Paths) : Type 0 where
    pub few : length paths ≤ max_paths
    pub all : All (IsPath objects n) paths
