-- ===== src/PathSearch.antt =====
-- core/algorithms/search_paths.cpp and DirectedPath.cpp: paths of a given number of edges.
pub mod Trails
pub mod Found
pub mod Directed
pub mod Examples
use rdfcache_k.Prelude.{
  ℕ, zero, suc, List, [], ◌∷◌, ◌++◌, Bool, true, false, ◌&&◌, ◌||◌, ◌==◌, leb, if◌then◌else◌,
  length,
}

-- `RDFTriple`.
pub record RdfTriple : Type 0 where
  pub subject : ℕ
  pub predicate : ℕ
  pub object : ℕ

unfoldable pub same_triple : RdfTriple → RdfTriple → Bool
same_triple a b = a.subject == b.subject && a.predicate == b.predicate && a.object == b.object

-- `visited_edges.find(triple) != visited_edges.end()`.
unfoldable pub is_visited : RdfTriple → List RdfTriple → Bool
is_visited t [] = false
is_visited t (u ∷ us) = same_triple t u || is_visited t us

-- `subjects.find(subj) != subjects.end()`.
unfoldable pub is_among : ℕ → List ℕ → Bool
is_among s [] = false
is_among s (x ∷ xs) = s == x || is_among s xs

abbrev pub Paths : Type 0
Paths = List (List RdfTriple)

-- The loop over the predicates.
unfoldable pub for_predicates : List ℕ → (ℕ → Paths → Paths) → Paths → Paths
for_predicates [] search paths = paths
for_predicates (p ∷ ps) search paths = for_predicates ps search (search p paths)

-- `objects p s` is what the band scanner of a subject gives on the tree of a predicate, a function of
-- the k2-tree library; `max_paths` is not negative.
module _ (objects : ℕ → ℕ → List ℕ) (sorted_predicates : List ℕ) (max_paths : ℕ) where
  -- The scan for the last edge of a path: each one that is not visited ends a path.
  unfoldable pub scan_last : ℕ → ℕ → List RdfTriple → List RdfTriple → List ℕ → Paths → Paths
  scan_last s p current_path visited [] paths = paths
  scan_last s p current_path visited (o ∷ os) paths =
      let triple : RdfTriple = record { subject = s; predicate = p; object = o } in
      let found = paths ++ (current_path ++ triple ∷ []) ∷ [] in
      let passed = scan_last s p current_path visited os paths in
      let rest = scan_last s p current_path visited os found in
      if is_visited triple visited
      then passed
      else (if leb max_paths (length found) then found else rest)

  -- The scan for another edge, from which the search goes on.
  unfoldable pub scan_more :
      ℕ → ℕ → List RdfTriple → (RdfTriple → Paths → Paths) → List ℕ → Paths → Paths
  scan_more s p visited search [] paths = paths
  scan_more s p visited search (o ∷ os) paths =
      let triple : RdfTriple = record { subject = s; predicate = p; object = o } in
      let passed = scan_more s p visited search os paths in
      let rest = scan_more s p visited search os (search triple paths) in
      if is_visited triple visited then passed else rest

  -- `m` edges follow the one that is searched for, so `curr_path_size` is `max_path_size - 1 - m`.
  -- `current_path` is the part of the vector that is set. `visited` is the set as the call finds it:
  -- what a round inserts it erases again.
  unfoldable pub find_paths_subj_origin :
      ℕ → List RdfTriple → ℕ → ℕ → List RdfTriple → Paths → Paths
  find_paths_subj_origin zero current_path s p visited paths =
      if leb max_paths (length paths)
      then paths
      else scan_last s p current_path visited (objects p s) paths
  find_paths_subj_origin (suc m) current_path s p visited paths =
      if leb max_paths (length paths)
      then paths
      else scan_more s p visited
          (λ triple. for_predicates sorted_predicates (λ pred_value.
            find_paths_subj_origin m (current_path ++ triple ∷ []) triple.object pred_value
              (triple ∷ visited)))
          (objects p s) paths

  -- The loop over the points of a tree, which starts a search from each subject once and is left when
  -- there are enough paths. `m` is one less than the number of edges.
  unfoldable pub scan_subjects : ℕ → ℕ → List (ℕ × ℕ) → List ℕ → Paths → Paths
  scan_subjects m p [] subjects paths = paths
  scan_subjects m p (point ∷ points) subjects paths =
      let found = find_paths_subj_origin m [] point.0 p [] paths in
      let passed = scan_subjects m p points subjects paths in
      let rest = scan_subjects m p points (point.0 ∷ subjects) found in
      if is_among point.0 subjects
      then passed
      else (if leb max_paths (length found) then found else rest)

-- For paths of `m + 1` edges. All trees are loaded: `points p` is what the full scanner gives on the
-- tree of a predicate, and `sort` puts the predicates in the order of the sizes of their trees.
unfoldable pub find_n_paths :
    (ℕ → ℕ → List ℕ) → (ℕ → List (ℕ × ℕ)) → (List ℕ → List ℕ) → List ℕ → ℕ → ℕ → Paths
find_n_paths objects points sort predicates_ids m max_number =
    let sorted = sort predicates_ids in
    for_predicates sorted
      (λ p paths. scan_subjects objects sorted max_number m p (points p) [] paths) []
