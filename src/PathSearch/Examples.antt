-- ===== src/PathSearch/Examples.antt =====
-- Tests of the path search on three triples of one predicate.
use rdfcache_k.Prelude.{true, ℕ, suc, List, [], ◌∷◌, ◌==◌, ◌≡◌, refl, if◌then◌else◌}
use rdfcache_k.PathSearch.{
  RdfTriple, same_triple, is_visited, is_among, for_predicates, scan_last, scan_more,
  find_paths_subj_origin, scan_subjects, find_n_paths,
}
use rdfcache_k.PathSearch.Trails.{ArePaths}
use rdfcache_k.PathSearch.Directed.{
  ExactlyOne, triple_less, path_equal, path_less, path_tests, path_less_trans,
}
use rdfcache_k.PathSearch.Found.{find_n_paths-ArePaths}

abbrev pairs : ℕ → List (ℕ × ℕ)
pairs p = (1, 2) ∷ (2, 3) ∷ (3, 1) ∷ []

abbrev next_of : ℕ → ℕ → List ℕ
next_of p s =
    if s == 1 then 2 ∷ [] else (if s == 2 then 3 ∷ [] else (if s == 3 then 1 ∷ [] else []))

abbrev edge : ℕ → ℕ → RdfTriple
edge s o = record { subject = s; predicate = 7; object = o }

two_paths :
    find_n_paths next_of pairs (λ ids. ids) (7 ∷ []) 1 2
    ≡ (edge 1 2 ∷ edge 2 3 ∷ []) ∷ (edge 2 3 ∷ edge 3 1 ∷ []) ∷ []
unfolding find_n_paths scan_subjects find_paths_subj_origin scan_last scan_more for_predicates
    is_visited is_among same_triple
two_paths = refl

find_n_paths-ArePaths_example :
    ArePaths next_of 2 (suc 1) (find_n_paths next_of pairs (λ ids. ids) (7 ∷ []) 1 2)
find_n_paths-ArePaths_example = find_n_paths-ArePaths next_of pairs (λ ids. ids) (7 ∷ []) 1 2

path_tests_example :
    ExactlyOne
      (path_equal (edge 1 2 ∷ []) (edge 1 3 ∷ []))
      (path_less (edge 1 2 ∷ []) (edge 1 3 ∷ []))
      (path_less (edge 1 3 ∷ []) (edge 1 2 ∷ []))
path_tests_example = path_tests (edge 1 2 ∷ []) (edge 1 3 ∷ [])

one_less : path_less (edge 1 2 ∷ []) (edge 1 2 ∷ edge 2 3 ∷ []) ≡ true
unfolding path_less same_triple
one_less = refl

two_less : path_less (edge 1 2 ∷ edge 2 3 ∷ []) (edge 1 3 ∷ []) ≡ true
unfolding path_less same_triple triple_less
two_less = refl

path_less_trans_example : path_less (edge 1 2 ∷ []) (edge 1 3 ∷ []) ≡ true
path_less_trans_example =
    path_less_trans (edge 1 2 ∷ []) (edge 1 2 ∷ edge 2 3 ∷ []) (edge 1 3 ∷ []) one_less two_less
