-- ===== src/PathSearch/Found.antt =====
-- core/algorithms/search_paths.cpp: what the paths are that the search finds.
use rdfcache_k.Prelude.{
  subst, ℕ, zero, suc, ◌+◌, ◌<◌, ◌≡◌, refl, sym, arith, List, [], ◌∷◌, ◌++◌, true, false, leb,
  if_both, length, length-append, All, All-append,
}
use rdfcache_k.PathSearch.{
  RdfTriple, is_among, scan_subjects, find_n_paths, is_visited, Paths, for_predicates, scan_last,
  scan_more, find_paths_subj_origin,
}
use rdfcache_k.PathSearch.Trails.{
  Connects, IsDistinct, each_among, same_triple_refl, IsTrail, IsPath, ArePaths, IsTrail-snoc,
}

module _ (objects : ℕ → ℕ → List ℕ) (sorted_predicates : List ℕ) (max_paths : ℕ) where
  scan_last-ArePaths :
      (a s p n : ℕ) (ts visited : List RdfTriple) (os : List ℕ) (paths : Paths)
      → IsTrail objects a s n ts
      → All (λ u. is_visited u visited ≡ true) ts
      → All (λ o. is_among o (objects p s) ≡ true) os
      → length paths < max_paths
      → All (IsPath objects (suc n)) paths
      → ArePaths objects max_paths
          (suc n)
          (scan_last objects sorted_predicates max_paths s p ts visited os paths)
  unfolding scan_last
  scan_last-ArePaths a s p n ts visited [] paths h v edges room all = record {
    few = omega arith;
    all = all;
  }
  scan_last-ArePaths a s p n ts visited (o ∷ os) paths h v edges room all =
      let triple : RdfTriple = record { subject = s; predicate = p; object = o } in
      let found = paths ++ (ts ++ triple ∷ []) ∷ [] in
      let more = length-append paths ((ts ++ triple ∷ []) ∷ []) in
      if_both (ArePaths objects max_paths (suc n)) (is_visited triple visited) _ _
        (λ t. scan_last-ArePaths a s p n ts visited os paths h v edges.1 room all)
        (λ new.
          let path : IsPath objects (suc n) (ts ++ triple ∷ []) =
            (a, o, IsTrail-snoc objects a n ts visited triple h v new edges.0) in
          let all' =
            All-append (IsPath objects (suc n)) paths ((ts ++ triple ∷ []) ∷ []) all (path, tt) in
          if_both (ArePaths objects max_paths (suc n)) (leb max_paths (length found)) _ _
            (λ full. record { few = omega (arith, more); all = all' })
            (λ left.
              let below : length found < max_paths = ground arith in
              scan_last-ArePaths a s p n ts visited os found h v edges.1 below all'))

  for_predicates-ArePaths :
      (n : ℕ) (ps : List ℕ) (search : ℕ → Paths → Paths) (paths : Paths)
      → ((p : ℕ) (qs : Paths)
          → ArePaths objects max_paths n qs
          → ArePaths objects max_paths n (search p qs))
      → ArePaths objects max_paths n paths
      → ArePaths objects max_paths n (for_predicates ps search paths)
  unfolding for_predicates
  for_predicates-ArePaths n [] search paths f h = h
  for_predicates-ArePaths n (p ∷ ps) search paths f h =
      for_predicates-ArePaths n ps search (search p paths) f (f p paths h)

  scan_more-ArePaths :
      (s p n : ℕ) (visited : List RdfTriple) (search : RdfTriple → Paths → Paths) (os : List ℕ)
      (paths : Paths)
      → ((o : ℕ) (qs : Paths)
          → is_visited (record { subject = s; predicate = p; object = o }) visited ≡ false
          → is_among o (objects p s) ≡ true
          → ArePaths objects max_paths n qs
          → ArePaths objects max_paths n
              (search (record { subject = s; predicate = p; object = o }) qs))
      → All (λ o. is_among o (objects p s) ≡ true) os
      → ArePaths objects max_paths n paths
      → ArePaths objects max_paths n
          (scan_more objects sorted_predicates max_paths s p visited search os paths)
  unfolding scan_more
  scan_more-ArePaths s p n visited search [] paths f edges h = h
  scan_more-ArePaths s p n visited search (o ∷ os) paths f edges h =
      if_both (ArePaths objects max_paths n)
        (is_visited (record { subject = s; predicate = p; object = o }) visited) _ _
        (λ t. scan_more-ArePaths s p n visited search os paths f edges.1 h)
        (λ new. scan_more-ArePaths s p n visited search os _ f edges.1 (f o paths new edges.0 h))

  extended_visited :
      (t : RdfTriple) (ts visited : List RdfTriple)
      → All (λ u. is_visited u visited ≡ true) ts
      → All (λ u. is_visited u (t ∷ visited) ≡ true) ts
  extended_visited t [] visited h = tt
  extended_visited t (u ∷ ts) visited h =
      (unfold is_visited in rw h.0 (ground arith), extended_visited t ts visited h.1)

  each_visited :
      (ts visited : List RdfTriple) (t : RdfTriple)
      → All (λ u. is_visited u visited ≡ true) ts
      → All (λ u. is_visited u (t ∷ visited) ≡ true) (ts ++ t ∷ [])
  each_visited ts visited t h =
      All-append (λ u. is_visited u (t ∷ visited) ≡ true) ts (t ∷ [])
        (extended_visited t ts visited h) (unfold is_visited in rw (same_triple_refl t) refl, tt)

  -- From a trail that is visited and leads to the subject, the search adds paths only, each a trail of
  -- as many edges of the dataset as asked for, and the paths stay within the number asked for.
  pub find_paths_subj_origin-ArePaths :
      (m a s p n : ℕ) (ts visited : List RdfTriple) (paths : Paths)
      → IsTrail objects a s n ts
      → All (λ u. is_visited u visited ≡ true) ts
      → ArePaths objects max_paths (suc m + n) paths
      → ArePaths objects max_paths
          (suc m + n)
          (find_paths_subj_origin objects sorted_predicates max_paths m ts s p visited paths)
  unfolding find_paths_subj_origin
  find_paths_subj_origin-ArePaths zero a s p n ts visited paths h v found =
      let size : 1 + n ≡ suc n = omega arith in
      if_both (ArePaths objects max_paths (1 + n)) (leb max_paths (length paths)) _ _
        (λ full. found)
        (λ left.
          let room : length paths < max_paths = ground arith in
          subst
            (λ k.
              ArePaths objects max_paths k
                (scan_last objects sorted_predicates max_paths s p ts visited (objects p s) paths))
            (sym size)
            (scan_last-ArePaths a s p n ts visited (objects p s) paths h v
              (each_among (objects p s)) room
              (subst (λ k. All (IsPath objects k) paths) size found.all)))
  find_paths_subj_origin-ArePaths (suc m) a s p n ts visited paths h v found =
      let size : suc m + suc n ≡ suc (suc m) + n = omega arith in
      if_both (ArePaths objects max_paths (suc (suc m) + n)) (leb max_paths (length paths)) _ _
        (λ full. found)
        (λ left.
          scan_more-ArePaths s p (suc (suc m) + n) visited _ (objects p s) paths
            (λ o qs new edge others.
              let triple : RdfTriple = record { subject = s; predicate = p; object = o } in
              let longer = IsTrail-snoc objects a n ts visited triple h v new edge in
              for_predicates-ArePaths (suc (suc m) + n) sorted_predicates _ qs
                (λ pred rs k.
                  subst
                    (λ i. ArePaths objects max_paths i (
                      find_paths_subj_origin objects sorted_predicates max_paths m
                        (ts ++ triple ∷ []) o pred (triple ∷ visited) rs))
                    size
                    (find_paths_subj_origin-ArePaths m a o pred (suc n) (ts ++ triple ∷ [])
                      (triple ∷ visited) rs longer (each_visited ts visited triple v)
                      (subst (λ i. ArePaths objects max_paths i rs) (sym size) k)))
                others)
            (each_among (objects p s)) found)

  scan_subjects-ArePaths :
      (m p : ℕ) (points : List (ℕ × ℕ)) (subjects : List ℕ) (paths : Paths)
      → ArePaths objects max_paths (suc m + 0) paths
      → ArePaths objects max_paths
          (suc m + 0)
          (scan_subjects objects sorted_predicates max_paths m p points subjects paths)
  unfolding scan_subjects
  scan_subjects-ArePaths m p [] subjects paths h = h
  scan_subjects-ArePaths m p (point ∷ points) subjects paths h =
      let found =
        find_paths_subj_origin objects sorted_predicates max_paths m [] point.0 p [] paths in
      let start : IsTrail objects point.0 point.0 0 [] = record {
        size = refl;
        connects = unfold Connects in refl;
        distinct = unfold IsDistinct in tt;
        edges = tt;
      } in
      let searched : ArePaths objects max_paths (suc m + 0) found =
        find_paths_subj_origin-ArePaths m point.0 point.0 p 0 [] [] paths start tt h in
      if_both (ArePaths objects max_paths (suc m + 0)) (is_among point.0 subjects) _ _
        (λ t. scan_subjects-ArePaths m p points subjects paths h)
        (λ f.
          if_both (ArePaths objects max_paths (suc m + 0)) (leb max_paths (length found)) _ _
            (λ full. searched)
            (λ left. scan_subjects-ArePaths m p points (point.0 ∷ subjects) found searched))

-- The search finds no more paths than asked for, and each of them has as many edges as asked for, all
-- of the dataset, of which each starts where the one before ends and none is there twice.
pub find_n_paths-ArePaths :
    (objects : ℕ → ℕ → List ℕ) (points : ℕ → List (ℕ × ℕ)) (sort : List ℕ → List ℕ)
    (predicates_ids : List ℕ) (m max_number : ℕ)
    → ArePaths objects max_number
        (suc m)
        (find_n_paths objects points sort predicates_ids m max_number)
unfolding find_n_paths
find_n_paths-ArePaths objects points sort predicates_ids m max_number =
    let sorted = sort predicates_ids in
    let none : ArePaths objects max_number (suc m + 0) [] = record {
      few = omega arith;
      all = tt;
    } in
    let size : suc m + 0 ≡ suc m = omega arith in
    subst
      (λ k.
        ArePaths objects max_number k
          (find_n_paths objects points sort predicates_ids m max_number))
      size
      (for_predicates-ArePaths objects sorted max_number (suc m + 0) sorted _ []
        (λ p paths h. scan_subjects-ArePaths objects sorted max_number m p (points p) [] paths h)
        none)
