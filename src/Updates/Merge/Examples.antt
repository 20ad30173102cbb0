-- ===== src/Updates/Merge/Examples.antt =====
-- Tests of the merge of two updates, with lists of points for trees.
use rdfcache_k.Prelude.{
  ℕ, List, [], ◌∷◌, some, Bool, true, not, ◌&&◌, ◌==◌, if◌then◌else◌, ◌≡◌, refl, arith,
}
use rdfcache_k.Updates.Merge.{TreeOps, PredicateUpdate, merge_with}
use rdfcache_k.Updates.Merge.Sequence.{
  IsTree, same_point, is_among, Covers, after_update, merge_with-after_update,
}

abbrev without : ℕ → ℕ → List (ℕ × ℕ) → List (ℕ × ℕ)
without c r [] = []
without c r (p ∷ ps) = let rest = without c r ps in if p.0 == c && p.1 == r then rest else p ∷ rest

abbrev list_ops : TreeOps (List (ℕ × ℕ))
list_ops = record { insert = λ c r t. (c, r) ∷ t; remove = without; points = λ t. t }

abbrev has_point : List (ℕ × ℕ) → ℕ → ℕ → Bool
has_point t c r = is_among c r t

without-has :
    (t : List (ℕ × ℕ)) (p : ℕ × ℕ) (c r : ℕ)
    → has_point (without p.0 p.1 t) c r ≡ not (same_point c r p) && has_point t c r
unfolding is_among same_point
without-has [] p c r = ground arith
without-has (q ∷ t) p c r = ground (arith, without-has t p c r)

list_ops-IsTree : IsTree list_ops has_point
unfolding is_among
list_ops-IsTree = record {
  inserted = λ t p c r. refl;
  removed = without-has;
  scanned = λ t c r. refl;
}

abbrev first : PredicateUpdate (List (ℕ × ℕ))
first = record {
  predicate_id = 5;
  add_update = some ((1, 1) ∷ []);
  del_update = some ((2, 2) ∷ []);
}

abbrev second : PredicateUpdate (List (ℕ × ℕ))
second = record {
  predicate_id = 5;
  add_update = some ((2, 2) ∷ []);
  del_update = some ((1, 1) ∷ []);
}

same_additions : Covers first.add_update second.add_update
unfolding Covers
same_additions = tt

same_deletions : Covers first.del_update second.del_update
unfolding Covers
same_deletions = tt

merge_with-after_update_example :
    after_update list_ops has_point 1 1 (merge_with list_ops first second) true
    ≡ after_update list_ops has_point 1 1 second (after_update list_ops has_point 1 1 first true)
merge_with-after_update_example =
    merge_with-after_update list_ops has_point 1 1 list_ops-IsTree first second true same_additions
      same_deletions
