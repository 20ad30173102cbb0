-- ===== src/Updates/Merge/Sequence.antt =====
-- core/updating/UpdatesLoggerImpl.cpp: what a merged update does to a set of pairs.
use rdfcache_k.Prelude.{
  ℕ, List, [], ◌∷◌, Option, some, none, Bool, false, not, ◌&&◌, ◌||◌, ◌==◌, ◌≡◌, refl, arith, ◌∙◌,
}
use rdfcache_k.Updates.Merge.{
  TreeOps, PredicateUpdate, insert_if_set, remove_if_set, merge_points, points_if_set, merge_with,
}

unfoldable pub same_point : ℕ → ℕ → ℕ × ℕ → Bool
same_point c r p = c == p.0 && r == p.1

unfoldable pub is_among : ℕ → ℕ → List (ℕ × ℕ) → Bool
is_among c r [] = false
is_among c r (p ∷ ps) = same_point c r p || is_among c r ps

module _ {Tree : Type 0} where
  -- What the k2-tree library promises of its operations, `has` included.
  pub record IsTree (ops : TreeOps Tree) (has : Tree → ℕ → ℕ → Bool) : Type 0 where
    pub inserted :
        (t : Tree) (p : ℕ × ℕ) (c r : ℕ)
        → has (ops.insert p.0 p.1 t) c r ≡ same_point c r p || has t c r
    pub removed :
        (t : Tree) (p : ℕ × ℕ) (c r : ℕ)
        → has (ops.remove p.0 p.1 t) c r ≡ not (same_point c r p) && has t c r
    pub scanned : (t : Tree) (c r : ℕ) → is_among c r (ops.points t) ≡ has t c r

-- A tree is there if one is given.
unfoldable pub Covers : {Tree : Type 0} → Option Tree → Option Tree → Type 0
Covers this none = Unit {0}
Covers none (some t) = ⊥
Covers (some s) (some t) = Unit {0}

module _ {Tree : Type 0} (ops : TreeOps Tree) (has : Tree → ℕ → ℕ → Bool) (c r : ℕ) where
  -- A null tree has no points.
  unfoldable pub has_if_set : Option Tree → Bool
  has_if_set none = false
  has_if_set (some t) = has t c r

  -- Whether the pair is there after an update, when `b` says whether it was before: the points of
  -- one tree are added, then those of the other are deleted.
  unfoldable pub after_update : PredicateUpdate Tree → Bool → Bool
  after_update u b = (b || has_if_set u.add_update) && not (has_if_set u.del_update)

  module _ (h : IsTree ops has) where
    points-has : (t : Option Tree) → is_among c r (points_if_set ops t) ≡ has_if_set t
    unfolding points_if_set is_among has_if_set
    points-has none = refl
    points-has (some t) = h.scanned t c r

    merge_points-from :
        (ps : List (ℕ × ℕ)) (from into : Option Tree)
        → has_if_set (merge_points ops ps from into).0 ≡ not (is_among c r ps) && has_if_set from
    unfolding merge_points is_among has_if_set remove_if_set
    merge_points-from [] from into = ground arith
    merge_points-from (p ∷ ps) none into =
        merge_points-from ps none (insert_if_set ops p into) ∙ ground arith
    merge_points-from (p ∷ ps) (some t) into =
        merge_points-from ps (some (ops.remove p.0 p.1 t)) (insert_if_set ops p into)
        ∙ ground (arith, h.removed t p c r)

    -- A tree that is not there gets no points.
    merge_points-into :
        (ps : List (ℕ × ℕ)) (from : Option Tree) (t : Tree)
        → has_if_set (merge_points ops ps from (some t)).1 ≡ is_among c r ps || has t c r
    unfolding merge_points is_among has_if_set insert_if_set
    merge_points-into [] from t = refl
    merge_points-into (p ∷ ps) from t =
        merge_points-into ps (remove_if_set ops p from) (ops.insert p.0 p.1 t)
        ∙ ground (arith, h.inserted t p c r)

    merged-into :
        (src from into : Option Tree)
        → Covers into src
        → has_if_set (merge_points ops (points_if_set ops src) from into).1
          ≡ has_if_set src || has_if_set into
    unfolding points_if_set merge_points has_if_set Covers
    merged-into none from into k = refl
    merged-into (some s) from none k = absurd k
    merged-into (some s) from (some t) k =
        merge_points-into (ops.points s) from t ∙ rw (h.scanned s c r) refl

    merged-from :
        (src from into : Option Tree)
        → has_if_set (merge_points ops (points_if_set ops src) from into).0
          ≡ not (has_if_set src) && has_if_set from
    merged-from src from into =
        merge_points-from (points_if_set ops src) from into ∙ rw (points-has src) refl

    Covers-merged :
        (ps : List (ℕ × ℕ)) (from into t : Option Tree)
        → Covers from t
        → Covers (merge_points ops ps from into).0 t
    unfolding merge_points remove_if_set Covers
    Covers-merged [] from into t k = k
    Covers-merged (p ∷ ps) none into t k = Covers-merged ps none (insert_if_set ops p into) t k
    Covers-merged (p ∷ ps) (some s) into none k =
        Covers-merged ps (some (ops.remove p.0 p.1 s)) (insert_if_set ops p into) none tt
    Covers-merged (p ∷ ps) (some s) into (some t) k =
        Covers-merged ps (some (ops.remove p.0 p.1 s)) (insert_if_set ops p into) (some t) tt

    -- If the first update has a tree of each kind of which the second has one, then the merged
    -- update adds and deletes a pair as the two updates do one after the other.
    pub merge_with-after_update :
        (first second : PredicateUpdate Tree) (b : Bool)
        → Covers first.add_update second.add_update
        → Covers first.del_update second.del_update
        → after_update (merge_with ops first second) b ≡ after_update second (after_update first b)
    unfolding merge_with after_update
    merge_with-after_update first second b k l =
        let added =
          merge_points ops (points_if_set ops second.add_update) first.del_update
            first.add_update in
        rw
          (
            merged-from second.del_update added.1 added.0,
            merged-into second.del_update added.1 added.0 (
                Covers-merged (points_if_set ops second.add_update) first.del_update
                  first.add_update second.del_update l),
            merged-into second.add_update first.del_update first.add_update k,
            merged-from second.add_update first.del_update first.add_update,
          )
          (ground arith)
