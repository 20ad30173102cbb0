-- ===== src/Updates/Merge.antt =====
-- core/updating/UpdatesLoggerImpl.cpp: `PredicateUpdate::merge_with`.
pub mod Sequence
pub mod Examples
use rdfcache_k.Prelude.{ℕ, List, [], ◌∷◌, Option, some, none}

-- The operations of a tree that the k2-tree library carries out: `points` is what a full scanner
-- gives, in order.
pub record TreeOps (Tree : Type 0) : Type 0 where
  pub insert : ℕ → ℕ → Tree → Tree
  pub remove : ℕ → ℕ → Tree → Tree
  pub points : Tree → List (ℕ × ℕ)

pub record PredicateUpdate (Tree : Type 0) : Type 0 where
  pub predicate_id : ℕ
  pub add_update : Option Tree
  pub del_update : Option Tree

module _ {Tree : Type 0} (ops : TreeOps Tree) where
  -- `if (tree) tree->insert(...)`.
  unfoldable pub insert_if_set : ℕ × ℕ → Option Tree → Option Tree
  insert_if_set p none = none
  insert_if_set p (some t) = some (ops.insert p.0 p.1 t)

  unfoldable pub remove_if_set : ℕ × ℕ → Option Tree → Option Tree
  remove_if_set p none = none
  remove_if_set p (some t) = some (ops.remove p.0 p.1 t)

  -- The loop over the points added: each is removed from the one tree and inserted in the other.
  unfoldable pub merge_points : List (ℕ × ℕ) → Option Tree → Option Tree → Option Tree × Option Tree
  merge_points [] from into = (from, into)
  merge_points (p ∷ ps) from into = merge_points ps (remove_if_set p from) (insert_if_set p into)

  unfoldable pub points_if_set : Option Tree → List (ℕ × ℕ)
  points_if_set none = []
  points_if_set (some t) = ops.points t

  -- With no tree in `update` both loops are empty, which is the early return.
  unfoldable pub merge_with : PredicateUpdate Tree → PredicateUpdate Tree → PredicateUpdate Tree
  merge_with this update =
      let added = merge_points (points_if_set update.add_update) this.del_update this.add_update in
      let deleted = merge_points (points_if_set update.del_update) added.1 added.0 in
      record this { add_update = deleted.0; del_update = deleted.1 }
