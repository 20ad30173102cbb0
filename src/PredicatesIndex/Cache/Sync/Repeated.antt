-- ===== src/PredicatesIndex/Cache/Sync/Repeated.antt =====
-- core/manager/PredicatesIndexCacheMD.cpp: the set of new predicates is not cleared by a synchronization.
use rdfcache_k.PredicatesIndex.Cache.Sync.Written.{Placed}
use rdfcache_k.PredicatesIndex.Cache.Sync.Assembled.{
  file_of, sync_to_persistent-IsAssembled, IsSyncable,
}
use rdfcache_k.PredicatesIndex.Cache.Sync.Persisted.{IsTreeLibrary}
use rdfcache_k.K2Tree.Mixed.{K2TreeMixed}
use rdfcache_k.PredicatesIndex.Cache.Sync.{sync_to_persistent, all_predicates, keys}
use rdfcache_k.PredicatesIndex.Cache.{PredicatesIndexCache, TreeLibrary, has_key}
use rdfcache_k.Prelude.{
  if◌then◌else◌, subst, ℕ, ◌≡◌, ◌==◌, refl, arith, List, [], ◌∷◌, ◌++◌, Bool-cases, inl, inr, true,
  some, find_value, ok,
}
use mathlib.Core.Option.{none-ne-some}
use mathlib.Core.List.{Permᴰ as Perm}
use mathlib.Core.List.Permᴰ as Perm
use rdfcache_k.ExternalSort.Orders.{Among, All-Among, Among-Perm}

has_key-Perm : (ks : List ℕ) (k : ℕ) → has_key ks k ≡ true → (rest : List ℕ) × Perm ks (k ∷ rest)
unfolding has_key
has_key-Perm [] k e = absurd (ground arith)
has_key-Perm (k' ∷ ks) k e = elim (Bool-cases (k == k')) [
  | inl t ↦ (ks, Perm.cons (ground arith) (Perm.refl ks))
  | inr f ↦
      (let (rest, same) = has_key-Perm ks k (ground arith) in
        (k' ∷ rest, Perm.trans (Perm.cons refl same) (Perm.swap refl refl)))
]

keys-Perm :
    {V : Type 0} (m : List (ℕ × V)) (k : ℕ) (v : V)
    → find_value m k ≡ some v
    → (rest : List ℕ) × Perm (keys m) (k ∷ rest)
unfolding find_value keys
keys-Perm [] k v e = absurd (none-ne-some v e)
keys-Perm ((k', v') ∷ m) k v e = elim (Bool-cases (k == k')) [
  | inl t ↦ (keys m, Perm.cons (ground arith) (Perm.refl (keys m)))
  | inr f ↦
      (let (rest, same) =
          keys-Perm m k v (subst (λ b. (if b then some v' else find_value m k) ≡ some v) f e) in
        (k' ∷ rest, Perm.trans (Perm.cons refl same) (Perm.swap refl refl)))
]

module _ {L : Type 0} (lib : TreeLibrary) where
  -- If the words of the new file fit, with hashes of sixteen bytes and sizes of trees that are words,
  -- the sort permutes its input, and the cache has a tree for each new predicate and each predicate of its
  -- file, then `sync_to_persistent` succeeds, and a predicate that was new before it is new after it, and
  -- is twice among the predicates of the file that would be written next.
  pub sync_to_persistent-repeats :
      (s : PredicatesIndexCache L) (trees : ℕ → K2TreeMixed) (bytes : ℕ → List ℕ) (p : ℕ)
      → IsTreeLibrary lib
      → IsSyncable lib s trees bytes
      → has_key s.new_predicates p ≡ true
      → (t : PredicatesIndexCache L) × (rest : List ℕ) × (sync_to_persistent lib s ≡ ok t)
        × (has_key t.new_predicates p ≡ true)
        × Perm (all_predicates lib t) (p ∷ p ∷ rest)
  unfolding all_predicates
  sync_to_persistent-repeats s trees bytes p promised h new =
      let synced = sync_to_persistent-IsAssembled lib s trees bytes promised h in
      let (others, first) = has_key-Perm s.new_predicates p new in
      let old = keys (s.metadata).metadata_map in
      let written : Perm (p ∷ (others ++ old)) (lib.sort (s.new_predicates ++ old)) =
        Perm.trans (Perm.symm (Perm.append_right old first))
          (promised.sort-Perm (s.new_predicates ++ old)) in
      let there =
        All-Among
          (λ id.
            Placed 0 (file_of lib s bytes synced.metadata_map) synced.metadata_map id (bytes id))
          (lib.sort (s.new_predicates ++ old)) p synced.placed
          (Among-Perm p written (unfold Among in inl refl)) in
      let (stored, second) = keys-Perm synced.metadata_map p there.m there.found in
      (
        record s {
          file = file_of lib s bytes synced.metadata_map;
          metadata = record {
            metadata_map = synced.metadata_map;
            predicates_ids = all_predicates lib s;
            config = s.k2tree_config;
          };
        },
        others ++ stored,
        synced.result,
        new,
        Perm.trans (Perm.symm (promised.sort-Perm (s.new_predicates ++ keys synced.metadata_map))) (
            Perm.trans (Perm.append_right (keys synced.metadata_map) first) (
              Perm.cons refl
                (Perm.trans (Perm.append_left others second) (Perm.middle p others stored)))),
      )
