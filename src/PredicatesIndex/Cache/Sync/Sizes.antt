-- ===== src/PredicatesIndex/Cache/Sync/Sizes.antt =====
-- core/manager/PredicatesIndexCacheMD.cpp: the sizes in memory of the trees that `sync_to_stream` writes.
use rdfcache_k.Prelude.{
  ℕ, ◌≡◌, ◌≤◌, ◌==◌, refl, sym, arith, ap, ◌∙◌, subst, List, [], ◌∷◌, All, some, ok, err, inl, inr,
  Bool-cases, find_value, assign, find-assign_self, Result,
}
use mathlib.Core.Option.{some-injective}
use rdfcache_k.Stream.{OStream, tellp, write}
use rdfcache_k.PredicatesIndex.Metadata.{PredicateMetadata, entry_or_new}
use rdfcache_k.PredicatesIndex.Cache.{PredicatesIndexCache, TreeLibrary}
use rdfcache_k.PredicatesIndex.Cache.Sync.{write_trees, record_of, tree_file, TreeFile}
use rdfcache_k.PredicatesIndex.Cache.Sync.Written.{entry-others}

-- The record of a predicate gives its tree so many bytes of memory.
abbrev pub HasSize : List (ℕ × PredicateMetadata) → ℕ → ℕ → Type 0
HasSize metadata_map id need =
    (m : PredicateMetadata) × (find_value metadata_map id ≡ some m) × (need ≤ m.tree_size_in_memory)

pub found-HasSize :
    (metadata_map : List (ℕ × PredicateMetadata)) (id need : ℕ) (m : PredicateMetadata)
    → find_value metadata_map id ≡ some m
    → HasSize metadata_map id need
    → need ≤ m.tree_size_in_memory
found-HasSize metadata_map id need m e (m', e', le) =
    subst (λ (v : PredicateMetadata). need ≤ v.tree_size_in_memory)
      (some-injective m' m (sym e' ∙ e)) le

HasSize-next :
    (old new : List (ℕ × PredicateMetadata)) (id need : ℕ)
    → find_value new id ≡ find_value old id
    → HasSize old id need
    → HasSize new id need
HasSize-next old new id need e (m, found, le) = (m, e ∙ found, le)

pub All-HasSize :
    (old new : List (ℕ × PredicateMetadata)) (need : ℕ → ℕ) (ids : List ℕ)
    → All (λ id. find_value new id ≡ find_value old id) ids
    → All (λ id. HasSize old id (need id)) ids
    → All (λ id. HasSize new id (need id)) ids
All-HasSize old new need [] same h = tt
All-HasSize old new need (id ∷ ids) (e, same) (h, all) =
    (HasSize-next old new id (need id) e h, All-HasSize old new need ids same all)

map_of :
    List (ℕ × PredicateMetadata)
    → Result (OStream × List (ℕ × PredicateMetadata))
    → List (ℕ × PredicateMetadata)
map_of d (err e) = d
map_of d (ok (os, m)) = m

module _ {L : Type 0} (lib : TreeLibrary) (s : PredicatesIndexCache L) (need : ℕ → ℕ) where
  -- The tree is written with so many bytes of memory.
  abbrev pub IsSized : ℕ → Type 0
  IsSized id = (f : TreeFile) × (tree_file lib id s ≡ ok f) × (need id ≤ f.tree_size_in_memory)

  record AreSized (ids : List ℕ) (old : List (ℕ × PredicateMetadata))
      (r : Result (OStream × List (ℕ × PredicateMetadata))) : Type 0 where
    os : OStream
    new : List (ℕ × PredicateMetadata)
    result : r ≡ ok (os, new)
    sizes : All (λ id. HasSize new id (need id)) ids
    kept : (j : ℕ) → HasSize old j (need j) → HasSize new j (need j)

  write_trees-AreSized :
      (ids : List ℕ) (old : List (ℕ × PredicateMetadata)) (os : OStream)
      → All IsSized ids
      → AreSized ids old (write_trees lib ids s old os)
  unfolding write_trees
  write_trees-AreSized [] old os h = record {
    os = os;
    new = old;
    result = refl;
    sizes = tt;
    kept = λ j size. size;
  }
  write_trees-AreSized (id ∷ ids) old os ((f, e, le), h) =
      let entry = entry_or_new old id (find_value old id) in
      let new = record_of id (tellp os) f entry.0 in
      let next = assign entry.1 id new in
      let rest = write_trees-AreSized ids next (write os f.bytes) h in
      let here : HasSize next id (need id) =
        (new, find-assign_self entry.1 id new, unfold record_of in le) in
      record {
        os = rest.os;
        new = rest.new;
        result = rw e rest.result;
        sizes = (rest.kept id here, rest.sizes);
        kept = λ j size. elim (Bool-cases (j == id)) [
          | inl t ↦
              (let same : id ≡ j = ground arith in
                rest.kept j (subst (λ k. HasSize next k (need k)) same here))
          | inr t ↦
              (let other = entry-others old id j (find_value old id) new (λ same. ground arith) in
                rest.kept j (HasSize-next old next j (need j) other size))
        ];
      }

  -- The map that writing the trees leaves gives them the sizes that they are written with.
  pub write_trees-HasSize :
      (ids : List ℕ) (old new : List (ℕ × PredicateMetadata)) (os os' : OStream)
      → write_trees lib ids s old os ≡ ok (os', new)
      → All IsSized ids
      → All (λ id. HasSize new id (need id)) ids
  unfolding map_of
  write_trees-HasSize ids old new os os' e h =
      let sized = write_trees-AreSized ids old os h in
      subst (λ v. All (λ id. HasSize v id (need id)) ids) (ap (map_of old) (sym sized.result ∙ e))
        sized.sizes
