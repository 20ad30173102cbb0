-- ===== src/PredicatesIndex/Cache/Sync/Reopened.antt =====
-- core/manager/PredicatesIndexCacheMD.cpp: the cache that is opened on the file of another.
use rdfcache_k.K2Tree.Mixed.Required.{required_bytes}
use rdfcache_k.PredicatesIndex.Cache.Sync.Sizes.{All-HasSize, HasSize}
use rdfcache_k.PredicatesIndex.Cache.Sync.Loaded.{load_single_predicate-Loads, Loads}
use rdfcache_k.PredicatesIndex.Cache.Sync.Assembled.{
  read_header, sync_to_persistent-IsAssembled, IsSyncable, file_of,
}
use rdfcache_k.K2Tree.Mixed.RoundTrip.{IsFile}
use rdfcache_k.PredicatesIndex.Cache.Sync.Persisted.{
  stored-AreSized, HasRoom, Placed-HasMetadata, IsTreeLibrary, IsStored, Placed-behind,
}
use rdfcache_k.K2Tree.Mixed.{K2TreeMixed}
use rdfcache_k.PredicatesIndex.Metadata.RoundTrip.{filled_records, filled, IsConfig}
use rdfcache_k.PredicatesIndex.Cache.Sync.Written.{trees_bytes, Placed}
use rdfcache_k.PredicatesIndex.Cache.Sync.{sync_to_persistent, all_predicates}
use rdfcache_k.PredicatesIndex.Metadata.{PredicatesCacheMetadata, PredicateMetadata}
use rdfcache_k.PredicatesIndex.Cache.{
  pointer_at, has_key, open_cache, PredicatesIndexCache, UpdatesLogger, TreeLibrary,
}
use rdfcache_k.Prelude.{
  inr, inl, length, ℕ, ◌≡◌, refl, arith, ap, ◌∙◌, List, [], ◌∷◌, All, none, find_value, Result, ok,
  IsU64,
}
use rdfcache_k.PredicatesIndex.Metadata as Metadata

module _ {L : Type 0} (lib : TreeLibrary) (logger : UpdatesLogger L) where
  record IsOpened (s : PredicatesIndexCache L) (bytes : ℕ → List ℕ)
      (metadata_map : List (ℕ × PredicateMetadata)) (r : Result (PredicatesIndexCache L))
      : Type 0 where
    opened : PredicatesIndexCache L
    result : r ≡ ok opened
    no_log : opened.update_logger ≡ none
    ids : (opened.metadata).predicates_ids ≡ all_predicates lib s
    placed :
        All
          (λ id. Placed 0 opened.file (opened.metadata).metadata_map id (bytes id))
          (all_predicates lib s)
    records :
        All
          (λ id. find_value (opened.metadata).metadata_map id ≡ find_value metadata_map id)
          (all_predicates lib s)

  same_records :
      (file : List ℕ) (old new : List (ℕ × PredicateMetadata)) (bytes : ℕ → List ℕ) (ids : List ℕ)
      → All (λ id. find_value new id ≡ find_value old id) ids
      → All (λ id. Placed 0 file old id (bytes id)) ids
      → All (λ id. Placed 0 file new id (bytes id)) ids
  same_records file old new bytes [] same h = tt
  same_records file old new bytes (id ∷ ids) (same, others) (h, all) = (
    Placed-behind [] file 0 old new id (bytes id) refl same h,
    same_records file old new bytes ids others all,
  )

  open_cache-IsOpened :
      (s : PredicatesIndexCache L) (bytes : ℕ → List ℕ)
      (metadata_map : List (ℕ × PredicateMetadata))
      → IsConfig s.k2tree_config
      → IsU64 (length (all_predicates lib s))
      → All
          (λ id. Placed 0 (file_of lib s bytes metadata_map) metadata_map id (bytes id))
          (all_predicates lib s)
      → IsOpened s bytes metadata_map (open_cache (file_of lib s bytes metadata_map))
  unfolding open_cache
  open_cache-IsOpened s bytes metadata_map config count h =
      let ids = all_predicates lib s in
      let file = file_of lib s bytes metadata_map in
      let t = trees_bytes lib s bytes ids in
      let entries = Placed-HasMetadata 0 file metadata_map bytes ids h in
      let read : PredicatesCacheMetadata = record {
        metadata_map = filled metadata_map [] ids;
        predicates_ids = ids;
        config = s.k2tree_config;
      } in
      let header : Metadata.read_from_istream file ≡ ok (read, t) =
        read_header lib s bytes metadata_map config count entries in
      record {
        opened = record {
          file = file;
          metadata = read;
          predicates = [];
          dirty_predicates = [];
          new_predicates = [];
          k2tree_config = s.k2tree_config;
          memory_segments_map = [];
          full_memory_segment = none;
          update_logger = none;
        };
        result = rw header refl;
        no_log = refl;
        ids = refl;
        placed =
            same_records file metadata_map (filled metadata_map [] ids) bytes ids
              (filled_records metadata_map ids [] entries) h;
        records = filled_records metadata_map ids [] entries;
      }

  Loads-each :
      (u : PredicatesIndexCache L) (trees : ℕ → K2TreeMixed) (bytes : ℕ → List ℕ) (ids : List ℕ)
      → u.update_logger ≡ none
      → All (λ id. IsFile (trees id) (bytes id)) ids
      → All (λ id. Placed 0 u.file (u.metadata).metadata_map id (bytes id)) ids
      → All (λ id. HasSize (u.metadata).metadata_map id (required_bytes lib.sizes (trees id))) ids
      → All (λ id. Loads logger lib id u (trees id)) ids
  Loads-each u trees bytes [] no_log files h sizes = tt
  Loads-each u trees bytes (id ∷ ids) no_log (file, files) (h, all) (size, sizes) = (
    load_single_predicate-Loads logger lib u id (trees id) (bytes id) no_log file h size,
    Loads-each u trees bytes ids no_log files all sizes,
  )

  files_of :
      (s : PredicatesIndexCache L) (trees : ℕ → K2TreeMixed) (bytes : ℕ → List ℕ) (ids : List ℕ)
      → All (λ id. IsStored s id (trees id) (bytes id)) ids
      → All (λ id. IsFile (trees id) (bytes id)) ids
  files_of s trees bytes [] h = tt
  files_of s trees bytes (id ∷ ids) (h, all) = (h.file, files_of s trees bytes ids all)

  -- What was in memory still is, and the rest is in the new file.
  IsStored-each :
      (s t : PredicatesIndexCache L) (trees : ℕ → K2TreeMixed) (bytes : ℕ → List ℕ) (ids : List ℕ)
      → t.dirty_predicates ≡ s.dirty_predicates
      → t.predicates ≡ s.predicates
      → All (λ id. IsStored s id (trees id) (bytes id)) ids
      → All (λ id. Placed 0 t.file (t.metadata).metadata_map id (bytes id)) ids
      → All (λ id. IsStored t id (trees id) (bytes id)) ids
  IsStored-each s t trees bytes [] d p h placed = tt
  IsStored-each s t trees bytes (id ∷ ids) d p (h, all) (here, placed) = (
    record {
      id_fits = h.id_fits;
      file = h.file;
      fits = h.fits;
      stored = elim h.stored [
        | inl (dirty, there) ↦
            inl (ap (λ v. has_key v id) d ∙ dirty, ap (λ v. pointer_at (find_value v id)) p ∙ there)
        | inr (clean, there) ↦ inr (ap (λ v. has_key v id) d ∙ clean, here)
      ];
    },
    IsStored-each s t trees bytes ids d p all placed,
  )

  HasRoom-each :
      (s t : PredicatesIndexCache L) (trees : ℕ → K2TreeMixed) (ids : List ℕ)
      → t.dirty_predicates ≡ s.dirty_predicates
      → All (λ id. HasRoom lib s id (trees id)) ids
      → All (λ id. HasSize (t.metadata).metadata_map id (required_bytes lib.sizes (trees id))) ids
      → All (λ id. HasRoom lib t id (trees id)) ids
  HasRoom-each s t trees [] d h sizes = tt
  HasRoom-each s t trees (id ∷ ids) d (h, all) (size, sizes) = (
    elim h [
      | inl (dirty, room) ↦ inl (ap (λ v. has_key v id) d ∙ dirty, room)
      | inr (clean, old) ↦ inr (ap (λ v. has_key v id) d ∙ clean, size)
    ],
    HasRoom-each s t trees ids d all sizes,
  )

  -- If the words of the new file fit, with hashes of sixteen bytes and sizes of trees that are words, and
  -- the cache has a tree for each new predicate and each predicate of its file, in memory where it was
  -- changed, and the size in memory of each tree (computed by the library if it was changed, else that of
  -- its record) is at least what reading it takes of a segment, then `sync_to_persistent` succeeds; the
  -- cache still has these trees and such sizes, and one that is opened on the new file has the same
  -- predicates and loads the same trees.
  pub sync_to_persistent-keeps_trees :
      (s : PredicatesIndexCache L) (trees : ℕ → K2TreeMixed) (bytes : ℕ → List ℕ)
      → IsTreeLibrary lib
      → IsSyncable lib s trees bytes
      → All (λ id. HasRoom lib s id (trees id)) (all_predicates lib s)
      → (t u : PredicatesIndexCache L) × (sync_to_persistent lib s ≡ ok t)
        × All (λ id. IsStored t id (trees id) (bytes id)) (all_predicates lib s)
        × All (λ id. HasRoom lib t id (trees id)) (all_predicates lib s)
        × (open_cache t.file ≡ ok u)
        × ((u.metadata).predicates_ids ≡ all_predicates lib s)
        × All (λ id. Loads logger lib id u (trees id)) (all_predicates lib s)
  sync_to_persistent-keeps_trees s trees bytes promised h rooms =
      let ids = all_predicates lib s in
      let need : ℕ → ℕ = λ id. required_bytes lib.sizes (trees id) in
      let synced = sync_to_persistent-IsAssembled lib s trees bytes promised h in
      let sizes = synced.sizes need (stored-AreSized lib s trees bytes ids h.stored rooms) in
      let t : PredicatesIndexCache L = record s {
        file = file_of lib s bytes synced.metadata_map;
        metadata = record {
          metadata_map = synced.metadata_map;
          predicates_ids = ids;
          config = s.k2tree_config;
        };
      } in
      let opened =
        open_cache-IsOpened s bytes synced.metadata_map h.config_fits (omega (arith, h.size_fits))
          synced.placed in
      let u = opened.opened in
      (
        t,
        u,
        synced.result,
        IsStored-each s t trees bytes ids refl refl h.stored synced.placed,
        HasRoom-each s t trees ids refl rooms sizes,
        opened.result,
        opened.ids,
        Loads-each u trees bytes ids opened.no_log (files_of s trees bytes ids h.stored)
            opened.placed
            (All-HasSize synced.metadata_map (u.metadata).metadata_map need ids opened.records
              sizes),
      )
