-- ===== src/PredicatesIndex/Cache/Sync/Loaded.antt =====
-- core/manager/PredicatesIndexCacheMD.cpp: a tree of the index file that is loaded.
use rdfcache_k.PredicatesIndex.Cache.Sync.Sizes.{found-HasSize, HasSize}
use rdfcache_k.K2Tree.Mixed.Required.{required_bytes}
use rdfcache_k.K2Tree.Mixed.RoundTrip.{IsFile}
use rdfcache_k.PredicatesIndex.Cache.Sync.Written.{Placed}
use rdfcache_k.K2Tree.Mixed.{K2TreeMixed}
use rdfcache_k.PredicatesIndex.Metadata.{PredicateMetadata}
use rdfcache_k.PredicatesIndex.Cache.{
  TreeLibrary, keep_tree, is_some, logger_stores, load_from_file, is_stored_in_updates_log,
  is_stored_in_main_index, PredicatesIndexCache, load_single_predicate, UpdatesLogger,
}
use rdfcache_k.Prelude.{
  ltb, ◌≤◌, false, find-assign_ne, ◌≢◌, ℕ, ◌≡◌, refl, arith, ap, ◌∙◌, List, ◌++◌, drop, drop-append,
  none, some, true, find_value, find-assign_self, ok,
}
use rdfcache_k.K2Tree.Mixed.Read as Tree

-- The tree that stands in the file is read.
pub read-Placed :
    (file : List ℕ) (metadata_map : List (ℕ × PredicateMetadata)) (id : ℕ) (tree : K2TreeMixed)
    (bytes : List ℕ) (h : Placed 0 file metadata_map id bytes)
    → IsFile tree bytes
    → Tree.read_from_istream (drop (h.m).tree_offset file) ≡ ok (tree, h.behind)
read-Placed file metadata_map id tree bytes h read =
    ap (λ v. Tree.read_from_istream (drop (h.m).tree_offset v)) h.parts
    ∙ ap Tree.read_from_istream
        (drop-append h.before (bytes ++ h.behind) (h.m).tree_offset (omega (arith, h.place)))
    ∙ read.read h.behind

module _ {L : Type 0} where
  -- Loading a predicate succeeds, and then its tree is in memory.
  abbrev pub Loads :
      UpdatesLogger L → TreeLibrary → ℕ → PredicatesIndexCache L → K2TreeMixed → Type 0
  Loads logger lib id s tree =
      (t : PredicatesIndexCache L) × (load_single_predicate logger lib id s ≡ ok (true, t))
      × (find_value t.predicates id ≡ some (some tree))

  -- The tree fits in the segment, whose size is that of the record.
  pub load_from_file-keep_tree :
      (lib : TreeLibrary) (s : PredicatesIndexCache L) (id : ℕ) (tree : K2TreeMixed)
      (bytes : List ℕ)
      → IsFile tree bytes
      → (h : Placed 0 s.file (s.metadata).metadata_map id bytes)
      → required_bytes lib.sizes tree ≤ (h.m).tree_size_in_memory
      → load_from_file lib (find_value (s.metadata).metadata_map id) s ≡ ok (keep_tree h.m tree s)
  unfolding load_from_file
  load_from_file-keep_tree lib s id tree bytes file h room =
      let fits : ltb (h.m).tree_size_in_memory (required_bytes lib.sizes tree) ≡ false =
        ground arith in
      rw (h.found, read-Placed s.file (s.metadata).metadata_map id tree bytes h file, fits) refl

  pub load_single_predicate-keep_tree :
      (logger : UpdatesLogger L) (lib : TreeLibrary) (s : PredicatesIndexCache L) (id : ℕ)
      (tree : K2TreeMixed) (bytes : List ℕ)
      → is_stored_in_updates_log logger id s ≡ false
      → IsFile tree bytes
      → (h : Placed 0 s.file (s.metadata).metadata_map id bytes)
      → required_bytes lib.sizes tree ≤ (h.m).tree_size_in_memory
      → load_single_predicate logger lib id s ≡ ok (true, keep_tree h.m tree s)
  unfolding load_single_predicate is_stored_in_main_index is_stored_in_updates_log is_some keep_tree
  load_single_predicate-keep_tree logger lib s id tree bytes unlogged file h room =
      rw (load_from_file-keep_tree lib s id tree bytes file h room, unlogged, h.found) refl

  -- The tree is in memory, and the others are as they were.
  pub find-keep_tree :
      (s : PredicatesIndexCache L) (id : ℕ) (tree : K2TreeMixed) (m : PredicateMetadata)
      → m.predicate_id ≡ id
      → find_value (keep_tree m tree s).predicates id ≡ some (some tree)
  unfolding keep_tree
  find-keep_tree s id tree m same = rw same (find-assign_self s.predicates id (some tree))

  pub find-keep_tree_ne :
      (s : PredicatesIndexCache L) (id j : ℕ) (tree : K2TreeMixed) (m : PredicateMetadata)
      → m.predicate_id ≡ id
      → j ≢ id
      → find_value (keep_tree m tree s).predicates j ≡ find_value s.predicates j
  unfolding keep_tree
  find-keep_tree_ne s id j tree m same ne =
      rw same (find-assign_ne s.predicates id j (some tree) ne)

  pub load_single_predicate-Loads :
      (logger : UpdatesLogger L) (lib : TreeLibrary) (s : PredicatesIndexCache L) (id : ℕ)
      (tree : K2TreeMixed) (bytes : List ℕ)
      → s.update_logger ≡ none
      → IsFile tree bytes
      → Placed 0 s.file (s.metadata).metadata_map id bytes
      → HasSize (s.metadata).metadata_map id (required_bytes lib.sizes tree)
      → Loads logger lib id s tree
  unfolding is_stored_in_updates_log logger_stores
  load_single_predicate-Loads logger lib s id tree bytes no_log file h size = (
    keep_tree h.m tree s,
    load_single_predicate-keep_tree logger lib s id tree bytes (rw no_log refl) file h (
        found-HasSize (s.metadata).metadata_map id (required_bytes lib.sizes tree) h.m h.found
          size),
    find-keep_tree s id tree h.m h.same_id,
  )
