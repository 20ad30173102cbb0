-- ===== src/PredicatesIndex/Cache.antt =====
-- core/manager/PredicatesIndexCacheMD.cpp: the k2-trees in memory and those of the index file. The locks
-- and the moves of the constructors are left out.
pub mod Sync
pub mod Inserted
pub mod Examples
use rdfcache_k.K2Tree.Mixed.Required.{required_bytes, TypeSizes}
use rdfcache_k.Prelude.{
  out_of_memory, ℕ, zero, suc, Bool, true, false, not, ◌&&◌, ◌||◌, ◌==◌, ltb, if◌then◌else◌, Option,
  none, some, List, [], ◌∷◌, drop, find_value, assign, erase_key, Result, ok, err, undefined, ◌>>=◌,
  or_fail,
}
use rdfcache_k.Stream.{IStream}
use rdfcache_k.K2Tree.Mixed.{K2Node, K2TreeMixed}
use rdfcache_k.K2Tree.Mixed.Read as Tree
use rdfcache_k.PredicatesIndex.Metadata.{K2TreeConfig, PredicateMetadata, PredicatesCacheMetadata}
use rdfcache_k.PredicatesIndex.Metadata as Metadata

-- `file` holds the bytes that `is` reads; every read starts with a move to a place of the file. A tree of
-- `predicates` may be a null pointer. Of a memory segment its size is kept. `L` stands for the updates
-- logger, which may be a null pointer.
pub record PredicatesIndexCache (L : Type 0) : Type 0 where
  pub file : IStream
  pub metadata : PredicatesCacheMetadata
  pub predicates : List (ℕ × Option K2TreeMixed)
  pub dirty_predicates : List ℕ
  pub new_predicates : List ℕ
  pub k2tree_config : K2TreeConfig
  pub memory_segments_map : List (ℕ × ℕ)
  pub full_memory_segment : Option ℕ
  pub update_logger : Option L

-- What the code uses of other libraries: the nodes of the k2-trees, their insertion, the sizes of their
-- types and of whole trees, `std::sort` and `md5calc`.
pub record TreeLibrary : Type 0 where
  pub sizes : TypeSizes
  pub create_k2node : (r : ℕ) → K2Node r
  pub insert : K2TreeMixed → ℕ → ℕ → K2TreeMixed
  pub total_bytes : K2TreeMixed → ℕ
  pub md5calc : List ℕ → List ℕ
  pub sort : List ℕ → List ℕ

-- `UpdatesLogger`. To recover updates merges them into the trees of the cache.
pub record UpdatesLogger (L : Type 0) : Type 0 where
  pub stores : ℕ → L → Bool
  pub recover_predicate : ℕ → L → PredicatesIndexCache L → Result (PredicatesIndexCache L)
  pub recover_all : L → PredicatesIndexCache L → Result (PredicatesIndexCache L)
  pub compact_logs : L → Result L
  pub get_predicates : L → List ℕ
  pub clean_append_log : L → L

unfoldable pub is_some : {A : Type 0} → Option A → Bool
is_some none = false
is_some (some a) = true

-- `s.find(k) != s.end()`.
unfoldable pub has_key : List ℕ → ℕ → Bool
has_key [] k = false
has_key (k' ∷ ks) k = k == k' || has_key ks k

-- `s.insert(k)`, in key order.
unfoldable pub insert_key : List ℕ → ℕ → List ℕ
insert_key [] k = k ∷ []
insert_key (k' ∷ ks) k =
    let rest = insert_key ks k in
    if ltb k k' then k ∷ k' ∷ ks else (if k == k' then k' ∷ ks else k' ∷ rest)

unfoldable pub erase_from_set : List ℕ → ℕ → List ℕ
erase_from_set [] k = []
erase_from_set (k' ∷ ks) k = let rest = erase_from_set ks k in if k == k' then rest else k' ∷ rest

-- The pointer that `predicates[p]` gives; a missing key gets a null pointer.
unfoldable pub pointer_at : Option (Option K2TreeMixed) → Option K2TreeMixed
pointer_at none = none
pointer_at (some p) = p

module _ {L : Type 0} where
  -- The constructor that opens the file.
  unfoldable pub open_cache : IStream → Result (PredicatesIndexCache L)
  open_cache file = do
    metadata ← Metadata.read_from_istream file
    ok (record {
      file = file;
      metadata = metadata.0;
      predicates = [];
      dirty_predicates = [];
      new_predicates = [];
      k2tree_config = (metadata.0).config;
      memory_segments_map = [];
      full_memory_segment = none;
      update_logger = none;
    })

  unfoldable pub set_update_logger : L → PredicatesIndexCache L → PredicatesIndexCache L
  set_update_logger l s = record s { update_logger = some l }

  unfoldable pub is_stored_in_main_index : ℕ → PredicatesIndexCache L → Bool
  is_stored_in_main_index p s = is_some (find_value (s.metadata).metadata_map p)

  unfoldable pub has_predicate_active : ℕ → PredicatesIndexCache L → Bool
  has_predicate_active p s = is_some (find_value s.predicates p) || has_key s.new_predicates p

  unfoldable pub mark_dirty : ℕ → PredicatesIndexCache L → PredicatesIndexCache L
  mark_dirty p s = record s { dirty_predicates = insert_key s.dirty_predicates p }

  unfoldable pub discard_in_memory_predicate : ℕ → PredicatesIndexCache L → PredicatesIndexCache L
  discard_in_memory_predicate p s = record s {
    predicates = erase_key s.predicates p;
    memory_segments_map = erase_key s.memory_segments_map p;
    new_predicates = erase_from_set s.new_predicates p;
    dirty_predicates = erase_from_set s.dirty_predicates p;
  }

  -- A tree that was read, with its new segment.
  unfoldable pub keep_tree :
      PredicateMetadata → K2TreeMixed → PredicatesIndexCache L → PredicatesIndexCache L
  keep_tree m tree s = record s {
    memory_segments_map = assign s.memory_segments_map m.predicate_id m.tree_size_in_memory;
    predicates = assign s.predicates m.predicate_id (some tree);
  }

  -- The tree of the file, if it has one. The reader takes its bytes from a segment of the size that the
  -- record gives, and throws when they are used up.
  unfoldable pub load_from_file :
      TreeLibrary
      → Option PredicateMetadata
      → PredicatesIndexCache L
      → Result (PredicatesIndexCache L)
  load_from_file lib none s = ok s
  load_from_file lib (some m) s = do
    tree ← Tree.read_from_istream (drop m.tree_offset s.file)
    if ltb m.tree_size_in_memory (required_bytes lib.sizes tree.0)
        then err out_of_memory
        else ok (keep_tree m tree.0 s)

  module _ (logger : UpdatesLogger L) where
    unfoldable pub logger_stores : Option L → ℕ → Bool
    logger_stores none p = false
    logger_stores (some l) p = logger.stores p l

    unfoldable pub is_stored_in_updates_log : ℕ → PredicatesIndexCache L → Bool
    is_stored_in_updates_log p s = logger_stores s.update_logger p

    unfoldable pub has_predicate_stored : ℕ → PredicatesIndexCache L → Bool
    has_predicate_stored p s =
        if is_stored_in_main_index p s then true else is_stored_in_updates_log p s

    unfoldable pub has_predicate : ℕ → PredicatesIndexCache L → Bool
    has_predicate p s = has_predicate_active p s || has_predicate_stored p s

    -- A null logger is only followed where the log has the predicate.
    unfoldable pub recover_with :
        Option L → ℕ → PredicatesIndexCache L → Result (PredicatesIndexCache L)
    recover_with none p s = err undefined
    recover_with (some l) p s = logger.recover_predicate p l s

    module _ (lib : TreeLibrary) where
      unfoldable pub load_single_predicate :
          ℕ → PredicatesIndexCache L → Result (Bool × PredicatesIndexCache L)
      load_single_predicate p s =
          if not (is_stored_in_main_index p s) && not (is_stored_in_updates_log p s)
          then ok (false, s)
          else (do
            loaded ← load_from_file lib (find_value (s.metadata).metadata_map p) s
            s' ←
                (if is_stored_in_updates_log p loaded
                  then recover_with loaded.update_logger p loaded
                  else ok loaded)
            ok (true, s'))

      -- `K2TreeMixed(k2tree_config)`.
      unfoldable pub new_k2tree : K2TreeConfig → K2TreeMixed
      new_k2tree config = record {
        tree_depth = config.treedepth;
        cut_depth = config.cut_depth;
        max_nodes_count = config.max_node_count;
        points_count = 0;
        root = lib.create_k2node config.cut_depth;
      }

      unfoldable pub add_predicate : ℕ → PredicatesIndexCache L → PredicatesIndexCache L
      add_predicate p s = record s {
        dirty_predicates = insert_key s.dirty_predicates p;
        predicates = assign s.predicates p (some (new_k2tree s.k2tree_config));
        new_predicates = insert_key s.new_predicates p;
      }

      -- The second half of `fetch_k2tree`, with the pointer that it returns.
      unfoldable pub fetch_loaded :
          ℕ → PredicatesIndexCache L → Result ((Bool × Option K2TreeMixed) × PredicatesIndexCache L)
      fetch_loaded p s = do
        s' ←
            (if not (has_predicate_active p s) && is_stored_in_updates_log p s
              then recover_with s.update_logger p (add_predicate p s)
              else ok s)
        let tree = pointer_at (find_value s'.predicates p)
        ok ((true, tree), record s' { predicates = assign s'.predicates p tree })

      unfoldable pub fetch_k2tree :
          ℕ → PredicatesIndexCache L → Result ((Bool × Option K2TreeMixed) × PredicatesIndexCache L)
      fetch_k2tree p s = do
        loaded ←
            (if is_some (find_value s.predicates p)
              then ok (true, s)
              else load_single_predicate p s)
        let fetched = fetch_loaded p loaded.1 in
            if loaded.0 then fetched else ok ((false, none), loaded.1)

      unfoldable pub fetch_k2tree_if_loaded : ℕ → PredicatesIndexCache L → Bool × Option K2TreeMixed
      fetch_k2tree_if_loaded p s =
          if is_some (find_value s.predicates p)
          then (true, pointer_at (find_value s.predicates p))
          else (has_predicate_stored p s, none)

      -- The state in which `insert_point` follows the pointer.
      unfoldable pub ready_for_insert : ℕ → PredicatesIndexCache L → Result (PredicatesIndexCache L)
      ready_for_insert p s =
          if has_predicate_active p s
          then ok s
          else (if has_predicate_stored p s
              then (do loaded ← load_single_predicate p s; ok loaded.1)
              else ok (add_predicate p s))

      unfoldable pub insert_point :
          ℕ → ℕ → ℕ → PredicatesIndexCache L → Result (PredicatesIndexCache L)
      insert_point subject p object s = do
        s' ← ready_for_insert p (mark_dirty p s)
        tree ← or_fail (pointer_at (find_value s'.predicates p)) undefined
        ok (record s' {
          predicates = assign s'.predicates p (some (lib.insert tree subject object));
        })
