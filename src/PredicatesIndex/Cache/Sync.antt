-- ===== src/PredicatesIndex/Cache/Sync.antt =====
-- core/manager/PredicatesIndexCacheMD.cpp: writing a new index file, loading all of it, and merging the
-- log of updates into it. `FileRWHandler` gives an empty stream for the new file, which then takes the
-- place of the old one.
pub mod Patch
pub mod Written
pub mod Sizes
pub mod Persisted
pub mod Assembled
pub mod Loaded
pub mod Reopened
pub mod Repeated
use rdfcache_k.K2Tree.Mixed.Required.{required_bytes, TypeSizes}
use rdfcache_k.Prelude.{
  out_of_memory, ◌+◌, ℕ, ◌-◌, ◌++◌, true, false, if◌then◌else◌, ltb, leb, not, Option, none, some,
  List, [], ◌∷◌, length, take, drop, replicate, map, find_value, assign, Result, ok, err, undefined,
  out_of_range, runtime_error, ◌>>=◌, or_fail, add64,
}
use rdfcache_k.Stream.{OStream, IStream, empty, tellp, seekp, write, write_u64}
use rdfcache_k.K2Tree.Mixed.{K2TreeMixed}
use rdfcache_k.K2Tree.Mixed.Read as Read
use rdfcache_k.K2Tree.Mixed.Write as Write
use rdfcache_k.PredicatesIndex.Metadata.{
  PredicateMetadata, empty_metadata, write_config, write_metadata, write_predicates, entry_or_new,
}
use rdfcache_k.PredicatesIndex.Cache as Cache
use rdfcache_k.PredicatesIndex.Cache.{
  PredicatesIndexCache, TreeLibrary, UpdatesLogger, has_key, insert_key, pointer_at,
}

-- `read` into a buffer of zeros.
unfoldable pub read_buffer : ℕ → IStream → List ℕ
read_buffer n is = take n is ++ replicate (n - length is) 0

unfoldable pub keys : {V : Type 0} → List (ℕ × V) → List ℕ
keys [] = []
keys ((k, v) ∷ m) = k ∷ keys m

-- The loop that makes an empty record for each predicate and writes it.
unfoldable pub write_placeholders :
    List ℕ → List (ℕ × PredicateMetadata) → OStream → OStream × List (ℕ × PredicateMetadata)
write_placeholders [] metadata_map os = (os, metadata_map)
write_placeholders (id ∷ ids) metadata_map os =
    write_placeholders ids (assign metadata_map id empty_metadata)
      (write_metadata empty_metadata os)

-- The bytes of a tree with the record of it, which but for its priority is set.
pub record TreeFile : Type 0 where
  pub bytes : List ℕ
  pub tree_size : ℕ
  pub tree_size_in_memory : ℕ
  pub k2tree_hash : List ℕ

unfoldable pub record_of : ℕ → ℕ → TreeFile → PredicateMetadata → PredicateMetadata
record_of id offset tree entry = record entry {
  predicate_id = id;
  tree_offset = offset;
  tree_size = tree.tree_size;
  tree_size_in_memory = tree.tree_size_in_memory;
  k2tree_hash = tree.k2tree_hash;
}

-- The trees are read one behind the other, into a segment of `size` bytes of which the first
-- `position` are used.
unfoldable pub read_trees :
    TypeSizes
    → (size position : ℕ) → List ℕ
    → IStream
    → List (ℕ × Option K2TreeMixed)
    → Result (List (ℕ × Option K2TreeMixed))
read_trees sizes size position [] is predicates = ok predicates
read_trees sizes size position (id ∷ ids) is predicates = do
  tree ← Read.read_from_istream is
  let next = position + required_bytes sizes tree.0
  let rest = read_trees sizes size next ids tree.1 (assign predicates id (some tree.0))
  if ltb size next then err out_of_memory else rest

module _ {L : Type 0} where
  -- A tree that was not changed is copied from the file.
  unfoldable pub copy_tree : ℕ → PredicatesIndexCache L → Result TreeFile
  copy_tree id s = do
    current_md ← or_fail (find_value (s.metadata).metadata_map id) out_of_range
    ok (record {
      bytes = read_buffer current_md.tree_size (drop current_md.tree_offset s.file);
      tree_size = current_md.tree_size;
      tree_size_in_memory = current_md.tree_size_in_memory;
      k2tree_hash = current_md.k2tree_hash;
    })

  unfoldable pub discard_each : List ℕ → PredicatesIndexCache L → PredicatesIndexCache L
  discard_each [] s = s
  discard_each (p ∷ ps) s = discard_each ps (Cache.discard_in_memory_predicate p s)

  unfoldable pub sum_sizes : List ℕ → PredicatesIndexCache L → ℕ → Result ℕ
  sum_sizes [] s total_bytes = ok total_bytes
  sum_sizes (id ∷ ids) s total_bytes = do
    md ← or_fail (find_value (s.metadata).metadata_map id) out_of_range
    sum_sizes ids s (add64 total_bytes md.tree_size_in_memory)

  -- Where the first tree stands. Without predicates nothing is read.
  unfoldable pub first_offset : List ℕ → PredicatesIndexCache L → Result ℕ
  first_offset [] s = ok 0
  first_offset (id ∷ ids) s = do
    md ← or_fail (find_value (s.metadata).metadata_map id) out_of_range
    ok md.tree_offset

  module _ (lib : TreeLibrary) where
    unfoldable pub all_predicates : PredicatesIndexCache L → List ℕ
    all_predicates s = lib.sort (s.new_predicates ++ keys (s.metadata).metadata_map)

    -- A tree that was changed is written from memory.
    unfoldable pub dump_tree : ℕ → PredicatesIndexCache L → Result TreeFile
    dump_tree id s = do
      in_memory_tree ← or_fail (pointer_at (find_value s.predicates id)) undefined
      ss ← Write.write_to_ostream in_memory_tree empty
      ok (record {
        bytes = (ss.0).content;
        tree_size = ss.1;
        tree_size_in_memory = lib.total_bytes in_memory_tree;
        k2tree_hash = lib.md5calc (ss.0).content;
      })

    unfoldable pub tree_file : ℕ → PredicatesIndexCache L → Result TreeFile
    tree_file id s = if has_key s.dirty_predicates id then dump_tree id s else copy_tree id s

    unfoldable pub write_trees :
        List ℕ
        → PredicatesIndexCache L
        → List (ℕ × PredicateMetadata)
        → OStream
        → Result (OStream × List (ℕ × PredicateMetadata))
    write_trees [] s metadata_map os = ok (os, metadata_map)
    write_trees (id ∷ ids) s metadata_map os = do
      tree ← tree_file id s
      let entry = entry_or_new metadata_map id (find_value metadata_map id)
      write_trees ids s (assign entry.1 id (record_of id (tellp os) tree entry.0))
          (write os tree.bytes)

    unfoldable pub sync_to_stream :
        OStream → PredicatesIndexCache L → Result (OStream × PredicatesIndexCache L)
    sync_to_stream os s = do
      let ids = all_predicates s
      let header = write_config s.k2tree_config (write_u64 os (length ids))
      let placeholders = write_placeholders ids [] header
      trees ← write_trees ids s placeholders.1 placeholders.0
      let patched = write_predicates ids trees.1 (seekp trees.0 (tellp header))
      ok (
        seekp patched.0 (tellp trees.0),
        record s {
          metadata = record {
            metadata_map = patched.1;
            predicates_ids = ids;
            config = s.k2tree_config;
          };
        },
      )

    unfoldable pub sync_to_persistent : PredicatesIndexCache L → Result (PredicatesIndexCache L)
    sync_to_persistent s = do
      written ← sync_to_stream empty s
      ok (record (written.1) { file = (written.0).content })

    -- The set and the size that it clears are those of the caller.
    unfoldable pub clean_up_bulk_sync :
        List ℕ → PredicatesIndexCache L → Result (PredicatesIndexCache L)
    clean_up_bulk_sync loaded_predicates s = do
      synced ← sync_to_persistent s
      ok (discard_each loaded_predicates synced)

    module _ (logger : UpdatesLogger L) where
      -- The trees of the file, and then the updates of the log.
      unfoldable pub recover_all_with :
          Option L → PredicatesIndexCache L → Result (PredicatesIndexCache L)
      recover_all_with none s = ok s
      recover_all_with (some l) s = logger.recover_all l s

      unfoldable pub load_all_predicates : PredicatesIndexCache L → Result (PredicatesIndexCache L)
      load_all_predicates s = do
        let ids = (s.metadata).predicates_ids
        total_bytes ← sum_sizes ids s 0
        offset ← first_offset ids s
        predicates ← read_trees lib.sizes total_bytes 0 ids (drop offset s.file) s.predicates
        recover_all_with s.update_logger
            (record s { full_memory_segment = some total_bytes; predicates = predicates })

      -- The loop over the predicates of the log, with the threshold of 1 GB.
      unfoldable pub sync_predicates :
          List ℕ → List ℕ → ℕ → PredicatesIndexCache L → Result (PredicatesIndexCache L)
      sync_predicates [] loaded total_sz s =
          if ltb 0 total_sz then clean_up_bulk_sync loaded s else ok s
      sync_predicates (p ∷ ps) loaded total_sz s =
          let fetch_next : Result (PredicatesIndexCache L) = (do
            fetched ← Cache.fetch_k2tree logger lib p s
            let missing = sync_predicates ps loaded total_sz fetched.1
            let found : Result (PredicatesIndexCache L) = (do
              tree ← or_fail ((fetched.0).1) undefined
              let size = add64 total_sz (lib.total_bytes tree)
              let with_p = insert_key loaded p
              let next = sync_predicates ps with_p size fetched.1
              let cleaned : Result (PredicatesIndexCache L) = (do
                s' ← clean_up_bulk_sync with_p fetched.1
                sync_predicates ps [] 0 s')
              if leb 1000000000 size then cleaned else next)
            if (fetched.0).0 then found else missing) in
          let skipped = sync_predicates ps loaded total_sz s in
          if Cache.has_predicate_active p s then skipped else fetch_next

      -- The logs are compacted, and their predicates merged into the file.
      unfoldable pub sync_logs : Option L → PredicatesIndexCache L → Result (PredicatesIndexCache L)
      sync_logs none s = err runtime_error
      sync_logs (some l) s = do
        compacted ← logger.compact_logs l
        sync_predicates (logger.get_predicates compacted) [] 0
            (record s { update_logger = some compacted })

      unfoldable pub sync_logs_to_indexes : PredicatesIndexCache L → Result (PredicatesIndexCache L)
      sync_logs_to_indexes s = sync_logs s.update_logger s

      unfoldable pub clean_log : Option L → Option L
      clean_log none = none
      clean_log (some l) = some (logger.clean_append_log l)

      unfoldable pub full_sync_logs_and_memory_with_persistent :
          PredicatesIndexCache L → Result (PredicatesIndexCache L)
      full_sync_logs_and_memory_with_persistent s = do
        persisted ← sync_to_persistent s
        synced ← sync_logs_to_indexes persisted
        ok (record synced { update_logger = clean_log synced.update_logger })
