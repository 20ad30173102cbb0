-- ===== src/Updates/Compaction.antt =====
-- core/updating/UpdatesLoggerImpl.cpp: `compact_logs`, which writes the log again with one update
-- for each predicate.
pub mod Compacted
use rdfcache_k.Prelude.{
  ℕ, [], ◌∷◌, some, none, List, Option, Bool, true, false, ok, err, undefined, runtime_error,
  if◌then◌else◌, ◌==◌, ◌%◌, ◌^◌, length, drop, find_value, Result, ◌>>=◌, or_fail,
}
use rdfcache_k.Stream.{OStream, IStream, empty}
use rdfcache_k.K2Tree.Mixed.{K2TreeMixed}
use rdfcache_k.Updates.Log.{K2TreeUpdates, OffsetsMap, log_updates, recover_single_predicate_update}
use rdfcache_k.Updates.Offsets.{dump_offsets_map}
use rdfcache_k.Updates.Merge.{TreeOps, PredicateUpdate, merge_with}
use rdfcache_k.Updates.Logger.{MetadataStream, UpdatesLoggerImpl, commit_to, reader_or_open}

-- What `recover_single_predicate_update` reads, and what the constructor of `K2TreeUpdates` takes.
unfoldable pub predicate_update : K2TreeUpdates → PredicateUpdate K2TreeMixed
predicate_update u = record {
  predicate_id = u.predicate_id;
  add_update = u.k2tree_add;
  del_update = u.k2tree_del;
}

unfoldable pub k2tree_updates : PredicateUpdate K2TreeMixed → K2TreeUpdates
k2tree_updates u = record {
  predicate_id = u.predicate_id;
  k2tree_add = u.add_update;
  k2tree_del = u.del_update;
}

-- A stream on a file that another has replaced.
unfoldable pub detached : MetadataStream → MetadataStream
detached MetadataStream.failed = MetadataStream.failed
detached (MetadataStream.opened os attached) = MetadataStream.opened os false

-- A reader on no file has nothing to read.
unfoldable pub bytes_of : Option (List ℕ) → List ℕ
bytes_of none = []
bytes_of (some file) = file

-- The blocks that put the new files in place. A stream of the metadata that was open stays on the
-- file that is replaced.
unfoldable pub synced : UpdatesLoggerImpl → OffsetsMap → OStream → UpdatesLoggerImpl
synced s new_offsets tmp_writer = record s {
  index_logs = some tmp_writer.content;
  offsets_file = some (dump_offsets_map new_offsets empty).content;
  metadata_file = some (commit_to empty (length new_offsets)).content;
  current_file_writer = none;
  current_file_reader = none;
  metadata_file_rw = detached s.metadata_file_rw;
  offsets_map = new_offsets;
  total_updates = some (length new_offsets % 2 ^ 32);
}

module _ (ops : TreeOps K2TreeMixed) where
  -- `merged_updates`, with `none` as long as `first` is true.
  unfoldable pub merge_next :
      Option (PredicateUpdate K2TreeMixed) → K2TreeUpdates → PredicateUpdate K2TreeMixed
  merge_next none u = predicate_update u
  merge_next (some merged) u = merge_with ops merged (predicate_update u)

  unfoldable pub compact_offsets :
      ℕ
      → List ℕ
      → List ℕ
      → Option (PredicateUpdate K2TreeMixed)
      → IStream
      → Result (Option (PredicateUpdate K2TreeMixed) × IStream)
  compact_offsets id [] file merged is = ok (merged, is)
  compact_offsets id (offset ∷ offsets) file merged is = do
    update ← recover_single_predicate_update (drop offset file)
    let rest = compact_offsets id offsets file (some (merge_next merged update.0)) update.1 in
        if (update.0).predicate_id == id then rest else err runtime_error

  -- With no offset the id of `merged_updates`, which is then used, has no value.
  unfoldable pub compact_predicate :
      ℕ
      → OffsetsMap
      → List ℕ
      → Option IStream
      → Result (Option (PredicateUpdate K2TreeMixed) × Option IStream)
  compact_predicate id offsets_map file reader = compact_found (find_value offsets_map id)
    where
      compact_found :
          Option (List ℕ) → Result (Option (PredicateUpdate K2TreeMixed) × Option IStream)
      compact_found none = ok (none, reader)
      compact_found (some offsets) = do
        r ← compact_offsets id offsets file none (reader_or_open reader file)
        merged ← or_fail r.0 undefined
        ok (some merged, some r.1)

  -- The loop over the map.
  unfoldable pub compact_each :
      OffsetsMap
      → OffsetsMap
      → List ℕ
      → Option IStream
      → OffsetsMap
      → OStream
      → Result (OffsetsMap × OStream)
  compact_each [] offsets_map file reader new_offsets tmp_writer = ok (new_offsets, tmp_writer)
  compact_each (p ∷ ps) offsets_map file reader new_offsets tmp_writer = do
    r ← compact_predicate p.0 offsets_map file reader
    compacted ← or_fail r.0 undefined
    logged ← log_updates (k2tree_updates compacted ∷ []) new_offsets tmp_writer
    compact_each ps offsets_map file r.1 logged.0 logged.1

  unfoldable pub compact_logs : UpdatesLoggerImpl → Result UpdatesLoggerImpl
  compact_logs s = do
    r ← compact_each s.offsets_map s.offsets_map (bytes_of s.index_logs) none [] empty
    ok (synced s r.0 r.1)
