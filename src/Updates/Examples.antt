-- ===== src/Updates/Examples.antt =====
-- Tests of the log of updates on a small k2-tree.
use rdfcache_k.Prelude.{
  ◌+◌, inr, inl, ◌∙◌, ◌==◌, sym, Bool-cases, append-nil, ap, find_value, ℕ, [], ◌∷◌, ◌++◌, some,
  none, List, true, ok, length, All, ◌≡◌, ◌≢◌, refl, arith,
}
use rdfcache_k.Stream.{IStream, empty, u32_bytes}
use rdfcache_k.Stream.Laws.{length-u32_bytes, empty-at_end, at_end}
use rdfcache_k.K2Tree.Mixed.{K2TreeMixed}
use rdfcache_k.K2Tree.Examples.{sample, sample-IsMixed}
use rdfcache_k.Updates.Log.{K2TreeUpdates, OffsetsMap}
use rdfcache_k.Updates.Log.Records.{IsUpdate, IsRecord, IsUpdate-IsRecord}
use rdfcache_k.Updates.Log.Indexed.{Points, At, IsIndexed, Locates, updates_of, logged}
use rdfcache_k.Updates.Offsets.{dump_offsets_map, retrieve_offsets_map}
use rdfcache_k.Updates.Offsets.RoundTrip.{
  IsOffsetsMap, IsAscending, retrieve_offsets_map-dump_offsets_map,
}
use rdfcache_k.Updates.Logger.{
  MergeCall, MetadataStream, UpdatesLoggerImpl, writer_or_open, log, recover_predicate, recovered,
  new_updates_logger,
}
use rdfcache_k.Updates.Logger.Recovery.{IsLogged, calls_of, recover_predicate-calls}
use rdfcache_k.Updates.Logger.Logging.{
  IsLogging, IsSynced, log-IsLogging, new_updates_logger-IsLogged,
}
use rdfcache_k.Updates.Merge.{TreeOps}
use rdfcache_k.Updates.Compaction.{k2tree_updates, predicate_update, compact_logs}
use rdfcache_k.Updates.Compaction.Compacted.{
  merge_all, compacted_update, compacted_updates, compact_logs-IsLogged,
}

abbrev sample_update : K2TreeUpdates
sample_update = record { predicate_id = 7; k2tree_add = some sample; k2tree_del = none }

sample_update-IsUpdate : IsUpdate sample_update
sample_update-IsUpdate = record { id_fits = omega arith; add_fits = sample-IsMixed; del_fits = tt }

abbrev samples : List K2TreeUpdates
samples = sample_update ∷ []

samples-fit : All IsUpdate samples
samples-fit = (sample_update-IsUpdate, tt)

IsUpdate-IsRecord_example : (bytes : List ℕ) × IsRecord sample_update bytes
IsUpdate-IsRecord_example = IsUpdate-IsRecord sample_update sample_update-IsUpdate

nothing-IsIndexed : IsIndexed [] [] []
unfolding Locates updates_of find_value
nothing-IsIndexed id = refl

abbrev some_offsets : OffsetsMap
some_offsets = (3, 4 ∷ 90 ∷ []) ∷ (8, 40 ∷ []) ∷ []

some_offsets-IsOffsetsMap : IsOffsetsMap some_offsets
unfolding IsAscending
some_offsets-IsOffsetsMap = record {
  ascending = ((omega arith, tt), (tt, tt));
  entries = (
    (omega arith, omega arith, (omega arith, (omega arith, tt))),
    ((omega arith, omega arith, (omega arith, tt)), tt),
  );
  size_fits = omega arith;
}

retrieve_offsets_map-dump_offsets_map_example :
    (file : List ℕ) × (dump_offsets_map some_offsets (at_end []) ≡ at_end file)
    × (retrieve_offsets_map (some file) [] ≡ ok some_offsets)
retrieve_offsets_map-dump_offsets_map_example =
    retrieve_offsets_map-dump_offsets_map some_offsets some_offsets-IsOffsetsMap

-- A logger on files that hold no update yet.
abbrev fresh : UpdatesLoggerImpl
fresh = record {
  index_logs = none;
  offsets_file = none;
  metadata_file = some (u32_bytes 0);
  current_file_writer = none;
  current_file_reader = none;
  metadata_file_rw = MetadataStream.opened (at_end (u32_bytes 0)) true;
  offsets_map = [];
  total_updates = some 0;
  merged = [];
}

fresh-IsLogging : IsLogging fresh [] 0
unfolding writer_or_open
fresh-IsLogging = record {
  content = [];
  writer = empty-at_end;
  indexed = nothing-IsIndexed;
  total = refl;
  metadata = refl;
}

log-IsLogging_example :
    (s : UpdatesLoggerImpl) × (log samples fresh ≡ ok s)
    × IsLogging s ([] ++ logged samples) (0 + 1)
    × IsSynced s ([] ++ logged samples) (0 + 1)
    × (s.merged ≡ [] ++ MergeCall.merge_update_list samples ∷ [])
log-IsLogging_example = log-IsLogging fresh [] samples 0 fresh-IsLogging (omega arith) samples-fit

-- The bytes of the update in the file of a logger that has logged it.
abbrev record_bytes : List ℕ
record_bytes = (IsUpdate-IsRecord sample_update sample_update-IsUpdate).0

abbrev after_log : UpdatesLoggerImpl
after_log = record {
  index_logs = some (u32_bytes 1 ++ record_bytes);
  offsets_file = some (dump_offsets_map ((7, 4 ∷ []) ∷ []) empty).content;
  metadata_file = some (u32_bytes 1);
  current_file_writer = none;
  current_file_reader = none;
  metadata_file_rw = MetadataStream.opened (at_end (u32_bytes 1)) true;
  offsets_map = (7, 4 ∷ []) ∷ [];
  total_updates = some 1;
  merged = [];
}

sample-At : At (u32_bytes 1 ++ record_bytes) sample_update 4
sample-At = record {
  before = u32_bytes 1;
  bytes = record_bytes;
  behind = [];
  is_record = (IsUpdate-IsRecord sample_update sample_update-IsUpdate).1;
  place = rw append-nil refl;
  start = sym (length-u32_bytes 1);
}

sample-IsIndexed : IsIndexed (u32_bytes 1 ++ record_bytes) after_log.offsets_map samples
unfolding Locates Points find_value updates_of
sample-IsIndexed id = elim (Bool-cases (id == 7)) [
  | inl e ↦ rw e (omega arith, (sample-At, tt))
  | inr e ↦ rw e refl
]

after_log-IsLogged : IsLogged after_log samples
after_log-IsLogged = record {
  content = u32_bytes 1 ++ record_bytes;
  file = refl;
  indexed = sample-IsIndexed;
}

after_log-IsSynced : IsSynced after_log samples 1
after_log-IsSynced = record { logs = after_log-IsLogged; offsets = refl; metadata = refl }

sample-updates_of : updates_of samples 7 ≡ samples
unfolding updates_of
sample-updates_of = refl

samples-found : updates_of samples 7 ≢ []
samples-found e = omega (arith, ap length (sym sample-updates_of ∙ e))

recover_predicate-calls_example :
    (left : IStream) × (recover_predicate 7 after_log
      ≡ ok (recovered after_log (calls_of (updates_of samples 7), left)))
recover_predicate-calls_example =
    recover_predicate-calls after_log samples 7 after_log-IsLogged samples-found

after_log-IsOffsetsMap : IsOffsetsMap after_log.offsets_map
unfolding IsAscending
after_log-IsOffsetsMap = record {
  ascending = (tt, tt);
  entries = ((omega arith, omega arith, (omega arith, tt)), tt);
  size_fits = omega arith;
}

new_updates_logger-IsLogged_example :
    (s : UpdatesLoggerImpl) × (new_updates_logger after_log.index_logs after_log.offsets_file
        after_log.metadata_file
      ≡ ok s)
    × (s.offsets_map ≡ after_log.offsets_map)
    × (s.total_updates ≡ some 1)
    × IsLogged s samples
new_updates_logger-IsLogged_example =
    new_updates_logger-IsLogged after_log samples 1 after_log-IsSynced (omega arith)
      after_log-IsOffsetsMap

-- A library on which nothing has to be merged: the one update is copied.
abbrev no_ops : TreeOps K2TreeMixed
no_ops = record { insert = λ c r t. t; remove = λ c r t. t; points = λ t. [] }

compacted-fit : All IsUpdate (compacted_updates no_ops after_log.offsets_map samples)
unfolding compacted_updates compacted_update merge_all updates_of predicate_update k2tree_updates
compacted-fit = samples-fit

compact_logs-IsLogged_example :
    (s : UpdatesLoggerImpl) × (compact_logs no_ops after_log ≡ ok s)
    × IsLogged s (logged (compacted_updates no_ops after_log.offsets_map samples))
compact_logs-IsLogged_example =
    compact_logs-IsLogged no_ops after_log samples after_log-IsLogged compacted-fit
