-- ===== src/Updates/Logger/Logging.antt =====
-- core/updating/UpdatesLoggerImpl.cpp: what `log` leaves in the files, and the constructor on them.
use rdfcache_k.Prelude.{
  arith, ◌+◌, ◌<◌, ℕ, [], ◌∷◌, ◌++◌, some, none, List, true, ok, length, ◌≡◌, refl, ap, ◌∙◌, IsU32,
  All, append-nil,
}
use rdfcache_k.Stream.{empty, u32_bytes}
use rdfcache_k.Stream.Laws.{
  at_end, empty-at_end, read_u32-bytes, length-u32_bytes, content-at_end, tellp-at_end, rewrite_u32,
  seekp-after_u32, after_u32-at_end,
}
use rdfcache_k.Updates.Log.{K2TreeUpdates}
use rdfcache_k.Updates.Log.Records.{IsUpdate}
use rdfcache_k.Updates.Log.Indexed.{IsIndexed, log_updates-IsAppended, logged}
use rdfcache_k.Updates.Offsets.{dump_offsets_map}
use rdfcache_k.Updates.Offsets.RoundTrip.{IsOffsetsMap, retrieve_offsets_map-dump_offsets_map}
use rdfcache_k.Updates.Logger.{
  incremented, MergeCall, MetadataStream, UpdatesLoggerImpl, read_total_updates, new_updates_logger,
  commit_to, commit_stream, commit_total_updates, writer_or_open, log,
}
use rdfcache_k.Updates.Logger.Recovery.{IsLogged}

-- The logger has logged `us` in `n` calls: where it goes on writing, and its map.
pub record IsLogging (s : UpdatesLoggerImpl) (us : List K2TreeUpdates) (n : ℕ) : Type 0 where
  pub content : List ℕ
  pub writer : writer_or_open s.current_file_writer ≡ at_end content
  pub indexed : IsIndexed content s.offsets_map us
  pub total : s.total_updates ≡ some n
  pub metadata : s.metadata_file_rw ≡ MetadataStream.opened (at_end (u32_bytes n)) true

-- The files have what the logger has.
pub record IsSynced (s : UpdatesLoggerImpl) (us : List K2TreeUpdates) (n : ℕ) : Type 0 where
  pub logs : IsLogged s us
  pub offsets : s.offsets_file ≡ some (dump_offsets_map s.offsets_map empty).content
  pub metadata : s.metadata_file ≡ some (u32_bytes n)

commit_to-total : (v w : ℕ) → commit_to (at_end (u32_bytes v)) w ≡ at_end (u32_bytes w)
unfolding commit_to
commit_to-total v w =
    rw (tellp-at_end (u32_bytes v), length-u32_bytes v, rewrite_u32 v w) (seekp-after_u32 w)

commit_total-fields :
    (s : UpdatesLoggerImpl) (n w : ℕ)
    → s.metadata_file_rw ≡ MetadataStream.opened (at_end (u32_bytes n)) true
    → commit_total_updates w s ≡ record s {
      metadata_file_rw = MetadataStream.opened (at_end (u32_bytes w)) true;
      metadata_file = some (u32_bytes w);
      total_updates = some w;
    }
unfolding commit_total_updates commit_stream
commit_total-fields s n w e = rw (e, commit_to-total n w, content-at_end) refl

incremented-below : (n : ℕ) → n < 2147483647 → incremented n ≡ ok (n + 1)
unfolding incremented
incremented-below n h = ground arith

-- If the writer stands at the end of the log of all updates before (or is closed with nothing
-- logged so far), the stream of the number of calls is open on its file, this number is below the
-- greatest `int`, and the updates fit, then logging them succeeds, and the logger has then logged
-- them behind those before, in one call more; the map locates them all and the three files say the
-- same.
pub log-IsLogging :
    (s : UpdatesLoggerImpl) (us new : List K2TreeUpdates) (n : ℕ)
    → IsLogging s us n
    → n < 2147483647
    → All IsUpdate new
    → (s' : UpdatesLoggerImpl) × (log new s ≡ ok s')
      × IsLogging s' (us ++ logged new) (n + 1)
      × IsSynced s' (us ++ logged new) (n + 1)
      × (s'.merged ≡ s.merged ++ MergeCall.merge_update_list new ∷ [])
unfolding log
log-IsLogging s us new n h few fits =
    let step = log_updates-IsAppended new us s.offsets_map h.content fits h.indexed in
    let content = (h.content ++ u32_bytes (length new)) ++ step.bytes in
    (
      record s {
        index_logs = some content;
        offsets_file = some (dump_offsets_map step.offsets empty).content;
        metadata_file = some (u32_bytes (n + 1));
        current_file_writer = some (at_end content);
        current_file_reader = none;
        metadata_file_rw = MetadataStream.opened (at_end (u32_bytes (n + 1))) true;
        offsets_map = step.offsets;
        total_updates = some (n + 1);
        merged = s.merged ++ MergeCall.merge_update_list new ∷ [];
      },
      rw (h.total, h.writer, step.result, incremented-below n few)
          (ap ok (commit_total-fields _ n _ h.metadata ∙ rw content-at_end refl)),
      record {
        content = content;
        writer = unfold writer_or_open in refl;
        indexed = step.indexed;
        total = refl;
        metadata = refl;
      },
      record {
        logs = record { content = content; file = refl; indexed = step.indexed };
        offsets = refl;
        metadata = refl;
      },
      refl,
    )

read_total-file :
    (n : ℕ)
    → IsU32 n
    → read_total_updates (some (u32_bytes n))
      ≡ ok (some n, MetadataStream.opened (at_end (u32_bytes n)) true)
unfolding read_total_updates
read_total-file n fits =
    rw
      (
        ← append-nil (u32_bytes n),
        read_u32-bytes n [] fits,
        append-nil (u32_bytes n),
        length-u32_bytes n,
        after_u32-at_end n,
      )
      refl

-- If the files say what the logger has, with a number of calls and a map that fit, then a logger
-- made on them has the same map and number and the log of the same updates.
pub new_updates_logger-IsLogged :
    (s : UpdatesLoggerImpl) (us : List K2TreeUpdates) (n : ℕ)
    → IsSynced s us n
    → IsU32 n
    → IsOffsetsMap s.offsets_map
    → (s' : UpdatesLoggerImpl) × (new_updates_logger s.index_logs s.offsets_file s.metadata_file
        ≡ ok s')
      × (s'.offsets_map ≡ s.offsets_map)
      × (s'.total_updates ≡ some n)
      × IsLogged s' us
unfolding new_updates_logger
new_updates_logger-IsLogged s us n h fits ordered =
    let (file, dumped, retrieved) = retrieve_offsets_map-dump_offsets_map s.offsets_map ordered in
    (
      record {
        index_logs = s.index_logs;
        offsets_file = s.offsets_file;
        metadata_file = s.metadata_file;
        current_file_writer = none;
        current_file_reader = none;
        metadata_file_rw = MetadataStream.opened (at_end (u32_bytes n)) true;
        offsets_map = s.offsets_map;
        total_updates = some n;
        merged = [];
      },
      rw
          (
            h.offsets,
            h.metadata,
            empty-at_end,
            dumped,
            content-at_end file,
            retrieved,
            read_total-file n fits,
          )
          refl,
      refl,
      refl,
      record { content = h.logs.content; file = h.logs.file; indexed = h.logs.indexed },
    )
