-- ===== src/Updates/Logger.antt =====
-- core/updating/UpdatesLoggerImpl.cpp: the log, its three files and its streams.
pub mod Recovery
pub mod Logging
use rdfcache_k.Prelude.{
  ℕ, suc, zero, ◌+◌, ◌%◌, ◌^◌, [], ◌∷◌, ◌++◌, some, none, List, Option, Bool, true, false, ok, err,
  undefined, if◌then◌else◌, ltb, ◌==◌, length, drop, map, find_value, Result, ◌>>=◌, or_fail, add32,
}
use rdfcache_k.Stream.{OStream, IStream, empty, seekp, tellp, write_u32, read_u32}
use rdfcache_k.K2Tree.Mixed.{K2TreeMixed}
use rdfcache_k.Updates.Log.{K2TreeUpdates, OffsetsMap, log_updates, recover_single_predicate_update}
use rdfcache_k.Updates.Offsets.{dump_offsets_map, retrieve_offsets_map, rounds_of_int}

-- A call of the `DataMerger`.
pub data MergeCall : Type 0 where
  merge_add_tree merge_delete_tree : ℕ → K2TreeMixed → MergeCall
  merge_update_list : List K2TreeUpdates → MergeCall

-- A stream opened for reading and writing has one position. It fails if there is no file, and it
-- is not attached once another file has taken its file's name.
pub data MetadataStream : Type 0 where
  failed : MetadataStream
  opened : OStream → (attached : Bool) → MetadataStream

-- A file that does not exist is `none`. The writer's bytes are those of the file of updates, since
-- each operation flushes it, and the reader is what is left of that file. `total_updates` is the
-- 32 bits of the `int`, or `none` while it has no value. `merged` are the calls made so far.
pub record UpdatesLoggerImpl : Type 0 where
  pub index_logs : Option (List ℕ)
  pub offsets_file : Option (List ℕ)
  pub metadata_file : Option (List ℕ)
  pub current_file_writer : Option OStream
  pub current_file_reader : Option IStream
  pub metadata_file_rw : MetadataStream
  pub offsets_map : OffsetsMap
  pub total_updates : Option ℕ
  pub merged : List MergeCall

-- A read beyond the end leaves the stream failed.
unfoldable pub read_total_updates : Option (List ℕ) → Result (Option ℕ × MetadataStream)
read_total_updates none = ok (none, MetadataStream.failed)
read_total_updates (some file) = do
  total ← read_u32 file
  let os : OStream = record { content = file; put_pos = 4 } in
      ok (
        some total.0,
        if ltb (length file) 4 then MetadataStream.failed else MetadataStream.opened os true,
      )

-- The constructor.
unfoldable pub new_updates_logger :
    Option (List ℕ) → Option (List ℕ) → Option (List ℕ) → Result UpdatesLoggerImpl
new_updates_logger index_logs offsets_file metadata_file = do
  offsets_map ← retrieve_offsets_map offsets_file []
  total ← read_total_updates metadata_file
  ok (record {
    index_logs = index_logs;
    offsets_file = offsets_file;
    metadata_file = metadata_file;
    current_file_writer = none;
    current_file_reader = none;
    metadata_file_rw = total.1;
    offsets_map = offsets_map;
    total_updates = total.0;
    merged = [];
  })

-- The static `commit_total_updates`.
unfoldable pub commit_to : OStream → ℕ → OStream
commit_to os total =
    let written = write_u32 (seekp os 0) total in
    if tellp os == 0 then written else seekp written (tellp os)

-- The stream and the file after the commit.
unfoldable pub commit_stream :
    MetadataStream → ℕ → Option (List ℕ) → MetadataStream × Option (List ℕ)
commit_stream MetadataStream.failed total file = (MetadataStream.failed, file)
commit_stream (MetadataStream.opened os attached) total file =
    let written = commit_to os total in
    (MetadataStream.opened written attached, if attached then some written.content else file)

unfoldable pub commit_total_updates : ℕ → UpdatesLoggerImpl → UpdatesLoggerImpl
commit_total_updates total s =
    let committed = commit_stream s.metadata_file_rw total s.metadata_file in
    record s {
      metadata_file_rw = committed.0;
      metadata_file = committed.1;
      total_updates = some total;
    }

-- The writer is opened without `std::ios::app`, which empties the file.
unfoldable pub writer_or_open : Option OStream → OStream
writer_or_open none = empty
writer_or_open (some os) = os

-- `total_updates++` on an `int`, of which the number is the 32 bits: the greatest one overflows.
unfoldable pub incremented : ℕ → Result ℕ
incremented total = if total == 2147483647 then err undefined else ok (add32 total 1)

unfoldable pub log : List K2TreeUpdates → UpdatesLoggerImpl → Result UpdatesLoggerImpl
log us s = do
  logged ← log_updates us s.offsets_map (writer_or_open s.current_file_writer)
  total ← or_fail s.total_updates undefined
  total' ← incremented total
  ok (
      commit_total_updates total' (record s {
        index_logs = some (logged.1).content;
        offsets_file = some (dump_offsets_map logged.0 empty).content;
        current_file_writer = some logged.1;
        current_file_reader = none;
        offsets_map = logged.0;
        merged = s.merged ++ MergeCall.merge_update_list us ∷ [];
      }))

unfoldable pub merge_add : ℕ → Option K2TreeMixed → List MergeCall
merge_add id none = []
merge_add id (some tree) = MergeCall.merge_add_tree id tree ∷ []

unfoldable pub merge_delete : ℕ → Option K2TreeMixed → List MergeCall
merge_delete id none = []
merge_delete id (some tree) = MergeCall.merge_delete_tree id tree ∷ []

-- The calls that `merge_update` makes.
unfoldable pub merge_update : K2TreeUpdates → List MergeCall
merge_update u = merge_add u.predicate_id u.k2tree_add ++ merge_delete u.predicate_id u.k2tree_del

-- The reader that is open, or a new one on the file.
unfoldable pub reader_or_open : Option IStream → List ℕ → IStream
reader_or_open none file = file
reader_or_open (some is) file = is

-- The loop over the offsets of a predicate: the reader is moved to each of them. The calls, and
-- the reader that is left.
unfoldable pub recover_offsets : List ℕ → List ℕ → IStream → Result (List MergeCall × IStream)
recover_offsets [] file is = ok ([], is)
recover_offsets (offset ∷ offsets) file is = do
  update ← recover_single_predicate_update (drop offset file)
  rest ← recover_offsets offsets file update.1
  ok (merge_update update.0 ++ rest.0, rest.1)

-- `offsets_map[id]` adds a null pointer for a missing key, which is followed.
unfoldable pub recover_ids :
    List ℕ → OffsetsMap → List ℕ → IStream → Result (List MergeCall × IStream)
recover_ids [] offsets_map file is = ok ([], is)
recover_ids (id ∷ ids) offsets_map file is = do
  offsets ← or_fail (find_value offsets_map id) undefined
  first ← recover_offsets offsets file is
  rest ← recover_ids ids offsets_map file first.1
  ok (first.0 ++ rest.0, rest.1)

-- The writer is closed, and the reader and the calls are what the loop left.
unfoldable pub recovered : UpdatesLoggerImpl → List MergeCall × IStream → UpdatesLoggerImpl
recovered s r = record s {
  current_file_writer = none;
  current_file_reader = some r.1;
  merged = s.merged ++ r.0;
}

unfoldable pub recover_from :
    Option (List ℕ) → List ℕ → UpdatesLoggerImpl → Result UpdatesLoggerImpl
recover_from none ids s = ok (record s { current_file_writer = none })
recover_from (some file) ids s = do
  r ← recover_ids ids s.offsets_map file (reader_or_open s.current_file_reader file)
  ok (recovered s r)

unfoldable pub recover : List ℕ → UpdatesLoggerImpl → Result UpdatesLoggerImpl
recover ids s = recover_from s.index_logs ids s

-- Without a file the method returns before it closes the writer.
unfoldable pub recover_predicate_from :
    Option (List ℕ) → ℕ → UpdatesLoggerImpl → Result UpdatesLoggerImpl
recover_predicate_from none id s = ok s
recover_predicate_from (some file) id s = do
  offsets ← or_fail (find_value s.offsets_map id) undefined
  r ← recover_offsets offsets file (reader_or_open s.current_file_reader file)
  ok (recovered s r)

unfoldable pub recover_predicate : ℕ → UpdatesLoggerImpl → Result UpdatesLoggerImpl
recover_predicate id s = recover_predicate_from s.index_logs id s

unfoldable pub recover_updates : ℕ → IStream → Result (List MergeCall × IStream)
recover_updates zero is = ok ([], is)
recover_updates (suc n) is = do
  update ← recover_single_predicate_update is
  rest ← recover_updates n update.1
  ok (merge_update update.0 ++ rest.0, rest.1)

unfoldable pub recover_single_update : IStream → Result (List MergeCall × IStream)
recover_single_update is = do
  updates_amount ← read_u32 is
  recover_updates updates_amount.0 updates_amount.1

unfoldable pub recover_rounds : ℕ → IStream → Result (List MergeCall × IStream)
recover_rounds zero is = ok ([], is)
recover_rounds (suc n) is = do
  first ← recover_single_update is
  rest ← recover_rounds n first.1
  ok (first.0 ++ rest.0, rest.1)

-- The reader goes on where it stands.
unfoldable pub recover_all_from : Option (List ℕ) → UpdatesLoggerImpl → Result UpdatesLoggerImpl
recover_all_from none s = ok (record s { current_file_writer = none })
recover_all_from (some file) s = do
  total ← or_fail s.total_updates undefined
  r ← recover_rounds (rounds_of_int total) (reader_or_open s.current_file_reader file)
  ok (recovered s r)

unfoldable pub recover_all : UpdatesLoggerImpl → Result UpdatesLoggerImpl
recover_all s = recover_all_from s.index_logs s

unfoldable pub is_stored : Option (List ℕ) → Bool
is_stored none = false
is_stored (some offsets) = true

unfoldable pub has_predicate_stored : ℕ → UpdatesLoggerImpl → Bool
has_predicate_stored id s = is_stored (find_value s.offsets_map id)

-- The files are removed, and the stream of the metadata does not create its file again.
unfoldable pub clean_append_log : UpdatesLoggerImpl → UpdatesLoggerImpl
clean_append_log s = record s {
  index_logs = none;
  offsets_file = none;
  metadata_file = none;
  current_file_writer = none;
  current_file_reader = none;
  metadata_file_rw = MetadataStream.failed;
  offsets_map = [];
  total_updates = some 0;
}

unfoldable pub get_predicates : UpdatesLoggerImpl → List ℕ
get_predicates s = map (λ (entry : ℕ × List ℕ). entry.0) s.offsets_map
