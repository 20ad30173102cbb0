-- ===== src/NodeIds/Manager.antt =====
-- core/nodeids/NodeIdsManagerImpl.cpp: the sequence first, then the map, which gets new ids.
pub mod Ids
pub mod Log
use rdfcache_k.Prelude.{
  length, ℕ, ◌+◌, ◌%◌, ◌^◌, [], some, none, List, Option, Bool, ◌==◌, if◌then◌else◌, ok, add64,
  Result, ◌>>=◌,
}
use rdfcache_k.Stream.{OStream, IStream, seekp, write_u64, read_u64}
use rdfcache_k.NodeIds.Sequence
use rdfcache_k.NodeIds.Sequence.{not_found_nodeid, NidsErrCode}
use rdfcache_k.NodeIds.NodesMap
use rdfcache_k.NodeIds.NodesMap.{NodesMapImpl, add, restore}

-- The writers of the log and of its counter are their streams.
pub record NodeIdsManagerImpl : Type 0 where
  pub nodes_sequence : List ℕ
  pub nodes_map : NodesMapImpl
  pub last_assigned_id : ℕ
  pub log_writer : OStream
  pub counter_writer : OStream
  pub logs_number : ℕ

unfoldable pub get_id : NodeIdsManagerImpl → ℕ → ℕ
get_id m real_id =
    let plain_id = Sequence.get_id m.nodes_sequence real_id in
    if plain_id == not_found_nodeid then NodesMap.get_id m.nodes_map real_id else plain_id

-- `err_code2` starts as success.
unfoldable pub real_id_or : ℕ × Option NidsErrCode → ℕ × Option NidsErrCode → ℕ × Option NidsErrCode
real_id_or (from_seq, none) other = (from_seq, some NidsErrCode.success_err_code)
real_id_or (from_seq, some code) other = other

unfoldable pub get_real_id : NodeIdsManagerImpl → ℕ → ℕ × Option NidsErrCode
get_real_id m mapped_id =
    real_id_or (Sequence.get_real_id m.nodes_sequence mapped_id)
      (NodesMap.get_real_id m.nodes_map mapped_id)

-- The entry goes behind the log, the new number of entries over the old one.
unfoldable pub log_new_kv : NodeIdsManagerImpl → (real_id mapped_id : ℕ) → NodeIdsManagerImpl
log_new_kv m real_id mapped_id = record m {
  log_writer = write_u64 (write_u64 m.log_writer real_id) mapped_id;
  counter_writer = write_u64 (seekp m.counter_writer 0) (add64 m.logs_number 1);
  logs_number = add64 m.logs_number 1;
}

unfoldable pub create_id : NodeIdsManagerImpl → ℕ → ℕ × NodeIdsManagerImpl
create_id m real_id =
    let id = add64 m.last_assigned_id 1 in
    let logged = log_new_kv (record m { last_assigned_id = id }) real_id id in
    (id, record logged { nodes_map = add logged.nodes_map real_id id })

unfoldable pub get_id_or_create : NodeIdsManagerImpl → ℕ → ℕ × NodeIdsManagerImpl
get_id_or_create m real_id =
    let mapped_id = get_id m real_id in
    let created = create_id m real_id in
    if mapped_id == not_found_nodeid then created else (mapped_id, m)

unfoldable pub find_last_assigned : List ℕ → NodesMapImpl → ℕ
find_last_assigned nodes_sequence nodes_map =
    if NodesMap.get_last_assigned nodes_map == not_found_nodeid
    then Sequence.get_last_assigned nodes_sequence
    else NodesMap.get_last_assigned nodes_map

-- The constructor, on the contents of the four files. The log is opened to append; to open the
-- counter for output alone empties it, before it is read.
unfoldable pub open_manager :
    (plain_ni mapped_ni log log_counter : IStream) → Result NodeIdsManagerImpl
open_manager plain_ni mapped_ni log log_counter = do
  nodes_sequence ← Sequence.from_input_stream plain_ni
  nodes_map ← NodesMap.from_input_stream mapped_ni
  let counter : IStream = []
  restored ← restore nodes_map.0 log counter
  logs_number ← read_u64 counter
  ok (record {
    nodes_sequence = nodes_sequence.0;
    nodes_map = restored.0;
    last_assigned_id = find_last_assigned nodes_sequence.0 nodes_map.0;
    log_writer = record { content = log; put_pos = length log };
    counter_writer = record { content = counter; put_pos = 0 };
    logs_number = logs_number.0;
  })
