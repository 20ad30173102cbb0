-- ===== src/NodeIds/Examples.antt =====
-- Tests of the node ids on a small dataset.
use rdfcache_k.Stream.{read_u64, read_u32, read_items}
use rdfcache_k.NodeIds.NodesMap.Restore.{entries_bytes, add_all}
use rdfcache_k.Prelude.{
  ◌>>=◌ as bind, inr, ◌↔◌, find_value, ◌≡◌, refl, none, [], ◌∷◌, arith, ℕ, List, ok, ◌++◌,
}
use rdfcache_k.NodeIds.Manager.Log.{IsLogged, restore-log}
use rdfcache_k.Stream.Laws.{at_end}
use rdfcache_k.NodeIds.Sequence
use rdfcache_k.NodeIds.Sequence.{not_found_nodeid, lower_bound, id_at, from_input_stream, serialize}
use rdfcache_k.NodeIds.Sequence.Positions.{IsAscending, get_id_iff, from_input_stream-serialize}
use rdfcache_k.NodeIds.NodesMap
use rdfcache_k.NodeIds.NodesMap.{
  read_entries, reversed, from_imap, restore_entries, restore, id_or_not_found,
}
use rdfcache_k.NodeIds.Manager.{
  NodeIdsManagerImpl, get_id, get_real_id, get_id_or_create, open_manager,
}
use rdfcache_k.NodeIds.Manager.Ids.{
  IsConsistent, IsAssigned, get_real_id-get_id, get_id_or_create-IsAssigned,
}

abbrev nodes : List ℕ
nodes = 4 ∷ 7 ∷ 1000 ∷ []

nodes-IsAscending : IsAscending nodes
unfolding IsAscending
nodes-IsAscending = ((omega arith, (omega arith, tt)), ((omega arith, tt), (tt, tt)))

get_id_iff_example : (Sequence.get_id nodes 7 ≡ 1) ↔ (Sequence.get_real_id nodes 1 ≡ (7, none))
get_id_iff_example = get_id_iff nodes 7 1 nodes-IsAscending (λ e. ground arith)

from_input_stream-serialize_example :
    (bytes : List ℕ) × (serialize nodes (at_end (5 ∷ [])) ≡ at_end (5 ∷ bytes))
    × (from_input_stream (bytes ++ (6 ∷ [])) ≡ ok (nodes, 6 ∷ []))
from_input_stream-serialize_example =
    from_input_stream-serialize (5 ∷ []) nodes (6 ∷ []) (omega arith)
      (omega arith, (omega arith, (omega arith, tt)))

-- Node 20 has got the first id beyond the sequence.
abbrev manager : NodeIdsManagerImpl
manager = record {
  nodes_sequence = nodes;
  nodes_map = record { imap = (20, 3) ∷ []; rev_map = (3, 20) ∷ [] };
  last_assigned_id = 3;
  log_writer = at_end [];
  counter_writer = at_end [];
  logs_number = 0;
}

manager-IsConsistent : IsConsistent manager
unfolding find_value
manager-IsConsistent = record {
  ascending = nodes-IsAscending;
  beyond = omega arith;
  room = omega arith;
  mapped = λ real_id id e. ground (arith, e);
}

get_id_test : get_id manager 20 ≡ 3
unfolding get_id Sequence.get_id NodesMap.get_id id_or_not_found find_value lower_bound id_at
get_id_test = refl

get_real_id-get_id_example : (get_real_id manager (get_id manager 20)).0 ≡ 20
get_real_id-get_id_example =
    get_real_id-get_id manager 20 manager-IsConsistent (λ e. ground (arith, e, get_id_test))

get_id_or_create-IsAssigned_example : IsAssigned manager 5 (get_id_or_create manager 5)
get_id_or_create-IsAssigned_example =
    get_id_or_create-IsAssigned manager 5 manager-IsConsistent (omega arith)

manager-IsLogged : IsLogged manager.nodes_map [] manager
unfolding add_all entries_bytes
manager-IsLogged = record {
  entries = tt;
  added = refl;
  log = refl;
  counted = refl;
  counter = inr (refl, refl);
}

restore-log_example :
    let after = (get_id_or_create manager 5).1 in
    ((es : List (ℕ × ℕ)) × IsLogged manager.nodes_map es after)
    × (restore manager.nodes_map after.log_writer.content after.counter_writer.content
        ≡ ok (after.nodes_map, []))
restore-log_example =
    restore-log manager.nodes_map [] manager 5 (omega arith) (omega arith) manager-IsLogged

-- A log of one entry, for node 20, and its counter are on disk, and opening forgets them.
reopened_test :
    bind
      (open_manager
        (0 ∷ 0 ∷ 0 ∷ 0 ∷ 0 ∷ 0 ∷ 0 ∷ 0 ∷ [])
        []
        (0 ∷ 0 ∷ 0 ∷ 0 ∷ 0 ∷ 0 ∷ 0 ∷ 20 ∷ 0 ∷ 0 ∷ 0 ∷ 0 ∷ 0 ∷ 0 ∷ 0 ∷ 0 ∷ [])
        (0 ∷ 0 ∷ 0 ∷ 0 ∷ 0 ∷ 0 ∷ 0 ∷ 1 ∷ []))
      (λ m. ok (get_id m 20))
    ≡ ok not_found_nodeid
unfolding open_manager from_input_stream NodesMap.from_input_stream restore restore_entries get_id
    Sequence.get_id NodesMap.get_id id_or_not_found lower_bound id_at find_value read_items read_u32
    read_u64 from_imap reversed read_entries
reopened_test = refl
