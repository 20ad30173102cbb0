-- ===== src/PredicatesIndex/Cache/Examples.antt =====
-- Tests of the cache of the index file.
use rdfcache_k.PredicatesIndex.Cache.Sync.Sizes.{found-HasSize}
use rdfcache_k.K2Tree.Mixed.Required.{
  required_by_children, required_by_block, required_by_k2node, required_bytes,
}
use rdfcache_k.PredicatesIndex.Cache.Inserted.{Gives, insert_point-inserts}
use rdfcache_k.PredicatesIndex.Cache.Sync.Reopened.{sync_to_persistent-keeps_trees}
use rdfcache_k.PredicatesIndex.Cache.Sync.Loaded.{Loads}
use rdfcache_k.PredicatesIndex.Cache.Sync.Assembled.{IsSyncable}
use rdfcache_k.PredicatesIndex.Cache.Sync.Repeated.{sync_to_persistent-repeats}
use rdfcache_k.PredicatesIndex.Cache.Sync.Written.{trees_bytes, Placed}
use rdfcache_k.K2Tree.Block.Bytes.{count_blocks, IsBlock}
use rdfcache_k.PredicatesIndex.Cache.Sync.{sync_to_persistent, keys, all_predicates}
use rdfcache_k.PredicatesIndex.Metadata.{PredicateMetadata}
use rdfcache_k.PredicatesIndex.Cache.Sync.Persisted.{HasRoom, IsStored, IsTreeLibrary}
use rdfcache_k.PredicatesIndex.Cache.{
  mark_dirty, logger_stores, is_stored_in_updates_log, is_some, has_predicate_active, insert_point,
  open_cache, pointer_at, has_key, PredicatesIndexCache, UpdatesLogger, TreeLibrary,
}
use rdfcache_k.Stream.Laws.{empty-at_end, at_end}
use rdfcache_k.K2Tree.Mixed.RoundTrip.{IsMixed, IsFile, IsMixed-IsFile}
use rdfcache_k.K2Tree.Mixed.Topology.Parsed.{IsNode}
use rdfcache_k.Prelude.{
  ◌≤◌, true, ◌++◌, length-append, ◌∙◌, append-nil, ap, All, sym, replicate, arith, ◌+◌, length, ◌^◌,
  find_value, ◌%◌, Result, err, zero, suc, false, inl, inr, ℕ, List, [], ◌∷◌, none, some, ok, refl,
  ◌≡◌,
}
use rdfcache_k.Stream.{
  OStream, tellp, seekp, u16_bytes, u32_bytes, u64_bytes, write, write_u16, write_u32, write_u64,
  write_items, empty,
}
use rdfcache_k.K2Tree.Block.{
  write_tree_to_ostream, traverse_tree_write_to_ostream, write_block_to_ostream, write_preorders,
  preorders, block, no_children,
}
use rdfcache_k.K2Tree.Mixed.{
  K2Node, sum_children, count_k2nodes_wchildren, visit_children, sum_children,
  count_k2nodes_wchildren, K2TreeMixed,
}
use rdfcache_k.K2Tree.Mixed.Write.{
  write_blocks_from_k2nodes, serialize_to_vec_with_k2node_ptrs, containers_for, write_header,
  write_to_ostream,
}
use mathlib.Core.List.{Permᴰ as Perm}
use mathlib.Core.List.Permᴰ as Perm

abbrev tree_of : ℕ → K2TreeMixed
tree_of n = record {
  tree_depth = 4;
  cut_depth = 0;
  max_nodes_count = 256;
  points_count = n % 2 ^ 64;
  root = some (block 3 (7 ∷ []) no_children);
}

abbrev put_pos_of : Result (OStream × ℕ) → ℕ
put_pos_of (err e) = 0
put_pos_of (ok (os, n)) = os.put_pos

tree_size : (n : ℕ) → put_pos_of (write_to_ostream (tree_of n) empty) ≡ 42
unfolding write_to_ostream write_header write_items write_u64 write_u32 write_u16 write u64_bytes
    u32_bytes u16_bytes seekp tellp empty containers_for count_k2nodes_wchildren sum_children
    serialize_to_vec_with_k2node_ptrs write_blocks_from_k2nodes write_tree_to_ostream
    traverse_tree_write_to_ostream write_block_to_ostream write_preorders preorders visit_children
tree_size n = refl

tree_of-IsMixed : (n : ℕ) → IsMixed (tree_of n)
unfolding IsNode IsBlock preorders count_blocks count_k2nodes_wchildren
tree_of-IsMixed n = record {
  points_fit = omega arith;
  depth_fits = omega arith;
  cut_fits = omega arith;
  nodes_fit = omega arith;
  countable = omega arith;
  root_fits = record {
    root_fits = (omega arith, omega arith, omega arith, (omega arith, tt), tt, tt);
    depth_fits = omega arith;
    nodes_fit = omega arith;
    count_fits = omega arith;
  };
}

abbrev bytes_of : ℕ → List ℕ
bytes_of n = (IsMixed-IsFile (tree_of n) (tree_of-IsMixed n)).0

bytes_of-IsFile : (n : ℕ) → IsFile (tree_of n) (bytes_of n)
bytes_of-IsFile n = (IsMixed-IsFile (tree_of n) (tree_of-IsMixed n)).1

length-bytes_of : (n : ℕ) → length (bytes_of n) ≡ 42
unfolding at_end
length-bytes_of n =
    sym (
      ap put_pos_of
        (ap (write_to_ostream (tree_of n)) empty-at_end ∙ (bytes_of-IsFile n).written []))
    ∙ tree_size n

abbrev create : (r : ℕ) → K2Node r
create zero = none
create (suc r) = record { c0 = none; c1 = none; c2 = none; c3 = none }

abbrev small_library : TreeLibrary
small_library = record {
  sizes = record { sizeof_k2node = 32; sizeof_block = 48; sizeof_nodes_bv = 2; sizeof_bvctype = 4 };
  create_k2node = create;
  insert = λ tree subject object. record tree { points_count = tree.points_count + 1 };
  total_bytes = λ tree. 300;
  md5calc = λ bytes. replicate 16 0;
  sort = λ ids. ids;
}

small_library-IsTreeLibrary : IsTreeLibrary small_library
small_library-IsTreeLibrary = record {
  total_bytes-fits = λ tree. omega arith;
  length-md5calc = λ bytes. refl;
  sort-Perm = λ ids. Perm.refl ids;
}

-- A log that is always empty.
abbrev no_updates : UpdatesLogger ℕ
no_updates = record {
  stores = λ p l. false;
  recover_predicate = λ p l s. ok s;
  recover_all = λ l s. ok s;
  compact_logs = λ l. ok l;
  get_predicates = λ l. [];
  clean_append_log = λ l. l;
}

abbrev old_record : PredicateMetadata
old_record = record {
  predicate_id = 3;
  tree_offset = 1;
  tree_size = 42;
  tree_size_in_memory = 300;
  priority = 0;
  k2tree_hash = replicate 16 0;
}

-- Predicate 3 stands in the file, and predicate 7 was added.
abbrev session : PredicatesIndexCache ℕ
session = record {
  file = 0 ∷ bytes_of 3;
  metadata = record {
    metadata_map = (3, old_record) ∷ [];
    predicates_ids = 3 ∷ [];
    config = record { treedepth = 4; max_node_count = 256; cut_depth = 0 };
  };
  predicates = (7, some (tree_of 7)) ∷ [];
  dirty_predicates = 7 ∷ [];
  new_predicates = 7 ∷ [];
  k2tree_config = record { treedepth = 4; max_node_count = 256; cut_depth = 0 };
  memory_segments_map = [];
  full_memory_segment = none;
  update_logger = none;
}

session-Placed : Placed 0 session.file (session.metadata).metadata_map 3 (bytes_of 3)
unfolding find_value
session-Placed = record {
  m = old_record;
  found = refl;
  same_id = refl;
  fits = record {
    id_fits = omega arith;
    offset_fits = omega arith;
    size_fits = omega arith;
    memory_fits = omega arith;
    priority_fits = omega arith;
    hash_size = refl;
  };
  size = sym (length-bytes_of 3);
  before = 0 ∷ [];
  behind = [];
  parts = ap (◌∷◌ 0) (sym (append-nil (bytes_of 3)));
  place = refl;
}

session-IsSyncable : IsSyncable small_library session tree_of bytes_of
unfolding all_predicates keys trees_bytes has_key find_value pointer_at
session-IsSyncable = record {
  config_fits = record {
    depth_fits = omega arith;
    nodes_fit = omega arith;
    cut_fits = omega arith;
  };
  size_fits = omega (
    arith,
    length-append (bytes_of 7) (bytes_of 3 ++ []),
    length-append (bytes_of 3) [],
    length-bytes_of 3,
    length-bytes_of 7,
  );
  stored = (
    record {
      id_fits = omega arith;
      file = bytes_of-IsFile 7;
      fits = omega (arith, length-bytes_of 7);
      stored = inl (refl, refl);
    },
    (
      record {
        id_fits = omega arith;
        file = bytes_of-IsFile 3;
        fits = omega (arith, length-bytes_of 3);
        stored = inr (refl, session-Placed);
      },
      tt,
    ),
  );
}

tree_of-small : (n : ℕ) → required_bytes small_library.sizes (tree_of n) ≤ 300
unfolding required_bytes required_by_k2node required_by_block required_by_children preorders
tree_of-small n = omega arith

session-HasRoom :
    All (λ id. HasRoom small_library session id (tree_of id)) (all_predicates small_library session)
unfolding all_predicates keys has_key find_value
session-HasRoom =
    (inl (refl, tree_of-small 7), (inr (refl, (old_record, refl, tree_of-small 3)), tt))

sync_to_persistent-keeps_trees_example :
    (t u : PredicatesIndexCache ℕ) × (sync_to_persistent small_library session ≡ ok t)
    × All (λ id. IsStored t id (tree_of id) (bytes_of id)) (all_predicates small_library session)
    × All (λ id. HasRoom small_library t id (tree_of id)) (all_predicates small_library session)
    × (open_cache t.file ≡ ok u)
    × ((u.metadata).predicates_ids ≡ all_predicates small_library session)
    × All
        (λ id. Loads no_updates small_library id u (tree_of id))
        (all_predicates small_library session)
sync_to_persistent-keeps_trees_example =
    sync_to_persistent-keeps_trees small_library no_updates session tree_of bytes_of
      small_library-IsTreeLibrary session-IsSyncable session-HasRoom

sync_to_persistent-repeats_example :
    (t : PredicatesIndexCache ℕ) × (rest : List ℕ) × (sync_to_persistent small_library session
      ≡ ok t)
    × (has_key t.new_predicates 7 ≡ true)
    × Perm (all_predicates small_library t) (7 ∷ 7 ∷ rest)
sync_to_persistent-repeats_example =
    sync_to_persistent-repeats small_library session tree_of bytes_of 7 small_library-IsTreeLibrary
      session-IsSyncable (unfold has_key in refl)

-- A log is set, and it has nothing of predicate 3.
abbrev session_with_log : PredicatesIndexCache ℕ
session_with_log = record session { update_logger = some 0 }

session-Gives : Gives no_updates small_library (mark_dirty 3 session_with_log) 3 (tree_of 3)
unfolding has_predicate_active has_key is_some find_value is_stored_in_updates_log logger_stores
    mark_dirty
session-Gives = inr (
    inl (
      refl,
      refl,
      record {
        bytes = bytes_of 3;
        file = bytes_of-IsFile 3;
        placed = session-Placed;
        room =
            found-HasSize (session.metadata).metadata_map 3
              (required_bytes small_library.sizes (tree_of 3)) session-Placed.m session-Placed.found
              (old_record, refl, tree_of-small 3);
      },
    ))

-- The tree of predicate 3 is read from the file first.
insert_point-inserts_example :
    (t : PredicatesIndexCache ℕ) × (insert_point no_updates small_library 11 3 12 session_with_log
      ≡ ok t)
    × (find_value t.predicates 3 ≡ some (some (small_library.insert (tree_of 3) 11 12)))
    × (has_key t.dirty_predicates 3 ≡ true)
    × (find_value t.predicates 7 ≡ find_value session_with_log.predicates 7)
insert_point-inserts_example =
    insert_point-inserts no_updates small_library session_with_log 11 3 12 7 (tree_of 3)
      session-Gives (omega arith)
