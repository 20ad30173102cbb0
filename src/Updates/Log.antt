-- ===== src/Updates/Log.antt =====
-- core/updating/K2TreeUpdates.cpp and UpdatesLoggerImpl.cpp: how one update is written and read.
pub mod Records
pub mod Indexed
use rdfcache_k.Prelude.{
  ℕ, suc, zero, [], ◌∷◌, ◌++◌, some, none, List, Option, ok, err, undefined, if◌then◌else◌, length,
  find_value, assign, Result, ◌>>=◌,
}
use rdfcache_k.Stream.{OStream, IStream, tellp, write_u32, write_u64, read_u32, read_u64}
use rdfcache_k.K2Tree.Mixed.{K2TreeMixed}
use rdfcache_k.K2Tree.Mixed.Write
use rdfcache_k.K2Tree.Mixed.Read

-- A null pointer is `none`. What is read back, `PredicateUpdate`, has the same fields.
pub record K2TreeUpdates : Type 0 where
  pub predicate_id : ℕ
  pub k2tree_add : Option K2TreeMixed
  pub k2tree_del : Option K2TreeMixed

pub data UpdateKind : Type 0 where
  insert_update delete_update both_update no_update : UpdateKind

unfoldable pub kind_of : Option K2TreeMixed → Option K2TreeMixed → UpdateKind
kind_of none none = UpdateKind.no_update
kind_of none (some del) = UpdateKind.delete_update
kind_of (some add) none = UpdateKind.insert_update
kind_of (some add) (some del) = UpdateKind.both_update

unfoldable pub get_kind : K2TreeUpdates → UpdateKind
get_kind u = kind_of u.k2tree_add u.k2tree_del

-- The value of the enumerator.
unfoldable pub kind_code : UpdateKind → ℕ
kind_code UpdateKind.insert_update = 0
kind_code UpdateKind.delete_update = 1
kind_code UpdateKind.both_update = 2
kind_code UpdateKind.no_update = 3

-- The number of bytes that the tree's method returns is not used.
unfoldable pub write_tree : K2TreeMixed → OStream → Result OStream
write_tree tree os = do written ← Write.write_to_ostream tree os; ok written.0

-- A pointer that the kind says is set.
unfoldable pub write_pointer : Option K2TreeMixed → OStream → Result OStream
write_pointer none os = err undefined
write_pointer (some tree) os = write_tree tree os

unfoldable pub write_trees : UpdateKind → K2TreeUpdates → OStream → Result OStream
write_trees UpdateKind.insert_update u os = write_pointer u.k2tree_add os
write_trees UpdateKind.delete_update u os = write_pointer u.k2tree_del os
write_trees UpdateKind.both_update u os = do
  added ← write_pointer u.k2tree_add os
  write_pointer u.k2tree_del added
write_trees UpdateKind.no_update u os = ok os

-- The part of the loop that writes one update.
unfoldable pub write_update : K2TreeUpdates → OStream → Result OStream
write_update u os =
    write_trees (get_kind u) u (write_u32 (write_u64 os u.predicate_id) (kind_code (get_kind u)))

-- `offsets_map_t`, with the predicates in order.
abbrev pub OffsetsMap : Type 0
OffsetsMap = List (ℕ × List ℕ)

unfoldable pub with_offset : Option (List ℕ) → ℕ → List ℕ
with_offset none offset = offset ∷ []
with_offset (some offsets) offset = offsets ++ offset ∷ []

unfoldable pub register_update_offset : OffsetsMap → ℕ → OStream → OffsetsMap
register_update_offset offsets predicate_id os =
    assign offsets predicate_id (with_offset (find_value offsets predicate_id) (tellp os))

-- One round of the loop. An update without trees is passed over.
unfoldable pub log_one :
    UpdateKind → K2TreeUpdates → OffsetsMap → OStream → Result (OffsetsMap × OStream)
log_one UpdateKind.no_update u offsets os = ok (offsets, os)
log_one kind u offsets os = do
  written ← write_update u os
  ok (register_update_offset offsets u.predicate_id os, written)

unfoldable pub log_each : List K2TreeUpdates → OffsetsMap → OStream → Result (OffsetsMap × OStream)
log_each [] offsets os = ok (offsets, os)
log_each (u ∷ us) offsets os = do
  logged ← log_one (get_kind u) u offsets os
  log_each us logged.0 logged.1

-- The static `log`.
unfoldable pub log_updates :
    List K2TreeUpdates → OffsetsMap → OStream → Result (OffsetsMap × OStream)
log_updates us offsets os = log_each us offsets (write_u32 os (length us))

-- The trees that the code of a kind announces; any other code announces none.
unfoldable pub read_trees :
    ℕ → IStream → Result ((Option K2TreeMixed × Option K2TreeMixed) × IStream)
read_trees zero is = do add ← Read.read_from_istream is; ok ((some add.0, none), add.1)
read_trees (suc zero) is = do del ← Read.read_from_istream is; ok ((none, some del.0), del.1)
read_trees (suc (suc zero)) is = do
  add ← Read.read_from_istream is
  del ← Read.read_from_istream add.1
  ok ((some add.0, some del.0), del.1)
read_trees _ is = ok ((none, none), is)

unfoldable pub recover_single_predicate_update : IStream → Result (K2TreeUpdates × IStream)
recover_single_predicate_update is = do
  predicate_id ← read_u64 is
  update_kind ← read_u32 predicate_id.1
  trees ← read_trees update_kind.0 update_kind.1
  ok (
    record { predicate_id = predicate_id.0; k2tree_add = trees.0.0; k2tree_del = trees.0.1 },
    trees.1,
  )
