-- ===== src/NodeIds/NodesMap.antt =====
-- core/nodeids/NodesMapImpl.cpp and NodesMapFactory.cpp: ids given to nodes that the sequence lacks.
pub mod Restore
use rdfcache_k.Prelude.{
  ◌>>=◌ as bind, Result, runtime_error, ℕ, zero, suc, [], ◌∷◌, some, none, List, Option, Bool, ◌==◌,
  if◌then◌else◌, length, ok, find_value, assign,
}
use rdfcache_k.Stream.{
  OStream, IStream, Reader, ◌>>=◌, pure, throws, write_u32, write_u64, read_u32, read_u64,
}
use rdfcache_k.NodeIds.Sequence.{not_found_nodeid, NidsErrCode, real_id_at}

-- `imap` from nodes to ids, and `rev_map` back.
pub record NodesMapImpl : Type 0 where
  pub imap : List (ℕ × ℕ)
  pub rev_map : List (ℕ × ℕ)

unfoldable pub id_or_not_found : Option ℕ → ℕ
id_or_not_found none = not_found_nodeid
id_or_not_found (some id) = id

unfoldable pub get_id : NodesMapImpl → ℕ → ℕ
get_id m real_id = id_or_not_found (find_value m.imap real_id)

unfoldable pub get_real_id : NodesMapImpl → ℕ → ℕ × Option NidsErrCode
get_real_id m id = real_id_at (find_value m.rev_map id)

-- `rev_map.rbegin()->first`, the last entry in the order of the keys.
unfoldable pub last_key : List (ℕ × ℕ) → ℕ
last_key [] = not_found_nodeid
last_key ((k, v) ∷ []) = k
last_key ((k, v) ∷ (k', v') ∷ m) = last_key ((k', v') ∷ m)

unfoldable pub get_last_assigned : NodesMapImpl → ℕ
get_last_assigned m = last_key m.rev_map

unfoldable pub add : NodesMapImpl → (real_id mapped_id : ℕ) → NodesMapImpl
add m real_id mapped_id = record {
  imap = assign m.imap real_id mapped_id;
  rev_map = assign m.rev_map mapped_id real_id;
}

-- The constructor's loop.
unfoldable pub reversed : List (ℕ × ℕ) → List (ℕ × ℕ) → List (ℕ × ℕ)
reversed [] rev_map = rev_map
reversed ((k, v) ∷ m) rev_map = reversed m (assign rev_map v k)

unfoldable pub from_imap : List (ℕ × ℕ) → NodesMapImpl
from_imap imap = record { imap = imap; rev_map = reversed imap [] }

-- The loop over the entries of the log.
unfoldable pub restore_entries : ℕ → NodesMapImpl → Reader NodesMapImpl
restore_entries zero m = pure m
restore_entries (suc n) m = do key ← read_u64; value ← read_u64; restore_entries n (add m key value)

-- The number of entries comes from one stream and the entries from another.
unfoldable pub restore : NodesMapImpl → (log counter : IStream) → Result (NodesMapImpl × IStream)
restore m log counter = bind (read_u64 counter) λ (kvs_size, _). restore_entries kvs_size m log

-- The loop of the factory.
unfoldable pub read_entries : ℕ → List (ℕ × ℕ) → Reader (List (ℕ × ℕ))
read_entries zero m = pure m
read_entries (suc n) m = do key ← read_u64; value ← read_u64; read_entries n (assign m key value)

-- There is one implementation, whose id is zero.
unfoldable pub from_input_stream : Reader NodesMapImpl
from_input_stream = do
  impl_id ← read_u32
  imap ←
      if impl_id == 0
      then (do map_size ← read_u64; read_entries map_size [])
      else throws runtime_error
  pure (from_imap imap)

unfoldable pub write_entries : OStream → List (ℕ × ℕ) → OStream
write_entries os [] = os
write_entries os ((k, v) ∷ m) = write_entries (write_u64 (write_u64 os k) v) m

unfoldable pub serialize : NodesMapImpl → OStream → OStream
serialize m os = write_entries (write_u64 (write_u32 os 0) (length m.imap)) m.imap
