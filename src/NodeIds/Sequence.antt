-- ===== src/NodeIds/Sequence.antt =====
-- core/nodeids/NodesSequence.cpp: the nodes known when the index was built, in ascending order, and
-- their positions as ids.
pub mod Positions
use rdfcache_k.Prelude.{
  ◌%◌, ◌-◌, ◌+◌, ◌^◌, ℕ, suc, [], ◌∷◌, some, none, List, Option, Bool, ltb, leb, ◌==◌,
  if◌then◌else◌, get_elem?, length, ok,
}
use rdfcache_k.Stream.{OStream, Reader, ◌>>=◌, pure, write_u64, read_u64, read_items}

-- `-1` as a `uint64_t`.
abbrev pub not_found_nodeid : ℕ
not_found_nodeid = 2 ^ 64 - 1

pub data NidsErrCode : Type 0 where
  not_found_err_code success_err_code : NidsErrCode

-- `std::lower_bound` on an ascending range: the first place whose element is not below the value.
unfoldable pub lower_bound : List ℕ → ℕ → ℕ
lower_bound [] value = 0
lower_bound (v ∷ vs) value = let rest = lower_bound vs value in if ltb v value then suc rest else 0

unfoldable pub id_at : ℕ → ℕ → Option ℕ → ℕ
id_at value position none = not_found_nodeid
id_at value position (some v) = if v == value then position else not_found_nodeid

unfoldable pub get_id : List ℕ → ℕ → ℕ
get_id values value =
    id_at value (lower_bound values value) (get_elem? values (lower_bound values value))

-- The value returned, and what is written to `*err_code`, where anything is.
unfoldable pub real_id_at : Option ℕ → ℕ × Option NidsErrCode
real_id_at none = (2 ^ 64 - 1, some not_found_err_code)
real_id_at (some v) = (v, none)

unfoldable pub get_real_id : List ℕ → ℕ → ℕ × Option NidsErrCode
get_real_id values position = real_id_at (get_elem? values position)

-- `values.size() - 1` on sixty-four bits.
unfoldable pub get_last_assigned : List ℕ → ℕ
get_last_assigned values = (length values + (2 ^ 64 - 1)) % 2 ^ 64

unfoldable pub from_input_stream : Reader (List ℕ)
from_input_stream = do nodes_number ← read_u64; read_items read_u64 nodes_number

-- The loop over the values.
unfoldable pub write_values : OStream → List ℕ → OStream
write_values os [] = os
write_values os (v ∷ vs) = write_values (write_u64 os v) vs

unfoldable pub serialize : List ℕ → OStream → OStream
serialize values os = write_values (write_u64 os (length values)) values
