-- ===== src/Updates/Offsets.antt =====
-- core/updating/UpdatesLoggerImpl.cpp: the file of the offsets map.
pub mod RoundTrip
use rdfcache_k.Prelude.{
  ℕ, suc, zero, ◌^◌, [], ◌∷◌, some, none, List, Option, ok, err, length_error, if◌then◌else◌, ltb,
  length, assign, Result,
}
use rdfcache_k.Stream.{
  OStream, Reader, pure, throws, ◌>>=◌, write_u32, write_u64, read_u32, read_u64, read_items,
}
use rdfcache_k.Updates.Log.{OffsetsMap}

-- The loop over the offsets of a predicate. An offset is kept as its 64 bits.
unfoldable pub write_offsets : List ℕ → OStream → OStream
write_offsets [] os = os
write_offsets (offset ∷ offsets) os = write_offsets offsets (write_u64 os offset)

unfoldable pub write_entries : OffsetsMap → OStream → OStream
write_entries [] os = os
write_entries ((id, offsets) ∷ m) os =
    write_entries m (write_offsets offsets (write_u32 (write_u64 os id) (length offsets)))

unfoldable pub dump_offsets_map : OffsetsMap → OStream → OStream
dump_offsets_map [] os = os
dump_offsets_map (entry ∷ m) os = write_entries (entry ∷ m) (write_u32 os (length (entry ∷ m)))

-- A size with its top bit set is negative as an `int`, and the vector cannot reserve it.
unfoldable pub read_offsets : Reader (List ℕ)
read_offsets = do
  offsets_size ← read_u32
  if ltb offsets_size (2 ^ 31) then read_items read_u64 offsets_size else throws length_error

unfoldable pub read_entries : ℕ → OffsetsMap → Reader OffsetsMap
read_entries zero m = pure m
read_entries (suc n) m = do
  predicate_id ← read_u64
  offsets ← read_offsets
  read_entries n (assign m predicate_id offsets)

-- The loop makes no round when the size is negative as an `int`.
unfoldable pub rounds_of_int : ℕ → ℕ
rounds_of_int size = if ltb size (2 ^ 31) then size else 0

unfoldable pub read_offsets_map : OffsetsMap → Reader OffsetsMap
read_offsets_map m = do offsets_map_size ← read_u32; read_entries (rounds_of_int offsets_map_size) m

-- The file, if it exists, is read into the map.
unfoldable pub retrieve_offsets_map : Option (List ℕ) → OffsetsMap → Result OffsetsMap
retrieve_offsets_map none m = ok m
retrieve_offsets_map (some file) m = retrieved (read_offsets_map m file)
  where
    retrieved : Result (OffsetsMap × List ℕ) → Result OffsetsMap
    retrieved (err e) = err e
    retrieved (ok (m', rest)) = ok m'
