-- ===== src/Memory.antt =====
-- memory/MemorySegment.cpp and MemoryManager.cpp: segments that are given out from the front, and
-- the segment that an address lies in.
pub mod Segments
pub mod Examples
use rdfcache_k.Prelude.{
  ℕ, ◌+◌, [], ◌∷◌, some, none, List, Option, Bool, true, false, ◌&&◌, ok, err, out_of_memory,
  if◌then◌else◌, ltb, leb, ◌==◌, Result, add64,
}

-- `data` is the address of the first byte.
pub record MemorySegment : Type 0 where
  pub data_address : ℕ
  pub size_bytes : ℕ
  pub byte_position : ℕ

-- The address given out, or a null pointer, and the segment after the call.
unfoldable pub require_bytes : MemorySegment → ℕ → Result (Option ℕ × MemorySegment)
require_bytes s needed_bytes =
    if needed_bytes == 0
    then ok (none, s)
    else (if ltb s.size_bytes (add64 needed_bytes s.byte_position)
        then err out_of_memory
        else ok (
          some (s.data_address + s.byte_position),
          record s { byte_position = add64 s.byte_position needed_bytes },
        ))

unfoldable pub has : MemorySegment → ℕ → Bool
has s ptr = leb s.data_address ptr && ltb ptr (s.data_address + s.size_bytes)

-- `memory_segments`, the highest address first.
unfoldable pub insert_segment : List MemorySegment → MemorySegment → List MemorySegment
insert_segment [] s = s ∷ []
insert_segment (t ∷ ts) s =
    let rest = insert_segment ts s in
    if ltb t.data_address s.data_address
    then s ∷ t ∷ ts
    else (if t.data_address == s.data_address then s ∷ ts else t ∷ rest)

-- The address is that of the new array.
unfoldable pub new_memory_segment :
    List MemorySegment → (address size : ℕ) → MemorySegment × List MemorySegment
new_memory_segment ms address size =
    let s : MemorySegment = record {
      data_address = address;
      size_bytes = size;
      byte_position = 0;
    } in
    (s, insert_segment ms s)

-- The first segment whose address is not above the pointer, which is `lower_bound` in this order.
unfoldable pub lower_bound : List MemorySegment → ℕ → Option MemorySegment
lower_bound [] ptr = none
lower_bound (s ∷ ss) ptr =
    let rest = lower_bound ss ptr in if ltb ptr s.data_address then rest else some s

unfoldable pub if_has : Option MemorySegment → ℕ → Option MemorySegment
if_has none ptr = none
if_has (some s) ptr = if has s ptr then some s else none

unfoldable pub find_segment : List MemorySegment → ℕ → Option MemorySegment
find_segment ms ptr = if_has (lower_bound ms ptr) ptr
