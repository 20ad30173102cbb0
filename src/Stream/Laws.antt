-- ===== src/Stream/Laws.antt =====
-- What the word writers of utils/serialization_util.cpp do at the end of a stream, and that the
-- readers take the words back.
use rdfcache_k.Prelude.{
  ℕ, suc, ◌+◌, ◌*◌, ◌≡◌, refl, sym, ap, List, [], ◌∷◌, ◌++◌, append-nil, append_assoc, length, take,
  drop, take_all, drop_all, take-append, drop-append, length-append, All, ok, arith, IsU16, IsU32,
  IsU64,
}
use rdfcache_k.Stream.{
  OStream, IStream, tellp, seekp, empty, write, u16_bytes, u32_bytes, u64_bytes, write_u16,
  write_u32, write_u64, write_items, write_u32_array, read_u16, read_u32, read_u64, read_items,
  read_u32_array,
}

-- The stream that holds these bytes, with the put position behind them.
unfoldable pub at_end : List ℕ → OStream
at_end content = record { content = content; put_pos = length content }

pub content-at_end : (c : List ℕ) → (at_end c).content ≡ c
unfolding at_end
content-at_end c = refl

pub empty-at_end : empty ≡ at_end []
unfolding empty at_end
empty-at_end = refl

pub tellp-at_end : (c : List ℕ) → tellp (at_end c) ≡ length c
unfolding tellp at_end
tellp-at_end c = refl

pub write-at_end : (c bytes : List ℕ) → write (at_end c) bytes ≡ at_end (c ++ bytes)
unfolding write at_end
write-at_end c bytes = ground (
  arith,
  take_all (length c) c (omega arith),
  drop_all (length c + length bytes) c (omega arith),
  append-nil bytes,
  length-append c bytes,
)

pub write_u16-at_end : (c : List ℕ) (v : ℕ) → write_u16 (at_end c) v ≡ at_end (c ++ u16_bytes v)
unfolding write_u16
write_u16-at_end c v = write-at_end c (u16_bytes v)

pub write_u32-at_end : (c : List ℕ) (v : ℕ) → write_u32 (at_end c) v ≡ at_end (c ++ u32_bytes v)
unfolding write_u32
write_u32-at_end c v = write-at_end c (u32_bytes v)

pub write_u64-at_end : (c : List ℕ) (v : ℕ) → write_u64 (at_end c) v ≡ at_end (c ++ u64_bytes v)
unfolding write_u64
write_u64-at_end c v = write-at_end c (u64_bytes v)

-- The bytes of an array's items.
pub items_bytes : List ℕ → List ℕ
items_bytes [] = []
items_bytes (v ∷ vs) = u32_bytes v ++ items_bytes vs

pub write_items-at_end : (c vs : List ℕ) → write_items (at_end c) vs ≡ at_end (c ++ items_bytes vs)
unfolding write_items items_bytes
write_items-at_end c [] = rw append-nil
write_items-at_end c (v ∷ vs) =
    rw (write_u32-at_end c v, write_items-at_end (c ++ u32_bytes v) vs, append_assoc)

pub ruleset writes = (
  tellp-at_end, write_u16-at_end, write_u32-at_end, write_u64-at_end, write_items-at_end,
  append_assoc,
)

-- A word written over another of its size, further back in the stream.
pub patch_u32 :
    (c tail : List ℕ) (old new : ℕ)
    → seekp
        (write_u32 (seekp (at_end (c ++ (u32_bytes old ++ tail))) (length c)) new)
        (length (c ++ (u32_bytes old ++ tail)))
      ≡ at_end (c ++ (u32_bytes new ++ tail))
unfolding seekp write_u32 write at_end u32_bytes
patch_u32 c tail old new = ground (
  arith,
  take-append c (u32_bytes old ++ tail) (length c) refl,
  drop-append (c ++ u32_bytes old) tail (length c + 4)
      (omega (arith, length-append c (u32_bytes old))),
  append_assoc c (u32_bytes old) tail,
  length-append c (u32_bytes old ++ tail),
  length-append c (u32_bytes new ++ tail),
)

pub length-u16_bytes : (v : ℕ) → length (u16_bytes v) ≡ 2
unfolding u16_bytes
length-u16_bytes v = refl

pub length-u32_bytes : (v : ℕ) → length (u32_bytes v) ≡ 4
unfolding u32_bytes
length-u32_bytes v = refl

pub length-u64_bytes : (v : ℕ) → length (u64_bytes v) ≡ 8
unfolding u64_bytes
length-u64_bytes v = refl

pub length-items_bytes : (vs : List ℕ) → length (items_bytes vs) ≡ 4 * length vs
unfolding items_bytes u32_bytes
length-items_bytes [] = refl
length-items_bytes (v ∷ vs) = omega (arith, length-items_bytes vs)

pub read_u16-bytes :
    (v : ℕ) (rest : IStream) → IsU16 v → read_u16 (u16_bytes v ++ rest) ≡ ok (v, rest)
unfolding read_u16 u16_bytes
read_u16-bytes v rest h = ground arith

pub read_u32-bytes :
    (v : ℕ) (rest : IStream) → IsU32 v → read_u32 (u32_bytes v ++ rest) ≡ ok (v, rest)
unfolding read_u32 u32_bytes
read_u32-bytes v rest h = ground arith

pub read_u64-bytes :
    (v : ℕ) (rest : IStream) → IsU64 v → read_u64 (u64_bytes v ++ rest) ≡ ok (v, rest)
unfolding read_u64 u64_bytes
read_u64-bytes v rest h = ground arith

pub read_items-bytes :
    (vs : List ℕ) (rest : IStream)
    → All IsU32 vs
    → read_items read_u32 (length vs) (items_bytes vs ++ rest) ≡ ok (vs, rest)
unfolding read_items items_bytes
read_items-bytes [] rest h = refl
read_items-bytes (v ∷ vs) rest h = rw (
  append_assoc (u32_bytes v) (items_bytes vs) rest,
  read_u32-bytes v (items_bytes vs ++ rest) h.0,
  read_items-bytes vs rest h.1,
)

-- An array of words that fit comes back from what `write_u32_array` adds to a stream.
pub read_u32_array-write_u32_array :
    (c array : List ℕ) (rest : IStream)
    → IsU32 (length array)
    → All IsU32 array
    → (bytes : List ℕ) × (write_u32_array (at_end c) array ≡ at_end (c ++ bytes))
      × (read_u32_array (bytes ++ rest) ≡ ok (array, rest))
unfolding write_u32_array read_u32_array
read_u32_array-write_u32_array c array rest hn h = (
  u32_bytes (length array) ++ items_bytes array,
  simp writes,
  rw
      (
        append_assoc (u32_bytes (length array)) (items_bytes array) rest,
        read_u32-bytes (length array) (items_bytes array ++ rest) hn,
      )
      (read_items-bytes array rest h),
)

-- A word written over the only word of a stream, and one written to a stream with nothing in it.
pub rewrite_u64 : (v w : ℕ) → write_u64 (seekp (at_end (u64_bytes v)) 0) w ≡ at_end (u64_bytes w)
unfolding seekp write_u64 write at_end u64_bytes u32_bytes
rewrite_u64 v w = refl

pub first_u64 : (w : ℕ) → write_u64 (seekp (at_end []) 0) w ≡ at_end (u64_bytes w)
unfolding seekp write_u64 write at_end u64_bytes u32_bytes
first_u64 w = refl

pub read_u64-empty : read_u64 [] ≡ ok (0, [])
unfolding read_u64
read_u64-empty = refl

-- The same of a stream of one word of 32 bits.
pub rewrite_u32 : (v w : ℕ) → write_u32 (seekp (at_end (u32_bytes v)) 0) w ≡ at_end (u32_bytes w)
unfolding seekp write_u32 write at_end u32_bytes
rewrite_u32 v w = refl

pub seekp-after_u32 : (v : ℕ) → seekp (at_end (u32_bytes v)) 4 ≡ at_end (u32_bytes v)
unfolding seekp at_end u32_bytes
seekp-after_u32 v = refl

pub after_u32-at_end :
    (v : ℕ) → record { content = u32_bytes v; put_pos = 4 } ≡ at_end (u32_bytes v)
unfolding at_end u32_bytes
after_u32-at_end v = refl

pub first_u32 : (w : ℕ) → write_u32 (seekp (at_end []) 0) w ≡ at_end (u32_bytes w)
unfolding seekp write_u32 write at_end u32_bytes
first_u32 w = refl
