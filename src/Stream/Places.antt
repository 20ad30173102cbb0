-- ===== src/Stream/Places.antt =====
-- utils/serialization_util.cpp: the word writers in the middle of a stream.
use rdfcache_k.Prelude.{
  ℕ, ◌≡◌, refl, List, ◌++◌, append_assoc, length, length-append, take-append, drop-append,
  drop-drop, drop,
}
use rdfcache_k.Stream.{OStream, write, write_u32, write_u64, u32_bytes, u64_bytes, seekp}
use rdfcache_k.Stream.Laws.{at_end, length-u32_bytes, length-u64_bytes}

-- The stream with the bytes `c` in front of the put position and the others behind it.
unfoldable pub at_place : List ℕ → List ℕ → OStream
at_place c tail = record { content = c ++ tail; put_pos = length c }

pub seekp-at_place : (c tail : List ℕ) → seekp (at_end (c ++ tail)) (length c) ≡ at_place c tail
unfolding seekp at_end at_place
seekp-at_place c tail = refl

pub seekp-to_end :
    (c tail : List ℕ) (n : ℕ)
    → n ≡ length (c ++ tail)
    → seekp (at_place c tail) n ≡ at_end (c ++ tail)
unfolding seekp at_end at_place
seekp-to_end c tail n e = rw e refl

pub write-at_place :
    (c tail bytes : List ℕ)
    → write (at_place c tail) bytes ≡ at_place (c ++ bytes) (drop (length bytes) tail)
unfolding write at_place
write-at_place c tail bytes =
    rw
      (
        take-append c tail (length c) refl,
        ← drop-drop (length c) (length bytes) (c ++ tail),
        drop-append c tail (length c) refl,
        length-append c bytes,
        append_assoc c bytes (drop (length bytes) tail),
      )
      refl

pub write_u32-at_place :
    (c tail : List ℕ) (v : ℕ)
    → write_u32 (at_place c tail) v ≡ at_place (c ++ u32_bytes v) (drop 4 tail)
unfolding write_u32
write_u32-at_place c tail v = rw (write-at_place c tail (u32_bytes v), length-u32_bytes v) refl

pub write_u64-at_place :
    (c tail : List ℕ) (v : ℕ)
    → write_u64 (at_place c tail) v ≡ at_place (c ++ u64_bytes v) (drop 8 tail)
unfolding write_u64
write_u64-at_place c tail v = rw (write-at_place c tail (u64_bytes v), length-u64_bytes v) refl
