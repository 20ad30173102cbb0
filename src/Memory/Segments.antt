-- ===== src/Memory/Segments.antt =====
-- memory: where the bytes given out of a segment lie, and the segment of an address.
use rdfcache_k.Prelude.{
  lt→ltb, ltb→lt, inr, sym, add64, subst, ltb, inl, ◌⊎◌, ◌^◌, All, ◌<◌, ◌≡◌, ◌≤◌, ℕ, ◌+◌, [], ◌∷◌,
  some, List, Bool, true, false, ok, err, out_of_memory, arith, refl,
}
use rdfcache_k.Memory.{MemorySegment, require_bytes, has, lower_bound, if_has, find_segment}

-- What is in use fits the segment.
pub record IsSegment (s : MemorySegment) : Type 0 where
  pub within : s.byte_position ≤ s.size_bytes
  pub small : s.size_bytes < 2 ^ 63

-- In the segment `s`, `needed` bytes at `ptr`, which come right behind those in use, lead to `t`.
pub record IsGiven (s : MemorySegment) (needed ptr : ℕ) (t : MemorySegment) : Type 0 where
  pub segment : IsSegment t
  pub same_place : (t.data_address ≡ s.data_address) × (t.size_bytes ≡ s.size_bytes)
  pub behind : ptr ≡ s.data_address + s.byte_position
  pub inside : ptr + needed ≤ s.data_address + s.size_bytes
  pub next : t.data_address + t.byte_position ≡ ptr + needed

require_bytes-decided :
    (s : MemorySegment) (needed : ℕ)
    → IsSegment s
    → 0 < needed
    → needed < 2 ^ 63
    → (b : Bool) → ltb s.size_bytes (add64 needed s.byte_position) ≡ b
    → ((t : MemorySegment) × (ptr : ℕ) × (require_bytes s needed ≡ ok (some ptr, t))
        × IsGiven s needed ptr t)
      ⊎ ((require_bytes s needed ≡ err out_of_memory) × (s.size_bytes < s.byte_position + needed))
unfolding require_bytes
require_bytes-decided s needed h pos fits true e =
    inr (rw e (ground arith), omega (arith, ltb→lt s.size_bytes _ e, h.within, h.small))
require_bytes-decided s needed h pos fits false e =
    let sum : add64 s.byte_position needed ≡ s.byte_position + needed =
      omega (arith, h.within, h.small) in
    let room : s.byte_position + needed ≤ s.size_bytes = ground (arith, e, h.within, h.small) in
    inl (
      record s { byte_position = add64 s.byte_position needed },
      s.data_address + s.byte_position,
      rw e (ground arith),
      record {
        segment = record { within = omega (arith, sum, room); small = h.small };
        same_place = (refl, refl);
        behind = refl;
        inside = omega (arith, room);
        next = omega (arith, sum);
      },
    )

-- A request for some bytes, fewer than 2 ^ 63, either gets them right behind those in use and
-- within the segment, or fails because they do not fit.
pub require_bytes-IsGiven :
    (s : MemorySegment) (needed : ℕ)
    → IsSegment s
    → 0 < needed
    → needed < 2 ^ 63
    → ((t : MemorySegment) × (ptr : ℕ) × (require_bytes s needed ≡ ok (some ptr, t))
        × IsGiven s needed ptr t)
      ⊎ ((require_bytes s needed ≡ err out_of_memory) × (s.size_bytes < s.byte_position + needed))
require_bytes-IsGiven s needed h pos fits = require_bytes-decided s needed h pos fits _ refl

-- The highest segment first, and each ends before the one in front of it begins.
unfoldable pub AreApart : List MemorySegment → Type 0
AreApart [] = Unit {0}
AreApart (s ∷ ss) =
    All (λ t. (t.data_address < s.data_address) × (t.data_address + t.size_bytes ≤ s.data_address))
      ss
    × AreApart ss

-- In the list.
unfoldable pub IsAmong : MemorySegment → List MemorySegment → Type 0
IsAmong s [] = ⊥
IsAmong s (t ∷ ts) = (s ≡ t) ⊎ IsAmong s ts

All-IsAmong :
    (P : MemorySegment → Type 0) (ms : List MemorySegment) (s : MemorySegment)
    → All P ms
    → IsAmong s ms
    → P s
unfolding IsAmong
All-IsAmong P [] s h among = absurd among
All-IsAmong P (t ∷ ts) s h (inl e) = subst P (sym e) h.0
All-IsAmong P (t ∷ ts) s h (inr among) = All-IsAmong P ts s h.1 among

lower_bound-IsAmong :
    (ms : List MemorySegment) (ptr : ℕ) (s : MemorySegment)
    → AreApart ms
    → IsAmong s ms
    → has s ptr ≡ true
    → lower_bound ms ptr ≡ some s
unfolding AreApart IsAmong has lower_bound
lower_bound-IsAmong [] ptr s h among here = absurd among
lower_bound-IsAmong (t ∷ ts) ptr s h (inl e) here =
    rw (← e)
      (let reached : ltb ptr s.data_address ≡ false = ground (arith, here) in rw reached refl)
lower_bound-IsAmong (t ∷ ts) ptr s h (inr among) here =
    let below = All-IsAmong _ ts s h.0 among in
    rw (lt→ltb ptr t.data_address (ground (arith, below, here)))
      (lower_bound-IsAmong ts ptr s h.1 among here)

-- If the segments are apart, the one that an address lies in is found for it.
pub find_segment-IsAmong :
    (ms : List MemorySegment) (ptr : ℕ) (s : MemorySegment)
    → AreApart ms
    → IsAmong s ms
    → has s ptr ≡ true
    → find_segment ms ptr ≡ some s
unfolding find_segment if_has
find_segment-IsAmong ms ptr s h among here =
    rw (lower_bound-IsAmong ms ptr s h among here) (rw here refl)
