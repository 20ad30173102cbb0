-- ===== src/Memory/Examples.antt =====
-- Tests of the memory segments.
use rdfcache_k.Prelude.{
  ◌+◌, ◌<◌, ◌⊎◌, ◌≡◌, ℕ, [], ◌∷◌, some, ok, err, out_of_memory, arith, refl, inl, inr, true,
}
use rdfcache_k.Memory.{MemorySegment, require_bytes, has, find_segment}
use rdfcache_k.Memory.Segments.{
  IsGiven, AreApart, IsAmong, require_bytes-IsGiven, find_segment-IsAmong,
}

abbrev low : MemorySegment
low = record { data_address = 100; size_bytes = 50; byte_position = 8 }

abbrev high : MemorySegment
high = record { data_address = 1000; size_bytes = 10; byte_position = 0 }

require_bytes-IsGiven_example :
    ((t : MemorySegment) × (ptr : ℕ) × (require_bytes low 16 ≡ ok (some ptr, t))
      × IsGiven low 16 ptr t)
    ⊎ ((require_bytes low 16 ≡ err out_of_memory) × (50 < 8 + 16))
require_bytes-IsGiven_example =
    require_bytes-IsGiven low 16 (record { within = omega arith; small = omega arith })
      (omega arith) (omega arith)

segments-AreApart : AreApart (high ∷ low ∷ [])
unfolding AreApart
segments-AreApart = (((omega arith, omega arith), tt), (tt, tt))

low-IsAmong : IsAmong low (high ∷ low ∷ [])
unfolding IsAmong
low-IsAmong = inr (inl refl)

low-has : has low 120 ≡ true
unfolding has
low-has = refl

find_segment-IsAmong_example : find_segment (high ∷ low ∷ []) 120 ≡ some low
find_segment-IsAmong_example =
    find_segment-IsAmong (high ∷ low ∷ []) 120 low segments-AreApart low-IsAmong low-has
