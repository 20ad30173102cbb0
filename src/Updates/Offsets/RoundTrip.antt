-- ===== src/Updates/Offsets/RoundTrip.antt =====
-- core/updating/UpdatesLoggerImpl.cpp: the file of the offsets map, read back.
use rdfcache_k.Prelude.{
  ◌^◌, ◌<◌, ◌≡◌, ℕ, [], ◌∷◌, ◌++◌, some, List, ok, lt→ltb, length, assign, All, All-append, IsU64,
  append_assoc, append-nil, refl, arith,
}
use rdfcache_k.Stream.{read_u32, u32_bytes, u64_bytes, read_items, read_u64}
use rdfcache_k.Stream.Laws.{
  at_end, write_u32-at_end, write_u64-at_end, read_u32-bytes, read_u64-bytes,
}
use rdfcache_k.Updates.Log.{OffsetsMap}
use rdfcache_k.Updates.Offsets.{
  write_offsets, write_entries, dump_offsets_map, read_offsets, read_entries, rounds_of_int,
  read_offsets_map, retrieve_offsets_map,
}

-- Every key of the list comes behind `k`.
abbrev pub Above : ℕ → OffsetsMap → Type 0
Above k m = All (λ e. k < e.0) m

-- The keys of the map are in order.
unfoldable pub IsAscending : OffsetsMap → Type 0
IsAscending [] = Unit {0}
IsAscending (e ∷ m) = Above e.0 m × IsAscending m

-- The id is a word, and the offsets are words, fewer than an `int` counts.
abbrev pub IsEntry : ℕ × List ℕ → Type 0
IsEntry e = IsU64 e.0 × (length e.1 < 2 ^ 31) × All IsU64 e.1

pub record IsOffsetsMap (m : OffsetsMap) : Type 0 where
  pub ascending : IsAscending m
  pub entries : All IsEntry m
  pub size_fits : length m < 2 ^ 31

offsets_bytes : List ℕ → List ℕ
offsets_bytes [] = []
offsets_bytes (o ∷ os) = u64_bytes o ++ offsets_bytes os

entry_bytes : ℕ × List ℕ → List ℕ
entry_bytes e = u64_bytes e.0 ++ (u32_bytes (length e.1) ++ offsets_bytes e.1)

entries_bytes : OffsetsMap → List ℕ
entries_bytes [] = []
entries_bytes (e ∷ m) = entry_bytes e ++ entries_bytes m

write_offsets-at_end :
    (os c : List ℕ) → write_offsets os (at_end c) ≡ at_end (c ++ offsets_bytes os)
unfolding write_offsets offsets_bytes
write_offsets-at_end [] c = rw append-nil
write_offsets-at_end (o ∷ os) c =
    rw (write_u64-at_end c o, write_offsets-at_end os (c ++ u64_bytes o), append_assoc) refl

write_entries-at_end :
    (m : OffsetsMap) (c : List ℕ) → write_entries m (at_end c) ≡ at_end (c ++ entries_bytes m)
unfolding write_entries entries_bytes entry_bytes
write_entries-at_end [] c = rw append-nil
write_entries-at_end ((id, os) ∷ m) c =
    let c1 = c ++ u64_bytes id in
    let c2 = c1 ++ u32_bytes (length os) in
    rw
      (
        write_u64-at_end c id,
        write_u32-at_end c1 (length os),
        write_offsets-at_end os c2,
        write_entries-at_end m (c2 ++ offsets_bytes os),
      )
      (simp append_assoc)

read_items-offsets :
    (os rest : List ℕ)
    → All IsU64 os
    → read_items read_u64 (length os) (offsets_bytes os ++ rest) ≡ ok (os, rest)
unfolding read_items offsets_bytes
read_items-offsets [] rest h = refl
read_items-offsets (o ∷ os) rest h =
    rw
      (
        append_assoc (u64_bytes o) (offsets_bytes os) rest,
        read_u64-bytes o (offsets_bytes os ++ rest) h.0,
        read_items-offsets os rest h.1,
      )
      refl

read_offsets-bytes :
    (os rest : List ℕ)
    → length os < 2 ^ 31
    → All IsU64 os
    → read_offsets (u32_bytes (length os) ++ (offsets_bytes os ++ rest)) ≡ ok (os, rest)
unfolding read_offsets
read_offsets-bytes os rest few h =
    rw
      (
        read_u32-bytes (length os) (offsets_bytes os ++ rest) (omega arith),
        lt→ltb (length os) (2 ^ 31) few,
      )
      (read_items-offsets os rest h)

-- A key behind all others is added at the end.
assign_last :
    (m : OffsetsMap) (k : ℕ) (os : List ℕ)
    → All (λ e. e.0 < k) m
    → assign m k os ≡ m ++ (k, os) ∷ []
unfolding assign
assign_last [] k os h = refl
assign_last ((k', os') ∷ m) k os h = ground (arith, h.0, assign_last m k os h.1)

read_entries-bytes :
    (m read : OffsetsMap) (rest : List ℕ)
    → IsAscending m
    → All IsEntry m
    → All (λ e. Above e.0 m) read
    → read_entries (length m) read (entries_bytes m ++ rest) ≡ ok (read ++ m, rest)
unfolding read_entries entries_bytes entry_bytes IsAscending
read_entries-bytes [] read rest up fits below = rw append-nil refl
read_entries-bytes ((id, os) ∷ m) read rest up ((id_fits, few, words), fits) below =
    simp append_assoc (
      rw
        (
          read_u64-bytes id _ id_fits,
          read_offsets-bytes os (entries_bytes m ++ rest) few words,
          assign_last read id os (heads read below),
          read_entries-bytes m (read ++ (id, os) ∷ []) rest up.1 fits
              (All-append (λ e. Above e.0 m) read ((id, os) ∷ []) (tails read below) (up.0, tt)),
          append_assoc read ((id, os) ∷ []) m,
        )
        refl)
  where
    heads : (r : OffsetsMap) → All (λ e. Above e.0 ((id, os) ∷ m)) r → All (λ e. e.0 < id) r
    heads [] h = tt
    heads (e ∷ r) h = (h.0.0, heads r h.1)

    tails : (r : OffsetsMap) → All (λ e. Above e.0 ((id, os) ∷ m)) r → All (λ e. Above e.0 m) r
    tails [] h = tt
    tails (e ∷ r) h = (h.0.1, tails r h.1)

file_of : OffsetsMap → List ℕ
file_of [] = []
file_of (e ∷ m) = u32_bytes (length (e ∷ m)) ++ entries_bytes (e ∷ m)

dump_file : (m : OffsetsMap) → dump_offsets_map m (at_end []) ≡ at_end (file_of m)
unfolding dump_offsets_map file_of
dump_file [] = refl
dump_file (e ∷ m) =
    rw
      (
        write_u32-at_end [] (length (e ∷ m)),
        write_entries-at_end (e ∷ m) (u32_bytes (length (e ∷ m))),
      )
      refl

read_map :
    (m : OffsetsMap) (rest : List ℕ)
    → IsOffsetsMap m
    → read_offsets_map [] (u32_bytes (length m) ++ (entries_bytes m ++ rest)) ≡ ok (m, rest)
unfolding read_offsets_map rounds_of_int
read_map m rest h =
    rw
      (
        read_u32-bytes (length m) (entries_bytes m ++ rest) (omega (arith, h.size_fits)),
        lt→ltb (length m) (2 ^ 31) h.size_fits,
      )
      (read_entries-bytes m [] rest h.ascending h.entries tt)

read_file : (m : OffsetsMap) → IsOffsetsMap m → retrieve_offsets_map (some (file_of m)) [] ≡ ok m
unfolding retrieve_offsets_map read_offsets_map file_of
read_file [] h = unfold read_entries rounds_of_int read_u32 in refl
read_file (e ∷ m) h = rw (← append-nil (entries_bytes (e ∷ m)), read_map (e ∷ m) [] h) refl

-- A map in key order whose words fit, with fewer entries and offsets than an `int` counts, is
-- written to an empty file from which it is retrieved as it was.
pub retrieve_offsets_map-dump_offsets_map :
    (m : OffsetsMap)
    → IsOffsetsMap m
    → (file : List ℕ) × (dump_offsets_map m (at_end []) ≡ at_end file)
      × (retrieve_offsets_map (some file) [] ≡ ok m)
retrieve_offsets_map-dump_offsets_map m h = (file_of m, dump_file m, read_file m h)
