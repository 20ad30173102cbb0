-- ===== src/ExternalSort/Triples.antt =====
-- algorithms/triple_external_sort.hpp: `TripleValue` and `FileData`.
pub mod Bytes
use rdfcache_k.Prelude.{ℕ, ◌+◌, ◌-◌, leb, Bool, List, [], ◌∷◌, Result, ok}
use rdfcache_k.Stream.{OStream, Reader, ◌>>=◌, pure, write_u64, read_u64}

pub record TripleValue : Type 0 where
  pub first : ℕ
  pub second : ℕ
  pub third : ℕ

unfoldable pub read_from_file : Reader TripleValue
read_from_file = do
  first ← read_u64
  second ← read_u64
  third ← read_u64
  pure (record { first = first; second = second; third = third })

unfoldable pub write_to_file : TripleValue → OStream → OStream
write_to_file t os = write_u64 (write_u64 (write_u64 os t.first) t.second) t.third

-- The loop that writes triples.
unfoldable pub write_triples : List TripleValue → OStream → OStream
write_triples [] os = os
write_triples (t ∷ ts) os = write_triples ts (write_to_file t os)

pub record FileData : Type 0 where
  pub size : ℕ
  pub current_triple : ℕ

-- `current_triple` does not overflow, since it is only moved on while it is below `size`.
unfoldable pub read_triple : FileData → Reader (TripleValue × FileData)
read_triple fd = do
  triple ← read_from_file
  pure (triple, record fd { current_triple = fd.current_triple + 1 })

unfoldable pub finished : FileData → Bool
finished fd = leb fd.size fd.current_triple

-- The number of triples to be read until `finished`.
unfoldable pub unread : FileData → ℕ
unread fd = fd.size - fd.current_triple
