-- ===== src/ExternalSort/Triples/Bytes.antt =====
-- algorithms/triple_external_sort.hpp: the bytes of triples.
use rdfcache_k.Prelude.{
  ◌↔◌, ℕ, ◌+◌, ◌≡◌, List, [], ◌∷◌, ◌++◌, ok, refl, arith, IsU64, append_assoc, append-nil, length,
  true,
}
use rdfcache_k.Stream.{u64_bytes}
use rdfcache_k.Stream.Laws.{at_end, write_u64-at_end, read_u64-bytes}
use rdfcache_k.ExternalSort.Triples.{
  TripleValue, FileData, read_from_file, write_to_file, write_triples, read_triple, finished,
  unread,
}

pub record IsTriple (t : TripleValue) : Type 0 where
  pub first_fits : IsU64 t.first
  pub second_fits : IsU64 t.second
  pub third_fits : IsU64 t.third

pub triple_bytes : TripleValue → List ℕ
triple_bytes t = u64_bytes t.first ++ (u64_bytes t.second ++ u64_bytes t.third)

unfoldable pub triples_bytes : List TripleValue → List ℕ
triples_bytes [] = []
triples_bytes (t ∷ ts) = triple_bytes t ++ triples_bytes ts

-- A file of triples: their number, and the triples.
pub file_bytes : List TripleValue → List ℕ
file_bytes ts = u64_bytes (length ts) ++ triples_bytes ts

pub file_bytes-parts :
    (ts : List TripleValue) → file_bytes ts ≡ u64_bytes (length ts) ++ triples_bytes ts
unfolding file_bytes
file_bytes-parts ts = refl

pub write_to_file-at_end :
    (t : TripleValue) (c : List ℕ) → write_to_file t (at_end c) ≡ at_end (c ++ triple_bytes t)
unfolding write_to_file triple_bytes
write_to_file-at_end t c =
    rw
      (
        write_u64-at_end c t.first,
        write_u64-at_end (c ++ u64_bytes t.first) t.second,
        write_u64-at_end ((c ++ u64_bytes t.first) ++ u64_bytes t.second) t.third,
      )
      (simp append_assoc)

pub write_triples-at_end :
    (ts : List TripleValue) (c : List ℕ)
    → write_triples ts (at_end c) ≡ at_end (c ++ triples_bytes ts)
unfolding write_triples triples_bytes
write_triples-at_end [] c = rw append-nil
write_triples-at_end (t ∷ ts) c =
    rw (write_to_file-at_end t c, write_triples-at_end ts (c ++ triple_bytes t), append_assoc) refl

read_from_file-bytes :
    (t : TripleValue) (rest : List ℕ)
    → IsTriple t
    → read_from_file (triple_bytes t ++ rest) ≡ ok (t, rest)
unfolding read_from_file triple_bytes
read_from_file-bytes t rest h = simp append_assoc (
    rw
      (
        read_u64-bytes t.first _ h.first_fits,
        read_u64-bytes t.second _ h.second_fits,
        read_u64-bytes t.third _ h.third_fits,
      )
      refl)

pub read_triple-bytes :
    (fd : FileData) (t : TripleValue) (rest : List ℕ)
    → IsTriple t
    → read_triple fd (triple_bytes t ++ rest)
      ≡ ok ((t, record fd { current_triple = fd.current_triple + 1 }), rest)
unfolding read_triple
read_triple-bytes fd t rest h = rw (read_from_file-bytes t rest h) refl

-- Nothing is left to be read exactly if the file is finished.
pub finished_iff : (fd : FileData) → (finished fd ≡ true) ↔ (unread fd ≡ 0)
unfolding finished unread
finished_iff fd = ground arith
