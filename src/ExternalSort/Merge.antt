-- ===== src/ExternalSort/Merge.antt =====
-- algorithms/triple_external_sort.hpp: `merge_pass`, which merges sorted files into one. A file is its
-- bytes; the names of the files and the buffers of the streams are left out.
pub mod Source
pub mod Rows
pub mod Invariant
pub mod Loop
pub mod Rounds
pub mod Pass
use rdfcache_k.Prelude.{
  ℕ, zero, suc, ◌+◌, List, [], ◌∷◌, ◌++◌, Option, none, some, Bool, true, false, ltb, if◌then◌else◌,
  length, get_elem?, set, Result, ok, err, undefined, diverges, ◌>>=◌, or_fail, add64,
}
use rdfcache_k.Stream.{OStream, IStream, empty, write_u64, read_u64}
use rdfcache_k.ExternalSort.Triples.{TripleValue, FileData, read_triple, unread, write_to_file}
use rdfcache_k.ExternalSort.Library.{Entry, SortLibrary}

-- A file that is merged: the block in memory, the open stream or a null pointer, and the position.
pub record MergeSource : Type 0 where
  pub block : List TripleValue
  pub opened_file : Option IStream
  pub file_data : FileData

-- The loop that reads a block, over the triples that are left to read: none are left exactly when
-- the file is finished, and then the stream is closed.
unfoldable pub fill_block : ℕ → ℕ → ℕ → List TripleValue → IStream → FileData → Result MergeSource
fill_block zero block_size accumulated block is fd = ok (record {
  block = block;
  opened_file = if ltb accumulated block_size then none else some is;
  file_data = fd;
})
fill_block (suc n) block_size accumulated block is fd = do
  r ← read_triple fd is
  let rest = fill_block n block_size (add64 accumulated 24) (block ++ (r.0).0 ∷ []) r.1 (r.0).1 in
      if ltb accumulated block_size
      then rest
      else ok (record { block = block; opened_file = some is; file_data = fd })

-- The front of a block, and the source without it.
unfoldable pub pop_front : List TripleValue → MergeSource → Option TripleValue × MergeSource
pop_front [] s = (none, s)
pop_front (t ∷ ts) s = (some t, record s { block = ts })

-- `fill_with_file` on an empty block, and the front of what it read.
unfoldable pub refill : ℕ → IStream → FileData → Result (Option TripleValue × MergeSource)
refill block_size is fd = do
  filled ← fill_block (unread fd) block_size 0 [] is fd
  ok (pop_front filled.block filled)

-- The triple that `block_update` takes. An empty block is filled first if the file is open.
unfoldable pub next_from :
    ℕ → List TripleValue → Option IStream → MergeSource → Result (Option TripleValue × MergeSource)
next_from block_size [] none s = ok (none, s)
next_from block_size [] (some is) s = refill block_size is s.file_data
next_from block_size (t ∷ ts) file s = ok (pop_front (t ∷ ts) s)

unfoldable pub push : Option TripleValue → ℕ → List Entry → List Entry
push none index q = q
push (some t) index q = (t, index) ∷ q

unfoldable pub block_update :
    ℕ → ℕ → List MergeSource → List Entry → Result (List MergeSource × List Entry)
block_update block_size index sources q = do
  s ← or_fail (get_elem? sources index) undefined
  r ← next_from block_size s.block s.opened_file s
  ok (set sources index r.1, push r.0 index q)

-- The loop that opens the files, with the first block of each.
unfoldable pub open_files : ℕ → List IStream → Result (List MergeSource)
open_files block_size [] = ok []
open_files block_size (file ∷ files) = do
  size ← read_u64 file
  s ← fill_block size.0 block_size 0 [] size.1 (record { size = size.0; current_triple = 0 })
  rest ← open_files block_size files
  ok (s ∷ rest)

-- The loop `for (i = ...; i < data.size(); i++)` with `n` rounds left.
unfoldable pub update_blocks :
    ℕ → ℕ → ℕ → List MergeSource → List Entry → Result (List MergeSource × List Entry)
update_blocks zero index block_size sources q = ok (sources, q)
update_blocks (suc n) index block_size sources q = do
  r ← block_update block_size index sources q
  update_blocks n (suc index) block_size r.0 r.1

unfoldable pub total_size : List MergeSource → ℕ
total_size [] = 0
total_size (s ∷ sources) = add64 (s.file_data).size (total_size sources)

-- The triples that the files announce, which bounds the rounds.
unfoldable pub announced : List MergeSource → ℕ
announced [] = 0
announced (s ∷ sources) = (s.file_data).size + announced sources

module _ (lib : SortLibrary) where
  -- `while (!pqueue.empty())`.
  unfoldable pub merge_loop : ℕ → ℕ → List MergeSource → List Entry → OStream → Result OStream
  merge_loop zero block_size sources q os = elim (lib.pop_top q) [
    | none ↦ ok os
    | some r ↦ err diverges
  ]
  merge_loop (suc n) block_size sources q os = elim (lib.pop_top q) [
    | none ↦ ok os
    | some (top, rest) ↦ do
      r ← block_update block_size top.1 sources rest
      merge_loop n block_size r.0 r.1 (write_to_file top.0 os)
  ]

  unfoldable pub merge_pass : ℕ → List IStream → Result (List ℕ)
  merge_pass block_size files = do
    sources ← open_files block_size files
    r ← update_blocks (length sources) 0 block_size sources []
    os ← merge_loop (announced sources) block_size r.0 r.1 (write_u64 empty (total_size sources))
    ok os.content
