-- ===== src/ExternalSort/Split.antt =====
-- algorithms/triple_external_sort.hpp: `split_file` and `external_sort_triples`. The number of workers
-- is not negative.
pub mod Parts
pub mod Whole
use rdfcache_k.Workers.{Action}
use rdfcache_k.Prelude.{
  ℕ, zero, suc, ◌+◌, ◌-◌, ◌*◌, ◌/◌, ◌%◌, ◌^◌, ◌==◌, List, [], ◌∷◌, ◌++◌, ltb, leb, if◌then◌else◌,
  length, Result, ok, err, undefined, ◌>>=◌, add64,
}
use rdfcache_k.Stream.{IStream, empty, write_u64, read_u64}
use rdfcache_k.ExternalSort.Triples.{TripleValue, FileData, read_triple, unread, write_triples}
use rdfcache_k.ExternalSort.Library.{SortLibrary}
use rdfcache_k.ExternalSort.Parallel.{parallel_sort}
use rdfcache_k.ExternalSort.Passes.{merge_files}

-- The triples in memory, which are `data`, their size, and the files that have been written.
pub record FileParts : Type 0 where
  pub accumulated_size : ℕ
  pub in_memory : List TripleValue
  pub filenames : List IStream

-- The bytes of memory that the triples may take. The budget is divided by the size of a segment.
unfoldable pub mem_budget_bound : ℕ → ℕ → ℕ
mem_budget_bound memory_budget segment_size =
    let qty = add64 (memory_budget / segment_size) 1 in
    let extra = add64 ((qty * 8) % 2 ^ 64) ((qty * 16) % 2 ^ 64) in
    if ltb extra memory_budget then memory_budget - extra else extra

-- How the threads of the pool are interleaved for each file that is written.
abbrev pub Schedule : Type 0
Schedule = (file workers tasks : ℕ) → List Action

module _ (lib : SortLibrary) (schedule : Schedule) (workers segment_size : ℕ) where
  unfoldable pub create_file_part : FileParts → Result FileParts
  create_file_part parts = do
    sorted ←
        parallel_sort lib (schedule (length parts.filenames)) (parts.in_memory) workers segment_size
    let ofs = write_triples sorted (write_u64 empty (length sorted))
    ok (record {
      accumulated_size = 0;
      in_memory = [];
      filenames = parts.filenames ++ (ofs.content) ∷ [];
    })

  -- The part that a triple is added to.
  unfoldable pub part_for_next : ℕ → FileParts → Result FileParts
  part_for_next bound parts =
      if leb bound parts.accumulated_size then create_file_part parts else ok parts

  unfoldable pub push_back : TripleValue → FileParts → FileParts
  push_back triple parts = record parts {
    in_memory = parts.in_memory ++ triple ∷ [];
    accumulated_size = add64 parts.accumulated_size 24;
  }

  unfoldable pub last_part : FileParts → Result FileParts
  last_part parts = if ltb 0 parts.accumulated_size then create_file_part parts else ok parts

  -- `while (!filedata.finished())`, over the triples that are left to read, and what follows it.
  unfoldable pub split_loop : ℕ → ℕ → IStream → FileData → FileParts → Result FileParts
  split_loop zero bound input_file filedata parts = last_part parts
  split_loop (suc n) bound input_file filedata parts = do
    r ← read_triple filedata input_file
    part ← part_for_next bound parts
    split_loop n bound r.1 (r.0).1 (push_back (r.0).0 part)

  unfoldable pub split_file : ℕ → IStream → Result (List IStream)
  split_file memory_budget input_file = if segment_size == 0 then err undefined else (do
    size ← read_u64 input_file
    let filedata : FileData = record { size = size.0; current_triple = 0 }
    parts ←
        split_loop (unread filedata) (mem_budget_bound memory_budget segment_size) size.1 filedata
          (record { accumulated_size = 0; in_memory = []; filenames = [] })
    ok parts.filenames)

  -- The file that is renamed to be the output. As many rounds as there are files are allowed.
  unfoldable pub external_sort_triples : ℕ → ℕ → ℕ → IStream → Result IStream
  external_sort_triples max_files memory_budget block_size input_file = do
    files ← split_file memory_budget input_file
    merge_files lib (length files) max_files block_size files
