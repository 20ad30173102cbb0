-- ===== src/ExternalSort.antt =====
-- algorithms/triple_external_sort.hpp: sorting the triples of a file in files that fit in memory.
pub mod Triples
pub mod Orders
pub mod Library
pub mod Merge
pub mod Passes
pub mod Slices
pub mod Examples
pub mod Parallel
pub mod Split
