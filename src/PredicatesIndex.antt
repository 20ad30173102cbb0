-- ===== src/PredicatesIndex.antt =====
-- core/manager: the file with the k2-tree of each predicate, and what is kept of it in memory.
pub mod Metadata
pub mod Cache
pub mod Examples
