-- ===== src/K2Tree.antt =====
-- core/k2tree: the compressed trees of one predicate and their file format.
pub mod Block
pub mod Mixed
pub mod Examples
