-- ===== src/Replacement.antt =====
-- core/replacement: which predicates the cache keeps in memory.
pub mod Strategy
pub mod Lru
pub mod Frequency
pub mod Cache
pub mod Examples
