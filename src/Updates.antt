-- ===== src/Updates.antt =====
-- core/updating: the log of the updates of each predicate.
pub mod Log
pub mod Offsets
pub mod Merge
pub mod Logger
pub mod Compaction
pub mod Examples
