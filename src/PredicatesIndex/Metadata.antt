-- ===== src/PredicatesIndex/Metadata.antt =====
-- core/manager/PredicatesCacheMetadata.cpp and `K2TreeConfig` of core/k2tree/K2TreeMixed.hpp: the
-- header of the index file.
pub mod RoundTrip
use rdfcache_k.Prelude.{
  ◌^◌, ◌%◌, ℕ, suc, zero, [], ◌∷◌, ◌++◌, some, none, List, Option, ok, err, undefined,
  if◌then◌else◌, ltb, length, take, drop, replicate, find_value, assign, Result,
}
use rdfcache_k.Stream.{
  OStream, Reader, ◌>>=◌, pure, throws, write, write_u32, write_u64, read_u32, read_u64,
}

pub record K2TreeConfig : Type 0 where
  pub treedepth : ℕ
  pub max_node_count : ℕ
  pub cut_depth : ℕ

unfoldable pub write_config : K2TreeConfig → OStream → OStream
write_config config os =
    write_u32 (write_u32 (write_u32 os config.treedepth) config.max_node_count) config.cut_depth

unfoldable pub read_config : Reader K2TreeConfig
read_config = do
  treedepth ← read_u32
  max_node_count ← read_u32
  cut_depth ← read_u32
  pure (record { treedepth = treedepth; max_node_count = max_node_count; cut_depth = cut_depth })

-- `k2tree_hash` has sixteen bytes.
pub record PredicateMetadata : Type 0 where
  pub predicate_id : ℕ
  pub tree_offset : ℕ
  pub tree_size : ℕ
  pub tree_size_in_memory : ℕ
  pub priority : ℕ
  pub k2tree_hash : List ℕ

-- `PredicateMetadata{}`.
abbrev pub empty_metadata : PredicateMetadata
empty_metadata = record {
  predicate_id = 0;
  tree_offset = 0;
  tree_size = 0;
  tree_size_in_memory = 0;
  priority = 0;
  k2tree_hash = replicate 16 0;
}

unfoldable pub write_metadata : PredicateMetadata → OStream → OStream
write_metadata m os =
    write
      (write_u32
        (write_u64 (write_u64 (write_u64 (write_u64 os m.predicate_id) m.tree_offset) m.tree_size)
          m.tree_size_in_memory)
        m.priority)
      m.k2tree_hash

-- A short read leaves bytes of the hash without a value.
unfoldable pub read_hash : Reader (List ℕ)
read_hash is = if ltb (length is) 16 then err undefined else ok (take 16 is, drop 16 is)

unfoldable pub read_metadata : Reader PredicateMetadata
read_metadata = do
  predicate_id ← read_u64
  tree_offset ← read_u64
  tree_size ← read_u64
  tree_size_in_memory ← read_u64
  priority ← read_u32
  k2tree_hash ← read_hash
  pure (record {
    predicate_id = predicate_id;
    tree_offset = tree_offset;
    tree_size = tree_size;
    tree_size_in_memory = tree_size_in_memory;
    priority = priority;
    k2tree_hash = k2tree_hash;
  })

pub record PredicatesCacheMetadata : Type 0 where
  pub metadata_map : List (ℕ × PredicateMetadata)
  pub predicates_ids : List ℕ
  pub config : K2TreeConfig

-- The loop of the constructor that reads a stream.
unfoldable pub read_predicates :
    ℕ → List (ℕ × PredicateMetadata) → Reader (List (ℕ × PredicateMetadata) × List ℕ)
read_predicates zero metadata_map = pure (metadata_map, [])
read_predicates (suc n) metadata_map = do
  current ← read_metadata
  rest ← read_predicates n (assign metadata_map current.predicate_id current)
  pure (rest.0, current.predicate_id ∷ rest.1)

unfoldable pub read_from_istream : Reader PredicatesCacheMetadata
read_from_istream = do
  predicates_count ← read_u64
  config ← read_config
  predicates ← read_predicates predicates_count []
  pure (record { metadata_map = predicates.0; predicates_ids = predicates.1; config = config })

unfoldable pub get_predicates_count : PredicatesCacheMetadata → ℕ
get_predicates_count md = length md.predicates_ids % 2 ^ 32

-- `metadata_map[id]`, which adds a missing entry.
unfoldable pub entry_or_new :
    List (ℕ × PredicateMetadata)
    → ℕ
    → Option PredicateMetadata
    → PredicateMetadata × List (ℕ × PredicateMetadata)
entry_or_new metadata_map id none = (empty_metadata, assign metadata_map id empty_metadata)
entry_or_new metadata_map id (some m) = (m, metadata_map)

-- The loop over the ids.
unfoldable pub write_predicates :
    List ℕ → List (ℕ × PredicateMetadata) → OStream → OStream × List (ℕ × PredicateMetadata)
write_predicates [] metadata_map os = (os, metadata_map)
write_predicates (id ∷ ids) metadata_map os =
    let entry = entry_or_new metadata_map id (find_value metadata_map id) in
    write_predicates ids entry.1 (write_metadata entry.0 os)

unfoldable pub write_to_ostream :
    PredicatesCacheMetadata → OStream → OStream × PredicatesCacheMetadata
write_to_ostream md os =
    let header = write_config md.config (write_u64 os (length md.predicates_ids)) in
    let written = write_predicates md.predicates_ids md.metadata_map header in
    (written.0, record md { metadata_map = written.1 })
