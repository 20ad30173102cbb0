-- ===== src/PredicatesIndex/Examples.antt =====
-- Tests of the index file on small dictionaries.
use rdfcache_k.Stream.Laws.{at_end}
use rdfcache_k.Prelude.{
  All, ◌++◌, ◌≡◌, find_value, IsU64, ℕ, List, ok, arith, refl, [], ◌∷◌, replicate,
}
use rdfcache_k.PredicatesIndex.Metadata.{
  PredicateMetadata, PredicatesCacheMetadata, write_to_ostream, read_from_istream,
}
use rdfcache_k.PredicatesIndex.Metadata.RoundTrip.{
  IsHeader, IsMetadata, read_from_istream-write_to_ostream,
}

abbrev sample_record : ℕ → PredicateMetadata
sample_record id = record {
  predicate_id = id;
  tree_offset = 300;
  tree_size = 40;
  tree_size_in_memory = 800;
  priority = 1;
  k2tree_hash = replicate 16 7;
}

abbrev header : PredicatesCacheMetadata
header = record {
  metadata_map = (2, sample_record 2) ∷ (9, sample_record 9) ∷ [];
  predicates_ids = 9 ∷ 2 ∷ [];
  config = record { treedepth = 32; max_node_count = 256; cut_depth = 10 };
}

sample_record-IsMetadata : (id : ℕ) → IsU64 id → IsMetadata (sample_record id)
sample_record-IsMetadata id h = record {
  id_fits = h;
  offset_fits = omega arith;
  size_fits = omega arith;
  memory_fits = omega arith;
  priority_fits = omega arith;
  hash_size = refl;
}

header-IsHeader : IsHeader header
unfolding find_value
header-IsHeader = record {
  config_fits = record {
    depth_fits = omega arith;
    nodes_fit = omega arith;
    cut_fits = omega arith;
  };
  count_fits = omega arith;
  entries = (
    (sample_record 9, refl, refl, sample_record-IsMetadata 9 (omega arith)),
    ((sample_record 2, refl, refl, sample_record-IsMetadata 2 (omega arith)), tt),
  );
}

read_from_istream-write_to_ostream_example :
    (bytes : List ℕ) × (read : PredicatesCacheMetadata) × (write_to_ostream header (at_end [])
      ≡ (at_end bytes, header))
    × (read_from_istream (bytes ++ (1 ∷ [])) ≡ ok (read, 1 ∷ []))
    × (read.config ≡ header.config)
    × (read.predicates_ids ≡ header.predicates_ids)
    × All
        (λ id. find_value read.metadata_map id ≡ find_value header.metadata_map id)
        header.predicates_ids
read_from_istream-write_to_ostream_example =
    read_from_istream-write_to_ostream header [] (1 ∷ []) header-IsHeader
