-- ===== src/PredicatesIndex/Cache/Sync/Patch.antt =====
-- core/manager/PredicatesIndexCacheMD.cpp: the records that are written over those of the header.
use rdfcache_k.PredicatesIndex.Metadata.{PredicateMetadata, write_predicates, write_metadata}
use rdfcache_k.PredicatesIndex.Metadata.RoundTrip.{
  entry_of-found, entry_found, HasMetadata, predicates_bytes, metadata_bytes,
}
use rdfcache_k.Stream.Laws.{length-u64_bytes, length-u32_bytes}
use rdfcache_k.Prelude.{
  ℕ, suc, ◌+◌, ◌*◌, ◌≡◌, refl, arith, List, [], ◌∷◌, ◌++◌, append_assoc, append-nil, length,
  length-append, drop-drop, drop, All,
}
use rdfcache_k.Stream.Places.{at_place, write-at_place, write_u32-at_place, write_u64-at_place}

-- A record takes 52 bytes.
pub length-metadata_bytes :
    (m : PredicateMetadata) → length m.k2tree_hash ≡ 16 → length (metadata_bytes m) ≡ 52
unfolding metadata_bytes
length-metadata_bytes m e =
    simp (length-append {0}, length-u32_bytes, length-u64_bytes) (omega (arith, e))

pub write_metadata-at_place :
    (m : PredicateMetadata) (c tail : List ℕ)
    → length m.k2tree_hash ≡ 16
    → write_metadata m (at_place c tail) ≡ at_place (c ++ metadata_bytes m) (drop 52 tail)
unfolding write_metadata metadata_bytes
write_metadata-at_place m c tail e =
    simp (write_u64-at_place, write_u32-at_place, write-at_place, append_assoc, drop-drop)
      (rw e refl)

pub write_predicates-at_place :
    (ids : List ℕ) (metadata_map : List (ℕ × PredicateMetadata)) (c tail : List ℕ)
    → All (HasMetadata metadata_map) ids
    → write_predicates ids metadata_map (at_place c tail) ≡ (
      at_place (c ++ predicates_bytes metadata_map ids) (drop (52 * length ids) tail),
      metadata_map,
    )
unfolding write_predicates predicates_bytes
write_predicates-at_place [] metadata_map c tail h = rw append-nil refl
write_predicates-at_place (id ∷ ids) metadata_map c tail ((m, e, _, fits), h) =
    let size : 52 + 52 * length ids ≡ 52 * suc (length ids) = omega arith in
    rw
      (
        entry_found metadata_map id m e,
        entry_of-found metadata_map id m e,
        write_metadata-at_place m c tail fits.hash_size,
        write_predicates-at_place ids metadata_map (c ++ metadata_bytes m) (drop 52 tail) h,
        append_assoc,
        drop-drop 52 (52 * length ids) tail,
        size,
      )
      refl

pub length-predicates_bytes :
    (ids : List ℕ) (metadata_map : List (ℕ × PredicateMetadata))
    → All (HasMetadata metadata_map) ids
    → length (predicates_bytes metadata_map ids) ≡ 52 * length ids
unfolding predicates_bytes
length-predicates_bytes [] metadata_map h = refl
length-predicates_bytes (id ∷ ids) metadata_map ((m, e, _, fits), h) =
    rw (entry_of-found metadata_map id m e) (
      omega (
        arith,
        length-append (metadata_bytes m) (predicates_bytes metadata_map ids),
        length-metadata_bytes m fits.hash_size,
        length-predicates_bytes ids metadata_map h,
      ))
