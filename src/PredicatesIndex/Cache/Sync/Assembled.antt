-- ===== src/PredicatesIndex/Cache/Sync/Assembled.antt =====
-- core/manager/PredicatesIndexCacheMD.cpp: the whole file that `sync_to_persistent` writes.
use rdfcache_k.PredicatesIndex.Cache.Sync.Sizes.{HasSize, write_trees-HasSize, IsSized}
use rdfcache_k.PredicatesIndex.Cache.Sync.Patch.{length-predicates_bytes, write_predicates-at_place}
use rdfcache_k.Stream.Places.{seekp-to_end, seekp-at_place, at_place}
use rdfcache_k.PredicatesIndex.Cache.Sync.Persisted.{
  Placed-HasMetadata, stored-IsReady, IsStored, IsTreeLibrary,
}
use rdfcache_k.PredicatesIndex.Cache.Sync.Written.{
  write_trees-IsWritten, write_placeholders-IsReserved, trees_bytes, Placed,
}
use rdfcache_k.K2Tree.Mixed.{K2TreeMixed}
use rdfcache_k.PredicatesIndex.Cache.Sync.{
  write_trees, sync_to_stream, all_predicates, sync_to_persistent,
}
use rdfcache_k.Stream.Laws.{
  read_u64-bytes, content-at_end, tellp-at_end, write_u64-at_end, empty-at_end, at_end,
  length-u64_bytes, length-u32_bytes,
}
use rdfcache_k.PredicatesIndex.Cache.{PredicatesIndexCache, TreeLibrary}
use rdfcache_k.PredicatesIndex.Metadata.{
  write_predicates, write_config, PredicateMetadata, K2TreeConfig,
}
use rdfcache_k.PredicatesIndex.Metadata.RoundTrip.{
  read_predicates-bytes, read_config-bytes, filled, write_config-at_end, predicates_bytes, IsConfig,
  HasMetadata, config_bytes,
}
use mathlib.Core.Option.{none-ne-some}
use rdfcache_k.PredicatesIndex.Cache.Sync.Persisted.{Placed-behind}
use rdfcache_k.Prelude.{
  drop-append, ℕ, ◌+◌, ◌*◌, ◌≡◌, refl, sym, arith, ap, ◌∙◌, List, [], ◌∷◌, ◌++◌, append_assoc,
  append-nil, length, length-append, All, find_value, Result, ok, IsU64,
}
use rdfcache_k.Stream.{OStream, write_u64, empty, seekp, u64_bytes}
use rdfcache_k.PredicatesIndex.Metadata as Metadata

length-config_bytes : (k : K2TreeConfig) → length (config_bytes k) ≡ 12
unfolding config_bytes
length-config_bytes k = simp (length-append {0}, length-u32_bytes)

-- The header in front of the records.
pub counts_bytes : List ℕ → K2TreeConfig → List ℕ
counts_bytes ids k = u64_bytes (length ids) ++ config_bytes k

length-counts_bytes : (ids : List ℕ) (k : K2TreeConfig) → length (counts_bytes ids k) ≡ 20
unfolding counts_bytes
length-counts_bytes ids k = omega (
  arith,
  length-append (u64_bytes (length ids)) (config_bytes k),
  length-u64_bytes (length ids),
  length-config_bytes k,
)

header-at_end :
    (ids : List ℕ) (k : K2TreeConfig)
    → write_config k (write_u64 empty (length ids)) ≡ at_end (counts_bytes ids k)
unfolding counts_bytes
header-at_end ids k =
    rw
      (
        empty-at_end,
        write_u64-at_end [] (length ids),
        write_config-at_end k (u64_bytes (length ids)),
      )
      refl

-- The records in front of the trees `t` are written over those that held their places.
patched-at_end :
    (ids c blank t : List ℕ) (metadata_map : List (ℕ × PredicateMetadata))
    → All (HasMetadata metadata_map) ids
    → length blank ≡ 52 * length ids
    → let patched =
        write_predicates ids metadata_map (seekp (at_end ((c ++ blank) ++ t)) (length c)) in
      (patched.1 ≡ metadata_map)
      × (seekp patched.0 (length ((c ++ blank) ++ t))
          ≡ at_end ((c ++ predicates_bytes metadata_map ids) ++ t))
patched-at_end ids c blank t metadata_map h size =
    let records = predicates_bytes metadata_map ids in
    let start : seekp (at_end ((c ++ blank) ++ t)) (length c) ≡ at_place c (blank ++ t) =
      rw (append_assoc c blank t) (seekp-at_place c (blank ++ t)) in
    let written : write_predicates ids metadata_map (seekp (at_end ((c ++ blank) ++ t)) (length c))
        ≡ (at_place (c ++ records) t, metadata_map) =
      rw
        (
          start,
          write_predicates-at_place ids metadata_map c (blank ++ t) h,
          drop-append blank t (52 * length ids) (sym size),
        )
        refl in
    (
      ap (λ (r : OStream × List (ℕ × PredicateMetadata)). r.1) written,
      rw written (
          seekp-to_end (c ++ records) t (length ((c ++ blank) ++ t)) (
            omega (
              arith,
              length-append (c ++ blank) t,
              length-append c blank,
              length-append (c ++ records) t,
              length-append c records,
              length-predicates_bytes ids metadata_map h,
            ))),
    )

module _ {L : Type 0} (lib : TreeLibrary) where
  -- What the words of the new file need to fit, with the trees of the cache and their bytes.
  pub record IsSyncable (s : PredicatesIndexCache L) (trees : ℕ → K2TreeMixed) (bytes : ℕ → List ℕ)
      : Type 0 where
    pub config_fits : IsConfig s.k2tree_config
    pub size_fits : IsU64 (
        20
        + 52 * length (all_predicates lib s)
        + length (trees_bytes lib s bytes (all_predicates lib s)))
    pub stored : All (λ id. IsStored s id (trees id) (bytes id)) (all_predicates lib s)

  pub file_of : PredicatesIndexCache L → (ℕ → List ℕ) → List (ℕ × PredicateMetadata) → List ℕ
  file_of s bytes metadata_map =
      let ids = all_predicates lib s in
      (counts_bytes ids s.k2tree_config ++ predicates_bytes metadata_map ids)
      ++ trees_bytes lib s bytes ids

  pub record IsAssembled (s : PredicatesIndexCache L) (bytes : ℕ → List ℕ)
      (r : Result (PredicatesIndexCache L)) : Type 0 where
    pub metadata_map : List (ℕ × PredicateMetadata)
    pub result :
        r
        ≡ ok (record s {
          file = file_of s bytes metadata_map;
          metadata = record {
            metadata_map = metadata_map;
            predicates_ids = all_predicates lib s;
            config = s.k2tree_config;
          };
        })
    pub placed :
        All
          (λ id. Placed 0 (file_of s bytes metadata_map) metadata_map id (bytes id))
          (all_predicates lib s)
    pub sizes :
        (need : ℕ → ℕ)
        → All (IsSized lib s need) (all_predicates lib s)
        → All (λ id. HasSize metadata_map id (need id)) (all_predicates lib s)

  pub Placed-each :
      (s : PredicatesIndexCache L) (bytes : ℕ → List ℕ)
      (metadata_map : List (ℕ × PredicateMetadata)) (base : ℕ) (t : List ℕ) (ids : List ℕ)
      (front : List ℕ)
      → base ≡ length front
      → All (λ id. Placed base t metadata_map id (bytes id)) ids
      → All (λ id. Placed 0 (front ++ t) metadata_map id (bytes id)) ids
  Placed-each s bytes metadata_map base t [] front e h = tt
  Placed-each s bytes metadata_map base t (id ∷ ids) front e (h, all) = (
    Placed-behind front t base metadata_map metadata_map id (bytes id) e refl h,
    Placed-each s bytes metadata_map base t ids front e all,
  )

  pub sync_to_persistent-IsAssembled :
      (s : PredicatesIndexCache L) (trees : ℕ → K2TreeMixed) (bytes : ℕ → List ℕ)
      → IsTreeLibrary lib
      → IsSyncable s trees bytes
      → IsAssembled s bytes (sync_to_persistent lib s)
  unfolding sync_to_persistent sync_to_stream file_of
  sync_to_persistent-IsAssembled s trees bytes promised h =
      let ids = all_predicates lib s in
      let c = counts_bytes ids s.k2tree_config in
      let size = length-counts_bytes ids s.k2tree_config in
      let reserved =
        write_placeholders-IsReserved ids [] c
          (unfold find_value in λ id m e. absurd (none-ne-some m e)) in
      let front = c ++ reserved.blank in
      let front_size : length front ≡ 20 + 52 * length ids =
        omega (arith, length-append c reserved.blank, size, reserved.size) in
      let written =
        write_trees-IsWritten lib s bytes ids front [] reserved.metadata_map
          (stored-IsReady lib s trees bytes promised ids h.stored) reserved.priorities
          (omega (arith, front_size, h.size_fits)) in
      let entries =
        Placed-HasMetadata (length front) (trees_bytes lib s bytes ids) written.metadata_map bytes
          ids written.placed in
      let (same, patched) =
        patched-at_end ids c reserved.blank (trees_bytes lib s bytes ids) written.metadata_map
          entries reserved.size in
      let records = predicates_bytes written.metadata_map ids in
      let unpatched : write_trees lib ids s reserved.metadata_map (at_end front)
          ≡ ok (at_end (front ++ trees_bytes lib s bytes ids), written.metadata_map) =
        ap (λ v. write_trees lib ids s reserved.metadata_map (at_end v)) (sym (append-nil front))
        ∙ written.result in
      record {
        metadata_map = written.metadata_map;
        result =
            rw
              (
                header-at_end ids s.k2tree_config,
                reserved.result,
                unpatched,
                tellp-at_end c,
                tellp-at_end (front ++ trees_bytes lib s bytes ids),
                same,
                patched,
                content-at_end ((c ++ records) ++ trees_bytes lib s bytes ids),
              )
              refl;
        placed =
            Placed-each s bytes written.metadata_map (length front) (trees_bytes lib s bytes ids)
              ids (c ++ records)
              (omega (
                arith,
                front_size,
                length-append c records,
                size,
                length-predicates_bytes ids written.metadata_map entries,
              ))
              written.placed;
        sizes = λ need sized.
            write_trees-HasSize lib s need ids reserved.metadata_map written.metadata_map
              (at_end front) _ unpatched sized;
      }

  -- The header of the file is read back.
  pub read_header :
      (s : PredicatesIndexCache L) (bytes : ℕ → List ℕ)
      (metadata_map : List (ℕ × PredicateMetadata))
      → IsConfig s.k2tree_config
      → IsU64 (length (all_predicates lib s))
      → All (HasMetadata metadata_map) (all_predicates lib s)
      → Metadata.read_from_istream (file_of s bytes metadata_map)
        ≡ ok (
          record {
            metadata_map = filled metadata_map [] (all_predicates lib s);
            predicates_ids = all_predicates lib s;
            config = s.k2tree_config;
          },
          trees_bytes lib s bytes (all_predicates lib s),
        )
  unfolding Metadata.read_from_istream file_of counts_bytes
  read_header s bytes metadata_map config count h =
      let ids = all_predicates lib s in
      let t = trees_bytes lib s bytes ids in
      simp append_assoc (
        rw
          (
            read_u64-bytes (length ids) _ count,
            read_config-bytes s.k2tree_config _ config,
            read_predicates-bytes metadata_map ids t [] h,
          )
          refl)
