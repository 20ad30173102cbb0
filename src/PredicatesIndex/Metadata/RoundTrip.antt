-- ===== src/PredicatesIndex/Metadata/RoundTrip.antt =====
-- core/manager/PredicatesCacheMetadata.cpp: the header read back.
use rdfcache_k.Prelude.{
  subst, ap, find-assign_ne, inr, inl, ◌∙◌, ◌==◌, find-assign_self, Bool-cases, append-nil, assign,
  All, find_value, sym, length-append, append_assoc, length, IsU64, ◌≡◌, IsU32, ℕ, suc, [], ◌∷◌,
  ◌++◌, some, List, ok, arith, refl, take-append, drop-append,
}
use rdfcache_k.Stream.{u32_bytes, u64_bytes}
use rdfcache_k.Stream.Laws.{
  write_u64-at_end, read_u64-bytes, read_u32-bytes, write-at_end, writes, at_end,
}
use rdfcache_k.PredicatesIndex.Metadata.{
  K2TreeConfig, write_config, read_config, PredicateMetadata, write_metadata, read_hash,
  read_metadata, PredicatesCacheMetadata, read_predicates, read_from_istream, entry_or_new,
  write_predicates, write_to_ostream,
}

pub record IsConfig (c : K2TreeConfig) : Type 0 where
  pub depth_fits : IsU32 c.treedepth
  pub nodes_fit : IsU32 c.max_node_count
  pub cut_fits : IsU32 c.cut_depth

unfoldable pub config_bytes : K2TreeConfig → List ℕ
config_bytes c = u32_bytes c.treedepth ++ (u32_bytes c.max_node_count ++ u32_bytes c.cut_depth)

pub write_config-at_end :
    (k : K2TreeConfig) (c : List ℕ) → write_config k (at_end c) ≡ at_end (c ++ config_bytes k)
unfolding write_config config_bytes
write_config-at_end k c = simp writes

pub read_config-bytes :
    (k : K2TreeConfig) (rest : List ℕ)
    → IsConfig k
    → read_config (config_bytes k ++ rest) ≡ ok (k, rest)
unfolding read_config config_bytes
read_config-bytes k rest h = simp append_assoc (
    rw
      (
        read_u32-bytes k.treedepth _ h.depth_fits,
        read_u32-bytes k.max_node_count _ h.nodes_fit,
        read_u32-bytes k.cut_depth _ h.cut_fits,
      )
      refl)

-- The words fit, and the hash has sixteen bytes.
pub record IsMetadata (m : PredicateMetadata) : Type 0 where
  pub id_fits : IsU64 m.predicate_id
  pub offset_fits : IsU64 m.tree_offset
  pub size_fits : IsU64 m.tree_size
  pub memory_fits : IsU64 m.tree_size_in_memory
  pub priority_fits : IsU32 m.priority
  pub hash_size : length m.k2tree_hash ≡ 16

unfoldable pub metadata_bytes : PredicateMetadata → List ℕ
metadata_bytes m =
    u64_bytes m.predicate_id
    ++ (u64_bytes m.tree_offset
        ++ (u64_bytes m.tree_size
            ++ (u64_bytes m.tree_size_in_memory ++ (u32_bytes m.priority ++ m.k2tree_hash))))

pub write_metadata-at_end :
    (m : PredicateMetadata) (c : List ℕ)
    → write_metadata m (at_end c) ≡ at_end (c ++ metadata_bytes m)
unfolding write_metadata metadata_bytes
write_metadata-at_end m c = simp (writes, write-at_end)

read_hash-bytes : (h rest : List ℕ) → length h ≡ 16 → read_hash (h ++ rest) ≡ ok (h, rest)
unfolding read_hash
read_hash-bytes h rest e =
    ground
      (arith, length-append h rest, take-append h rest 16 (sym e), drop-append h rest 16 (sym e))

pub read_metadata-bytes :
    (m : PredicateMetadata) (rest : List ℕ)
    → IsMetadata m
    → read_metadata (metadata_bytes m ++ rest) ≡ ok (m, rest)
unfolding read_metadata metadata_bytes
read_metadata-bytes m rest h = simp append_assoc (
    rw
      (
        read_u64-bytes m.predicate_id _ h.id_fits,
        read_u64-bytes m.tree_offset _ h.offset_fits,
        read_u64-bytes m.tree_size _ h.size_fits,
        read_u64-bytes m.tree_size_in_memory _ h.memory_fits,
        read_u32-bytes m.priority _ h.priority_fits,
        read_hash-bytes m.k2tree_hash rest h.hash_size,
      )
      refl)

-- The map has a record for the id, and it fits.
abbrev pub HasMetadata : List (ℕ × PredicateMetadata) → ℕ → Type 0
HasMetadata metadata_map id =
    (m : PredicateMetadata) × (find_value metadata_map id ≡ some m)
    × (m.predicate_id ≡ id)
    × IsMetadata m

pub record IsHeader (md : PredicatesCacheMetadata) : Type 0 where
  pub config_fits : IsConfig md.config
  pub count_fits : IsU64 (length md.predicates_ids)
  pub entries : All (HasMetadata md.metadata_map) md.predicates_ids

pub entry_of : List (ℕ × PredicateMetadata) → ℕ → PredicateMetadata
entry_of metadata_map id = (entry_or_new metadata_map id (find_value metadata_map id)).0

pub entry_found :
    (metadata_map : List (ℕ × PredicateMetadata)) (id : ℕ) (m : PredicateMetadata)
    → find_value metadata_map id ≡ some m
    → entry_or_new metadata_map id (find_value metadata_map id) ≡ (m, metadata_map)
unfolding entry_or_new
entry_found metadata_map id m e = rw e refl

pub entry_of-found :
    (metadata_map : List (ℕ × PredicateMetadata)) (id : ℕ) (m : PredicateMetadata)
    → find_value metadata_map id ≡ some m
    → entry_of metadata_map id ≡ m
unfolding entry_of
entry_of-found metadata_map id m e =
    ap (λ (r : PredicateMetadata × List (ℕ × PredicateMetadata)). r.0)
      (entry_found metadata_map id m e)

read_next :
    (n id : ℕ) (ids : List ℕ) (m : PredicateMetadata) (acc mm : List (ℕ × PredicateMetadata))
    (is middle rest : List ℕ)
    → read_metadata is ≡ ok (m, middle)
    → m.predicate_id ≡ id
    → read_predicates n (assign acc id m) middle ≡ ok ((mm, ids), rest)
    → read_predicates (suc n) acc is ≡ ok ((mm, id ∷ ids), rest)
unfolding read_predicates
read_next n id ids m acc mm is middle rest first e =
    subst
      (λ i.
        read_predicates n (assign acc i m) middle ≡ ok ((mm, ids), rest)
        → read_predicates (suc n) acc is ≡ ok ((mm, i ∷ ids), rest))
      e (λ h. rw (first, h) refl)

module _ (old : List (ℕ × PredicateMetadata)) where
  unfoldable pub predicates_bytes : List ℕ → List ℕ
  predicates_bytes [] = []
  predicates_bytes (id ∷ ids) = metadata_bytes (entry_of old id) ++ predicates_bytes ids

  -- The map that the reading loop leaves.
  pub filled : List (ℕ × PredicateMetadata) → List ℕ → List (ℕ × PredicateMetadata)
  filled acc [] = acc
  filled acc (id ∷ ids) = filled (assign acc id (entry_of old id)) ids

  write_predicates-at_end :
      (ids c : List ℕ)
      → All (HasMetadata old) ids
      → write_predicates ids old (at_end c) ≡ (at_end (c ++ predicates_bytes ids), old)
  unfolding write_predicates predicates_bytes
  write_predicates-at_end [] c h = rw append-nil
  write_predicates-at_end (id ∷ ids) c ((m, e, _, _), h) = rw (
    entry_found old id m e,
    entry_of-found old id m e,
    write_metadata-at_end m c,
    write_predicates-at_end ids (c ++ metadata_bytes m) h,
    append_assoc,
  )

  pub read_predicates-bytes :
      (ids rest : List ℕ) (acc : List (ℕ × PredicateMetadata))
      → All (HasMetadata old) ids
      → read_predicates (length ids) acc (predicates_bytes ids ++ rest)
        ≡ ok ((filled acc ids, ids), rest)
  unfolding predicates_bytes filled
  read_predicates-bytes [] rest acc h = unfold read_predicates in refl
  read_predicates-bytes (id ∷ ids) rest acc ((m, e, same, fits), h) =
      rw (entry_of-found old id m e, append_assoc (metadata_bytes m) (predicates_bytes ids) rest)
        (read_next (length ids) id ids m acc _ _ (predicates_bytes ids ++ rest) rest
          (read_metadata-bytes m (predicates_bytes ids ++ rest) fits) same
          (read_predicates-bytes ids rest (assign acc id m) h))

  filled-keeps :
      (ids : List ℕ) (acc : List (ℕ × PredicateMetadata)) (id : ℕ)
      → All (HasMetadata old) ids
      → find_value acc id ≡ find_value old id
      → find_value (filled acc ids) id ≡ find_value old id
  unfolding filled
  filled-keeps [] acc id h e = e
  filled-keeps (i ∷ ids) acc id ((m, found, _, _), h) e =
      filled-keeps ids (assign acc i (entry_of old i)) id h (
        rw (entry_of-found old i m found) (elim (Bool-cases (id == i)) [
          | inl t ↦
              (let same : id ≡ i = ground arith in rw (same, find-assign_self acc i m) (sym found))
          | inr t ↦ find-assign_ne acc i id m (λ t'. ground arith) ∙ e
        ]))

  pub filled_records :
      (ids : List ℕ) (acc : List (ℕ × PredicateMetadata))
      → All (HasMetadata old) ids
      → All (λ id. find_value (filled acc ids) id ≡ find_value old id) ids
  unfolding filled
  filled_records [] acc h = tt
  filled_records (id ∷ ids) acc ((m, found, _, _), h) =
      let next = assign acc id (entry_of old id) in
      (
        filled-keeps ids next id h
            (rw (entry_of-found old id m found) (find-assign_self acc id m ∙ sym found)),
        filled_records ids next h,
      )

-- If the words of the configuration and of the records fit, their number too, and each id has a
-- record with that id, then writing adds bytes and changes no record, and reading them gives the
-- configuration and the ids back, with the same record for each of the ids.
pub read_from_istream-write_to_ostream :
    (md : PredicatesCacheMetadata) (c rest : List ℕ)
    → IsHeader md
    → (bytes : List ℕ) × (read : PredicatesCacheMetadata) × (write_to_ostream md (at_end c)
        ≡ (at_end (c ++ bytes), md))
      × (read_from_istream (bytes ++ rest) ≡ ok (read, rest))
      × (read.config ≡ md.config)
      × (read.predicates_ids ≡ md.predicates_ids)
      × All
          (λ id. find_value read.metadata_map id ≡ find_value md.metadata_map id)
          md.predicates_ids
unfolding write_to_ostream read_from_istream
read_from_istream-write_to_ostream md c rest h =
    let old = md.metadata_map in
    let ids = md.predicates_ids in
    let bytes = u64_bytes (length ids) ++ (config_bytes md.config ++ predicates_bytes old ids) in
    (
      bytes,
      record { metadata_map = filled old [] ids; predicates_ids = ids; config = md.config },
      rw
          (
            write_u64-at_end c (length ids),
            write_config-at_end md.config (c ++ u64_bytes (length ids)),
            write_predicates-at_end old ids
                ((c ++ u64_bytes (length ids)) ++ config_bytes md.config) h.entries,
            append_assoc,
            append_assoc,
          )
          refl,
      simp append_assoc (
          rw
            (
              read_u64-bytes (length ids) _ h.count_fits,
              read_config-bytes md.config _ h.config_fits,
              read_predicates-bytes old ids rest [] h.entries,
            )
            refl),
      refl,
      refl,
      filled_records old ids [] h.entries,
    )
