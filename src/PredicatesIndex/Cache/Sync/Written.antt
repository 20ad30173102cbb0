-- ===== src/PredicatesIndex/Cache/Sync/Written.antt =====
-- core/manager/PredicatesIndexCacheMD.cpp: the trees that `sync_to_stream` writes, and their records.
use rdfcache_k.PredicatesIndex.Cache.Sync.Patch.{length-metadata_bytes}
use rdfcache_k.PredicatesIndex.Metadata.RoundTrip.{
  write_metadata-at_end, metadata_bytes, IsMetadata,
}
use rdfcache_k.Stream.Laws.{write-at_end, tellp-at_end, at_end}
use rdfcache_k.PredicatesIndex.Cache.{has_key, PredicatesIndexCache, TreeLibrary}
use rdfcache_k.PredicatesIndex.Cache.Sync.{
  write_trees, record_of, tree_file, TreeFile, write_placeholders,
}
use rdfcache_k.PredicatesIndex.Metadata.{empty_metadata, entry_or_new, PredicateMetadata}
use rdfcache_k.Prelude.{
  subst, ℕ, ◌+◌, ◌*◌, ◌≡◌, ◌≢◌, ◌==◌, refl, sym, arith, ap, ◌∙◌, List, [], ◌∷◌, ◌++◌, append_assoc,
  append-nil, length, length-append, All, Option, some, none, Bool-cases, false, inl, inr,
  find_value, assign, find-assign_self, find-assign_ne, Result, ok, IsU32, IsU64,
}
use mathlib.Core.Option.{some-injective}
use rdfcache_k.Stream.{OStream}

-- The priorities of the records fit.
abbrev pub HavePriorities : List (ℕ × PredicateMetadata) → Type 0
HavePriorities metadata_map =
    (id : ℕ) (m : PredicateMetadata) → find_value metadata_map id ≡ some m → IsU32 m.priority

HavePriorities-assign :
    (metadata_map : List (ℕ × PredicateMetadata)) (id : ℕ) (new : PredicateMetadata)
    → HavePriorities metadata_map
    → IsU32 new.priority
    → HavePriorities (assign metadata_map id new)
HavePriorities-assign metadata_map id new h fits j m e = elim (Bool-cases (j == id)) [
  | inl t ↦
      (let same : j ≡ id = ground arith in
        let this : new ≡ m = some-injective new m (
          sym (find-assign_self metadata_map id new)
          ∙ subst (λ k. find_value (assign metadata_map id new) k ≡ some m) same e) in
        subst (λ (v : PredicateMetadata). IsU32 v.priority) this fits)
  | inr f ↦ h j m (sym (find-assign_ne metadata_map id j new (λ t. ground arith)) ∙ e)
]

-- The records that hold the places of the others.
pub record IsReserved (ids : List ℕ) (c : List ℕ) (r : OStream × List (ℕ × PredicateMetadata))
    : Type 0 where
  pub blank : List ℕ
  pub metadata_map : List (ℕ × PredicateMetadata)
  pub result : r ≡ (at_end (c ++ blank), metadata_map)
  pub size : length blank ≡ 52 * length ids
  pub priorities : HavePriorities metadata_map

pub write_placeholders-IsReserved :
    (ids : List ℕ) (metadata_map : List (ℕ × PredicateMetadata)) (c : List ℕ)
    → HavePriorities metadata_map
    → IsReserved ids c (write_placeholders ids metadata_map (at_end c))
unfolding write_placeholders
write_placeholders-IsReserved [] metadata_map c h = record {
  blank = [];
  metadata_map = metadata_map;
  result = rw append-nil refl;
  size = omega arith;
  priorities = h;
}
write_placeholders-IsReserved (id ∷ ids) metadata_map c h =
    let first = metadata_bytes empty_metadata in
    let rest =
      write_placeholders-IsReserved ids (assign metadata_map id empty_metadata) (c ++ first)
        (HavePriorities-assign metadata_map id empty_metadata h (omega arith)) in
    record {
      blank = first ++ rest.blank;
      metadata_map = rest.metadata_map;
      result =
          rw (write_metadata-at_end empty_metadata c, rest.result, append_assoc c first rest.blank)
            refl;
      size = omega (
        arith,
        rest.size,
        length-append first rest.blank,
        length-metadata_bytes empty_metadata refl,
      );
      priorities = rest.priorities;
    }

-- The bytes of a tree, with numbers that fit.
pub record IsTreeFile (bytes : List ℕ) (r : Result TreeFile) : Type 0 where
  pub tree : TreeFile
  pub result : r ≡ ok tree
  pub same : tree.bytes ≡ bytes
  pub size : tree.tree_size ≡ length bytes
  pub memory_fits : IsU64 tree.tree_size_in_memory
  pub hash_size : length tree.k2tree_hash ≡ 16

-- The record of a predicate leads to the bytes of its tree, in the bytes `t` that come from the place
-- `base` on.
pub record Placed (base : ℕ) (t : List ℕ) (metadata_map : List (ℕ × PredicateMetadata)) (id : ℕ)
    (bytes : List ℕ) : Type 0 where
  pub m : PredicateMetadata
  pub found : find_value metadata_map id ≡ some m
  pub same_id : m.predicate_id ≡ id
  pub fits : IsMetadata m
  pub size : m.tree_size ≡ length bytes
  pub before : List ℕ
  pub behind : List ℕ
  pub parts : t ≡ before ++ (bytes ++ behind)
  pub place : m.tree_offset ≡ base + length before

-- More bytes change no place.
Placed-more :
    (base : ℕ) (t more : List ℕ) (metadata_map new : List (ℕ × PredicateMetadata)) (id : ℕ)
    (bytes : List ℕ)
    → find_value new id ≡ find_value metadata_map id
    → Placed base t metadata_map id bytes
    → Placed base (t ++ more) new id bytes
Placed-more base t more metadata_map new id bytes e h = record {
  m = h.m;
  found = e ∙ h.found;
  same_id = h.same_id;
  fits = h.fits;
  size = h.size;
  before = h.before;
  behind = h.behind ++ more;
  parts =
      ap (λ v. v ++ more) h.parts
      ∙ append_assoc h.before (bytes ++ h.behind) more
      ∙ ap (◌++◌ h.before) (append_assoc bytes h.behind more);
  place = h.place;
}

-- The entry that is set, and the map behind it.
entry-priority :
    (metadata_map : List (ℕ × PredicateMetadata)) (id : ℕ) (o : Option PredicateMetadata)
    → find_value metadata_map id ≡ o
    → HavePriorities metadata_map
    → IsU32 ((entry_or_new metadata_map id o).0).priority
      × HavePriorities (entry_or_new metadata_map id o).1
unfolding entry_or_new
entry-priority metadata_map id none e h =
    (omega arith, HavePriorities-assign metadata_map id empty_metadata h (omega arith))
entry-priority metadata_map id (some m) e h = (h id m e, h)

pub entry-others :
    (metadata_map : List (ℕ × PredicateMetadata)) (id j : ℕ) (o : Option PredicateMetadata)
    (new : PredicateMetadata)
    → j ≢ id
    → find_value (assign (entry_or_new metadata_map id o).1 id new) j ≡ find_value metadata_map j
unfolding entry_or_new
entry-others metadata_map id j none new ne =
    find-assign_ne (assign metadata_map id empty_metadata) id j new ne
    ∙ find-assign_ne metadata_map id j empty_metadata ne
entry-others metadata_map id j (some m) new ne = find-assign_ne metadata_map id j new ne

not_in_cons :
    (id : ℕ) (ids : List ℕ) (j : ℕ)
    → has_key (id ∷ ids) j ≡ false
    → (j ≢ id) × (has_key ids j ≡ false)
unfolding has_key
not_in_cons id ids j e = (λ same. ground arith, ground arith)

module _ {L : Type 0} (lib : TreeLibrary) (s : PredicatesIndexCache L) (bytes : ℕ → List ℕ) where
  unfoldable pub trees_bytes : List ℕ → List ℕ
  trees_bytes [] = []
  trees_bytes (id ∷ ids) = bytes id ++ trees_bytes ids

  abbrev pub IsReady : ℕ → Type 0
  IsReady id = IsU64 id × IsTreeFile (bytes id) (tree_file lib id s)

  -- What writing the trees `ids` behind the bytes `c ++ t` does.
  pub record IsWritten (ids c t : List ℕ) (old : List (ℕ × PredicateMetadata))
      (r : Result (OStream × List (ℕ × PredicateMetadata))) : Type 0 where
    pub metadata_map : List (ℕ × PredicateMetadata)
    pub result : r ≡ ok (at_end (c ++ (t ++ trees_bytes ids)), metadata_map)
    pub placed : All (λ id. Placed (length c) (t ++ trees_bytes ids) metadata_map id (bytes id)) ids
    pub kept :
        (j : ℕ)
        → Placed (length c) t old j (bytes j)
        → Placed (length c) (t ++ trees_bytes ids) metadata_map j (bytes j)
    pub others : (j : ℕ) → has_key ids j ≡ false → find_value metadata_map j ≡ find_value old j

  -- The record of the tree that is written next.
  Placed-next :
      (base id : ℕ) (t : List ℕ) (tree : TreeFile) (entry : PredicateMetadata)
      (metadata_map : List (ℕ × PredicateMetadata))
      → IsU64 id
      → tree.tree_size ≡ length (bytes id)
      → IsU64 tree.tree_size_in_memory
      → length tree.k2tree_hash ≡ 16
      → IsU32 entry.priority
      → IsU64 (base + (length t + length (bytes id)))
      → Placed base
          (t ++ bytes id)
          (assign metadata_map id (record_of id (base + length t) tree entry))
          id
          (bytes id)
  unfolding record_of
  Placed-next base id t tree entry metadata_map id_fits size memory hash priority fits = record {
    m = record_of id (base + length t) tree entry;
    found = find-assign_self metadata_map id (record_of id (base + length t) tree entry);
    same_id = refl;
    fits = record {
      id_fits = id_fits;
      offset_fits = omega arith;
      size_fits = omega arith;
      memory_fits = memory;
      priority_fits = priority;
      hash_size = hash;
    };
    size = size;
    before = t;
    behind = [];
    parts = rw (append-nil (bytes id)) refl;
    place = refl;
  }

  write_trees-next :
      (id : ℕ) (ids c t : List ℕ) (metadata_map : List (ℕ × PredicateMetadata)) (tree : TreeFile)
      → tree_file lib id s ≡ ok tree
      → tree.bytes ≡ bytes id
      → let entry = entry_or_new metadata_map id (find_value metadata_map id) in
        write_trees lib (id ∷ ids) s metadata_map (at_end (c ++ t))
        ≡ write_trees lib ids s
            (assign entry.1 id (record_of id (length c + length t) tree entry.0))
            (at_end (c ++ (t ++ bytes id)))
  unfolding write_trees
  write_trees-next id ids c t metadata_map tree e same =
      let entry = entry_or_new metadata_map id (find_value metadata_map id) in
      let next = assign entry.1 id (record_of id (length c + length t) tree entry.0) in
      rw
        (
          e,
          tellp-at_end (c ++ t),
          write-at_end (c ++ t) tree.bytes,
          append_assoc c t tree.bytes,
          length-append c t,
        )
        (ap (λ v. write_trees lib ids s next (at_end (c ++ (t ++ v)))) same)

  pub write_trees-IsWritten :
      (ids c t : List ℕ) (metadata_map : List (ℕ × PredicateMetadata))
      → All IsReady ids
      → HavePriorities metadata_map
      → IsU64 (length c + (length t + length (trees_bytes ids)))
      → IsWritten ids c t metadata_map (write_trees lib ids s metadata_map (at_end (c ++ t)))
  unfolding write_trees trees_bytes
  write_trees-IsWritten [] c t metadata_map ready h fits = record {
    metadata_map = metadata_map;
    result = rw (append-nil t) refl;
    placed = tt;
    kept = λ j p. rw (append-nil t) p;
    others = λ j e. refl;
  }
  write_trees-IsWritten (id ∷ ids) c t metadata_map ((id_fits, ready), all) h fits =
      let entry = entry_or_new metadata_map id (find_value metadata_map id) in
      let (priority, priorities) =
        entry-priority metadata_map id (find_value metadata_map id) refl h in
      let new = record_of id (length c + length t) ready.tree entry.0 in
      let next = assign entry.1 id new in
      let total : length (bytes id ++ trees_bytes ids)
          ≡ length (bytes id) + length (trees_bytes ids) =
        length-append (bytes id) (trees_bytes ids) in
      let rest =
        write_trees-IsWritten ids c (t ++ bytes id) next all
          (HavePriorities-assign entry.1 id new priorities (unfold record_of in priority))
          (omega (arith, length-append t (bytes id))) in
      let here : Placed (length c) (t ++ bytes id) next id (bytes id) =
        Placed-next (length c) id t ready.tree entry.0 entry.1 id_fits ready.size ready.memory_fits
          ready.hash_size priority (omega arith) in
      let joined : (t ++ bytes id) ++ trees_bytes ids ≡ t ++ (bytes id ++ trees_bytes ids) =
        append_assoc t (bytes id) (trees_bytes ids) in
      let this =
        subst (λ v. Placed (length c) v rest.metadata_map id (bytes id)) joined
          (rest.kept id here) in
      record {
        metadata_map = rest.metadata_map;
        result =
            write_trees-next id ids c t metadata_map ready.tree ready.result ready.same
            ∙ rest.result
            ∙ ap (λ v. ok (at_end (c ++ v), rest.metadata_map)) joined;
        placed = (
          this,
          subst (λ v. All (λ j. Placed (length c) v rest.metadata_map j (bytes j)) ids) joined
              rest.placed,
        );
        kept = λ j p. elim (Bool-cases (j == id)) [
          | inl e ↦
              (let same : id ≡ j = ground arith in
                subst
                  (λ k.
                    Placed (length c) (t ++ (bytes id ++ trees_bytes ids)) rest.metadata_map k
                      (bytes k))
                  same this)
          | inr e ↦
              (let other =
                  entry-others metadata_map id j (find_value metadata_map id) new
                    (λ same. ground arith) in
                subst (λ v. Placed (length c) v rest.metadata_map j (bytes j)) joined
                  (rest.kept j
                    (Placed-more (length c) t (bytes id) metadata_map next j (bytes j) other p)))
        ];
        others = λ j e.
            let (ne, absent) = not_in_cons id ids j e in
            rest.others j absent
            ∙ entry-others metadata_map id j (find_value metadata_map id) new ne;
      }
