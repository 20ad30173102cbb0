-- ===== src/PredicatesIndex/Cache/Sync/Persisted.antt =====
-- core/manager/PredicatesIndexCacheMD.cpp: the new index file has the trees that the cache had.
use rdfcache_k.PredicatesIndex.Cache.Sync.Sizes.{HasSize, IsSized}
use rdfcache_k.K2Tree.Mixed.Required.{required_bytes}
use rdfcache_k.Stream.Laws.{content-at_end, empty-at_end}
use rdfcache_k.PredicatesIndex.Metadata.RoundTrip.{HasMetadata}
use rdfcache_k.K2Tree.Mixed.RoundTrip.{IsFile}
use rdfcache_k.PredicatesIndex.Cache.Sync.Written.{IsReady, IsTreeFile, Placed}
use rdfcache_k.K2Tree.Mixed.{K2TreeMixed}
use rdfcache_k.PredicatesIndex.Metadata.{PredicateMetadata}
use rdfcache_k.PredicatesIndex.Cache.Sync.{TreeFile, tree_file, copy_tree, dump_tree, read_buffer}
use rdfcache_k.PredicatesIndex.Cache.{pointer_at, has_key, PredicatesIndexCache, TreeLibrary}
use rdfcache_k.Prelude.{
  ◌≤◌, ok, ◌^◌, drop-append, ◌%◌, drop, take-append, ℕ, ◌-◌, ◌≡◌, ◌⊎◌, refl, sym, arith, ap, ◌∙◌,
  List, [], ◌∷◌, ◌++◌, append_assoc, append-nil, length, length-append, All, some, true, false, inl,
  inr, find_value, IsU64,
}
use mathlib.Core.List.{Permᴰ as Perm}

-- What the other libraries promise: the sizes are words, and a hash has sixteen bytes.
pub record IsTreeLibrary (lib : TreeLibrary) : Type 0 where
  pub total_bytes-fits : (tree : K2TreeMixed) → IsU64 (lib.total_bytes tree)
  pub length-md5calc : (bytes : List ℕ) → length (lib.md5calc bytes) ≡ 16
  pub sort-Perm : (ids : List ℕ) → Perm ids (lib.sort ids)

read_buffer-bytes :
    (bytes rest : List ℕ) (n : ℕ) → n ≡ length bytes → read_buffer n (bytes ++ rest) ≡ bytes
unfolding read_buffer
read_buffer-bytes bytes rest n e =
    let full : n - length (bytes ++ rest) ≡ 0 = omega (arith, length-append bytes rest) in
    rw (take-append bytes rest n e, full) (append-nil bytes)

-- What is written of a tree from memory.
abbrev dumped : TreeLibrary → K2TreeMixed → List ℕ → TreeFile
dumped lib tree bytes = record {
  bytes = bytes;
  tree_size = length bytes % 2 ^ 64;
  tree_size_in_memory = lib.total_bytes tree;
  k2tree_hash = lib.md5calc bytes;
}

module _ {L : Type 0} where
  -- The cache has this tree for the predicate, with these bytes in a file: in memory if it was changed,
  -- else in the index file.
  pub record IsStored (s : PredicatesIndexCache L) (id : ℕ) (tree : K2TreeMixed) (bytes : List ℕ)
      : Type 0 where
    pub id_fits : IsU64 id
    pub file : IsFile tree bytes
    pub fits : IsU64 (length bytes)
    pub stored :
        ((has_key s.dirty_predicates id ≡ true)
          × (pointer_at (find_value s.predicates id) ≡ some tree))
        ⊎ ((has_key s.dirty_predicates id ≡ false)
            × Placed 0 s.file (s.metadata).metadata_map id bytes)

  dump_tree-dumped :
      (lib : TreeLibrary) (s : PredicatesIndexCache L) (id : ℕ) (tree : K2TreeMixed)
      (bytes : List ℕ)
      → IsFile tree bytes
      → pointer_at (find_value s.predicates id) ≡ some tree
      → dump_tree lib id s ≡ ok (dumped lib tree bytes)
  unfolding dump_tree
  dump_tree-dumped lib s id tree bytes file e =
      rw (e, empty-at_end, file.written [], content-at_end bytes) refl

  dump_tree-IsTreeFile :
      (lib : TreeLibrary) (s : PredicatesIndexCache L) (id : ℕ) (tree : K2TreeMixed)
      (bytes : List ℕ)
      → IsTreeLibrary lib
      → IsFile tree bytes
      → IsU64 (length bytes)
      → pointer_at (find_value s.predicates id) ≡ some tree
      → IsTreeFile bytes (dump_tree lib id s)
  dump_tree-IsTreeFile lib s id tree bytes promised file fits e = record {
    tree = dumped lib tree bytes;
    result = dump_tree-dumped lib s id tree bytes file e;
    same = refl;
    size = omega arith;
    memory_fits = promised.total_bytes-fits tree;
    hash_size = promised.length-md5calc bytes;
  }

  abbrev copied : PredicatesIndexCache L → PredicateMetadata → TreeFile
  copied s m = record {
    bytes = read_buffer m.tree_size (drop m.tree_offset s.file);
    tree_size = m.tree_size;
    tree_size_in_memory = m.tree_size_in_memory;
    k2tree_hash = m.k2tree_hash;
  }

  copy_tree-copied :
      (s : PredicatesIndexCache L) (id : ℕ) (m : PredicateMetadata)
      → find_value (s.metadata).metadata_map id ≡ some m
      → copy_tree id s ≡ ok (copied s m)
  unfolding copy_tree
  copy_tree-copied s id m e = rw e refl

  copy_tree-IsTreeFile :
      (s : PredicatesIndexCache L) (id : ℕ) (bytes : List ℕ)
      → Placed 0 s.file (s.metadata).metadata_map id bytes
      → IsTreeFile bytes (copy_tree id s)
  copy_tree-IsTreeFile s id bytes h =
      let there : drop (h.m).tree_offset s.file ≡ bytes ++ h.behind =
        ap (drop (h.m).tree_offset) h.parts
        ∙ drop-append h.before (bytes ++ h.behind) (h.m).tree_offset (omega (arith, h.place)) in
      record {
        tree = copied s h.m;
        result = copy_tree-copied s id h.m h.found;
        same = rw there (read_buffer-bytes bytes h.behind (h.m).tree_size h.size);
        size = h.size;
        memory_fits = (h.fits).memory_fits;
        hash_size = (h.fits).hash_size;
      }

  -- The memory that the cache gives a tree, which is that of the record it writes, is as much as reading
  -- the tree takes: the size that the library computes if the tree was changed, else that of its record.
  abbrev pub HasRoom : TreeLibrary → PredicatesIndexCache L → ℕ → K2TreeMixed → Type 0
  HasRoom lib s id tree =
      ((has_key s.dirty_predicates id ≡ true)
        × (required_bytes lib.sizes tree ≤ lib.total_bytes tree))
      ⊎ ((has_key s.dirty_predicates id ≡ false)
          × HasSize (s.metadata).metadata_map id (required_bytes lib.sizes tree))

  stored-IsSized :
      (lib : TreeLibrary) (s : PredicatesIndexCache L) (trees : ℕ → K2TreeMixed) (id : ℕ)
      (bytes : List ℕ)
      → IsStored s id (trees id) bytes
      → HasRoom lib s id (trees id)
      → IsSized lib s (λ j. required_bytes lib.sizes (trees j)) id
  unfolding tree_file
  stored-IsSized lib s trees id bytes h (inl (dirty, room)) = elim h.stored [
    | inl (same, here) ↦ (
      dumped lib (trees id) bytes,
      rw dirty (dump_tree-dumped lib s id (trees id) bytes h.file here),
      room,
    )
    | inr (clean, there) ↦ absurd (ground arith)
  ]
  stored-IsSized lib s trees id bytes h (inr (clean, (m, found, room))) =
      (copied s m, rw clean (copy_tree-copied s id m found), room)

  pub stored-AreSized :
      (lib : TreeLibrary) (s : PredicatesIndexCache L) (trees : ℕ → K2TreeMixed)
      (bytes : ℕ → List ℕ) (ids : List ℕ)
      → All (λ id. IsStored s id (trees id) (bytes id)) ids
      → All (λ id. HasRoom lib s id (trees id)) ids
      → All (IsSized lib s (λ j. required_bytes lib.sizes (trees j))) ids
  stored-AreSized lib s trees bytes [] h rooms = tt
  stored-AreSized lib s trees bytes (id ∷ ids) (h, all) (room, rooms) = (
    stored-IsSized lib s trees id (bytes id) h room,
    stored-AreSized lib s trees bytes ids all rooms,
  )

  pub stored-IsReady :
      (lib : TreeLibrary) (s : PredicatesIndexCache L) (trees : ℕ → K2TreeMixed)
      (bytes : ℕ → List ℕ)
      → IsTreeLibrary lib
      → (ids : List ℕ) → All (λ id. IsStored s id (trees id) (bytes id)) ids
      → All (IsReady lib s bytes) ids
  unfolding tree_file
  stored-IsReady lib s trees bytes promised [] h = tt
  stored-IsReady lib s trees bytes promised (id ∷ ids) (h, all) = (
    (
      h.id_fits,
      elim h.stored [
        | inl (dirty, here) ↦
            rw dirty
              (dump_tree-IsTreeFile lib s id (trees id) (bytes id) promised h.file h.fits here)
        | inr (clean, there) ↦ rw clean (copy_tree-IsTreeFile s id (bytes id) there)
      ],
    ),
    stored-IsReady lib s trees bytes promised ids all,
  )

pub Placed-HasMetadata :
    (base : ℕ) (t : List ℕ) (metadata_map : List (ℕ × PredicateMetadata)) (bytes : ℕ → List ℕ)
    (ids : List ℕ)
    → All (λ id. Placed base t metadata_map id (bytes id)) ids
    → All (HasMetadata metadata_map) ids
Placed-HasMetadata base t metadata_map bytes [] h = tt
Placed-HasMetadata base t metadata_map bytes (id ∷ ids) (h, all) =
    ((h.m, h.found, h.same_id, h.fits), Placed-HasMetadata base t metadata_map bytes ids all)

-- The bytes in front, and another map with the same record.
pub Placed-behind :
    (front t : List ℕ) (base : ℕ) (metadata_map new : List (ℕ × PredicateMetadata)) (id : ℕ)
    (bytes : List ℕ)
    → base ≡ length front
    → find_value new id ≡ find_value metadata_map id
    → Placed base t metadata_map id bytes
    → Placed 0 (front ++ t) new id bytes
Placed-behind front t base metadata_map new id bytes e same h = record {
  m = h.m;
  found = same ∙ h.found;
  same_id = h.same_id;
  fits = h.fits;
  size = h.size;
  before = front ++ h.before;
  behind = h.behind;
  parts = ap (◌++◌ front) h.parts ∙ sym (append_assoc front h.before (bytes ++ h.behind));
  place = omega (arith, h.place, length-append front h.before);
}
