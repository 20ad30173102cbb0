-- ===== src/Updates/Log/Records.antt =====
-- core/updating/UpdatesLoggerImpl.cpp: the bytes of one update.
use rdfcache_k.Prelude.{
  append_assoc, ◌∙◌, IsU32, append-nil, ◌≡◌, IsU64, ℕ, List, [], ◌++◌, some, none, ok, arith, refl,
  Option,
}
use rdfcache_k.Stream.{u64_bytes, u32_bytes}
use rdfcache_k.Stream.Laws.{
  read_u32-bytes, read_u64-bytes, write_u32-at_end, write_u64-at_end, at_end,
}
use rdfcache_k.K2Tree.Mixed.{K2TreeMixed}
use rdfcache_k.K2Tree.Mixed.RoundTrip.{IsMixed, IsFile, IsMixed-IsFile}
use rdfcache_k.Updates.Log.{
  K2TreeUpdates, get_kind, kind_of, kind_code, write_tree, write_pointer, write_trees, write_update,
  read_trees, recover_single_predicate_update,
}

-- There is no tree, or one that fits its format.
abbrev pub IsTreeOrNull : Option K2TreeMixed → Type 0
IsTreeOrNull none = Unit {0}
IsTreeOrNull (some tree) = IsMixed tree

pub record IsUpdate (u : K2TreeUpdates) : Type 0 where
  pub id_fits : IsU64 u.predicate_id
  pub add_fits : IsTreeOrNull u.k2tree_add
  pub del_fits : IsTreeOrNull u.k2tree_del

-- The bytes of an update, wherever they are written and whatever follows them.
pub record IsRecord (u : K2TreeUpdates) (bytes : List ℕ) : Type 0 where
  pub written : (c : List ℕ) → write_update u (at_end c) ≡ ok (at_end (c ++ bytes))
  pub read : (rest : List ℕ) → recover_single_predicate_update (bytes ++ rest) ≡ ok (u, rest)

write_tree-file :
    (tree : K2TreeMixed) (bytes c : List ℕ)
    → IsFile tree bytes
    → write_tree tree (at_end c) ≡ ok (at_end (c ++ bytes))
unfolding write_tree
write_tree-file tree bytes c file = rw (file.written c) refl

-- The update as its fields.
abbrev update_of : ℕ → Option K2TreeMixed → Option K2TreeMixed → K2TreeUpdates
update_of id add del = record { predicate_id = id; k2tree_add = add; k2tree_del = del }

-- The bytes of the trees.
record AreTrees (add del : Option K2TreeMixed) (id : ℕ) (bytes : List ℕ) : Type 0 where
  written :
      (c : List ℕ)
      → write_trees (kind_of add del) (update_of id add del) (at_end c) ≡ ok (at_end (c ++ bytes))
  read :
      (rest : List ℕ)
      → read_trees (kind_code (kind_of add del)) (bytes ++ rest) ≡ ok ((add, del), rest)

trees-AreTrees :
    (add del : Option K2TreeMixed) (id : ℕ)
    → IsTreeOrNull add
    → IsTreeOrNull del
    → (bytes : List ℕ) × AreTrees add del id bytes
unfolding write_trees write_pointer kind_of read_trees kind_code
trees-AreTrees none none id h k = ([], record { written = λ c. rw append-nil; read = λ rest. refl })
trees-AreTrees none (some del) id h k =
    let (bytes, file) = IsMixed-IsFile del k in
    (
      bytes,
      record {
        written = λ c. write_tree-file del bytes c file;
        read = λ rest. rw (file.read rest) refl;
      },
    )
trees-AreTrees (some add) none id h k =
    let (bytes, file) = IsMixed-IsFile add h in
    (
      bytes,
      record {
        written = λ c. write_tree-file add bytes c file;
        read = λ rest. rw (file.read rest) refl;
      },
    )
trees-AreTrees (some add) (some del) id h k =
    let (bytes, file) = IsMixed-IsFile add h in
    let (bytes', file') = IsMixed-IsFile del k in
    (
      bytes ++ bytes',
      record {
        written = λ c.
            rw (write_tree-file add bytes c file)
              (write_tree-file del bytes' (c ++ bytes) file' ∙ rw append_assoc refl);
        read = λ rest.
            rw (append_assoc bytes bytes' rest, file.read (bytes' ++ rest), file'.read rest) refl;
      },
    )

kind_fits : (add del : Option K2TreeMixed) → IsU32 (kind_code (kind_of add del))
unfolding kind_of kind_code
kind_fits none none = omega arith
kind_fits none (some del) = omega arith
kind_fits (some add) none = omega arith
kind_fits (some add) (some del) = omega arith

update-IsRecord :
    (id : ℕ) (add del : Option K2TreeMixed) (bytes : List ℕ)
    → IsU64 id
    → AreTrees add del id bytes
    → IsRecord
        (update_of id add del)
        (u64_bytes id ++ (u32_bytes (kind_code (kind_of add del)) ++ bytes))
unfolding write_update recover_single_predicate_update get_kind
update-IsRecord id add del bytes fits trees =
    let code = kind_code (kind_of add del) in
    record {
      written = λ c.
          rw (write_u64-at_end c id, write_u32-at_end (c ++ u64_bytes id) code)
            (trees.written ((c ++ u64_bytes id) ++ u32_bytes code) ∙ simp append_assoc);
      read = λ rest. simp append_assoc (
          rw (read_u64-bytes id _ fits, read_u32-bytes code _ (kind_fits add del), trees.read rest)
            refl);
    }

-- An update whose predicate is a word and whose trees fit their format has bytes that
-- `write_update` adds at the end of any stream, and from which, whatever follows, the update is
-- recovered.
pub IsUpdate-IsRecord : (u : K2TreeUpdates) → IsUpdate u → (bytes : List ℕ) × IsRecord u bytes
IsUpdate-IsRecord u h =
    let (bytes, trees) =
      trees-AreTrees u.k2tree_add u.k2tree_del u.predicate_id h.add_fits h.del_fits in
    (_, update-IsRecord u.predicate_id u.k2tree_add u.k2tree_del bytes h.id_fits trees)
