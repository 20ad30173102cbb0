-- ===== src/NodeIds/NodesMap/Restore.antt =====
-- core/nodeids/NodesMapImpl.cpp: the entries of a log, read back.
use rdfcache_k.Stream.Laws.{read_u64-bytes}
use rdfcache_k.Prelude.{
  append_assoc, append-nil, length, ◌≡◌, All, IsU64, ◌++◌, ℕ, [], ◌∷◌, List, refl, ok,
}
use rdfcache_k.Stream.{u64_bytes}
use rdfcache_k.NodeIds.NodesMap.{NodesMapImpl, add, restore_entries}

unfoldable pub entries_bytes : List (ℕ × ℕ) → List ℕ
entries_bytes [] = []
entries_bytes ((k, v) ∷ es) = u64_bytes k ++ (u64_bytes v ++ entries_bytes es)

unfoldable pub add_all : NodesMapImpl → List (ℕ × ℕ) → NodesMapImpl
add_all m [] = m
add_all m ((k, v) ∷ es) = add_all (add m k v) es

abbrev pub IsEntry : ℕ × ℕ → Type 0
IsEntry e = IsU64 e.0 × IsU64 e.1

pub entries_bytes-append :
    (es : List (ℕ × ℕ)) (k v : ℕ)
    → entries_bytes (es ++ ((k, v) ∷ [])) ≡ (entries_bytes es ++ u64_bytes k) ++ u64_bytes v
unfolding entries_bytes
entries_bytes-append [] k v = rw append-nil
entries_bytes-append ((k', v') ∷ es) k v = rw (entries_bytes-append es k v) (simp append_assoc)

pub add_all-append :
    (m : NodesMapImpl) (es : List (ℕ × ℕ)) (k v : ℕ)
    → add_all m (es ++ ((k, v) ∷ [])) ≡ add (add_all m es) k v
unfolding add_all
add_all-append m [] k v = refl
add_all-append m ((k', v') ∷ es) k v = add_all-append (add m k' v') es k v

pub restore_entries-bytes :
    (es : List (ℕ × ℕ)) (m : NodesMapImpl)
    → All IsEntry es
    → restore_entries (length es) m (entries_bytes es) ≡ ok (add_all m es, [])
unfolding restore_entries entries_bytes add_all
restore_entries-bytes [] m h = refl
restore_entries-bytes ((k, v) ∷ es) m h =
    rw
      (
        read_u64-bytes k (u64_bytes v ++ entries_bytes es) h.0.0,
        read_u64-bytes v (entries_bytes es) h.0.1,
      )
      (restore_entries-bytes es (add m k v) h.1)
