-- ===== src/NodeIds/Manager/Log.antt =====
-- core/nodeids/NodeIdsManagerImpl.cpp: the log of the ids given, and what is restored from it.
use rdfcache_k.Stream.Laws.{
  read_u64-empty, read_u64-bytes, first_u64, rewrite_u64, content-at_end, write_u64-at_end, at_end,
}
use rdfcache_k.Prelude.{
  append-nil, inr, ◌==◌, if_both, inl, ◌⊎◌, All-append, length-append, add64, ◌++◌, length, ◌≡◌,
  IsU64, All, ℕ, suc, [], ◌∷◌, List, refl, ok, arith,
}
use rdfcache_k.Stream.{read_u64, u64_bytes, OStream, seekp, write_u64}
use rdfcache_k.NodeIds.Sequence.{not_found_nodeid}
use rdfcache_k.NodeIds.NodesMap.{NodesMapImpl, restore}
use rdfcache_k.NodeIds.NodesMap.Restore.{
  restore_entries-bytes, entries_bytes-append, add_all-append, entries_bytes, add_all, IsEntry,
}
use rdfcache_k.NodeIds.Manager.{NodeIdsManagerImpl, get_id, create_id, log_new_kv, get_id_or_create}

-- The entries `es` have been added to the map `base`, and the log and the counter say so; as long as
-- there is none, nothing may have been written to the counter.
pub record IsLogged (base : NodesMapImpl) (es : List (ℕ × ℕ)) (m : NodeIdsManagerImpl)
    : Type 0 where
  pub entries : All IsEntry es
  pub added : m.nodes_map ≡ add_all base es
  pub log : m.log_writer ≡ at_end (entries_bytes es)
  pub counted : m.logs_number ≡ length es
  pub counter :
      (m.counter_writer ≡ at_end (u64_bytes (length es)))
      ⊎ ((m.counter_writer ≡ at_end []) × (length es ≡ 0))

counter_rewritten :
    (os : OStream) (n w : ℕ)
    → (os ≡ at_end (u64_bytes n)) ⊎ ((os ≡ at_end []) × (n ≡ 0))
    → write_u64 (seekp os 0) w ≡ at_end (u64_bytes w)
counter_rewritten os n w (inl e) = rw e (rewrite_u64 n w)
counter_rewritten os n w (inr (e, _)) = rw e (first_u64 w)

counter_read :
    (os : OStream) (n : ℕ)
    → IsU64 n
    → (os ≡ at_end (u64_bytes n)) ⊎ ((os ≡ at_end []) × (n ≡ 0))
    → (rest : List ℕ) × (read_u64 os.content ≡ ok (n, rest))
counter_read os n h (inl e) =
    ([], rw (e, content-at_end (u64_bytes n), ← append-nil (u64_bytes n)) (read_u64-bytes n [] h))
counter_read os n h (inr (e, none)) = ([], rw (e, content-at_end [], none) read_u64-empty)

restore-IsLogged :
    (base : NodesMapImpl) (es : List (ℕ × ℕ)) (m : NodeIdsManagerImpl)
    → IsU64 (length es)
    → IsLogged base es m
    → restore base m.log_writer.content m.counter_writer.content ≡ ok (m.nodes_map, [])
unfolding restore
restore-IsLogged base es m fits h =
    let (rest, read) = counter_read m.counter_writer (length es) fits h.counter in
    rw (read, h.log, content-at_end (entries_bytes es), h.added)
      (restore_entries-bytes es base h.entries)

create_id-IsLogged :
    (base : NodesMapImpl) (es : List (ℕ × ℕ)) (m : NodeIdsManagerImpl) (real_id : ℕ)
    → IsU64 real_id
    → IsU64 (suc (length es))
    → IsLogged base es m
    → IsLogged base (es ++ ((real_id, add64 m.last_assigned_id 1) ∷ [])) (create_id m real_id).1
unfolding create_id log_new_kv
create_id-IsLogged base es m real_id fits room h =
    let id = add64 m.last_assigned_id 1 in
    let size : length (es ++ ((real_id, id) ∷ [])) ≡ suc (length es) =
      omega (arith, length-append es ((real_id, id) ∷ [])) in
    let count : add64 m.logs_number 1 ≡ suc (length es) = omega (arith, h.counted, room) in
    record {
      entries = All-append IsEntry es ((real_id, id) ∷ []) h.entries ((fits, omega arith), tt);
      added = rw (add_all-append base es real_id id, h.added) refl;
      log =
          rw
            (
              h.log,
              write_u64-at_end (entries_bytes es) real_id,
              write_u64-at_end (entries_bytes es ++ u64_bytes real_id) id,
              entries_bytes-append es real_id id,
            )
            refl;
      counted = omega (arith, count, size);
      counter = inl (
          rw (count, size)
            (counter_rewritten m.counter_writer (length es) (suc (length es)) h.counter));
    }

-- If the log says what was added to a map `base`, the node is a word and the number of entries with
-- one more is a word, then after `get_id_or_create` the log says what was added by then, and from
-- the log and the counter `restore` makes the map of the manager out of `base`.
pub restore-log :
    (base : NodesMapImpl) (es : List (ℕ × ℕ)) (m : NodeIdsManagerImpl) (real_id : ℕ)
    → IsU64 real_id
    → IsU64 (suc (length es))
    → IsLogged base es m
    → let after = (get_id_or_create m real_id).1 in
      ((es' : List (ℕ × ℕ)) × IsLogged base es' after)
      × (restore base after.log_writer.content after.counter_writer.content
          ≡ ok (after.nodes_map, []))
unfolding get_id_or_create
restore-log base es m real_id fits room h =
    if_both {A = ℕ × NodeIdsManagerImpl}
      (λ r.
        ((es' : List (ℕ × ℕ)) × IsLogged base es' r.1)
        × (restore base r.1.log_writer.content r.1.counter_writer.content ≡ ok (r.1.nodes_map, [])))
      (get_id m real_id == not_found_nodeid) _ _
      (λ new.
        let entry : ℕ × ℕ = (real_id, add64 m.last_assigned_id 1) in
        let logged = create_id-IsLogged base es m real_id fits room h in
        let size = length-append es (entry ∷ []) in
        (
          (es ++ (entry ∷ []), logged),
          restore-IsLogged base (es ++ (entry ∷ [])) _ (omega (arith, size, room)) logged,
        ))
      (λ old. ((es, h), restore-IsLogged base es m (omega (arith, room)) h))
