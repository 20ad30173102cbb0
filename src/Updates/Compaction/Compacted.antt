-- ===== src/Updates/Compaction/Compacted.antt =====
-- core/updating/UpdatesLoggerImpl.cpp: what the log holds after `compact_logs`.
use rdfcache_k.Prelude.{
  subst, append-nil, ℕ, [], ◌∷◌, ◌++◌, some, none, List, Option, true, ok, ◌==◌, find_value, ◌≡◌,
  refl, arith, All, append_assoc, inl, inr, Bool-cases,
}
use rdfcache_k.Stream.{u32_bytes, IStream}
use rdfcache_k.Stream.Laws.{at_end, empty-at_end, content-at_end}
use rdfcache_k.K2Tree.Mixed.{K2TreeMixed}
use rdfcache_k.Updates.Log.{get_kind, K2TreeUpdates, OffsetsMap}
use rdfcache_k.Updates.Log.Records.{IsUpdate}
use rdfcache_k.Updates.Log.Indexed.{
  is_logged, Points, Locates, IsIndexed, updates_of, logged, log_updates-IsAppended,
}
use rdfcache_k.Updates.Merge.{TreeOps, PredicateUpdate, merge_with}
use rdfcache_k.Updates.Logger.{UpdatesLoggerImpl, reader_or_open}
use rdfcache_k.Updates.Logger.Recovery.{IsLogged, recover-At}
use rdfcache_k.Updates.Compaction.{
  synced, predicate_update, k2tree_updates, merge_next, compact_offsets, compact_predicate,
  compact_each, compact_logs, bytes_of,
}

-- All updates are of the predicate.
abbrev AreOf : ℕ → List K2TreeUpdates → Type 0
AreOf id us = All (λ (u : K2TreeUpdates). (u.predicate_id == id) ≡ true) us

same_id : (a b : ℕ) → (a == b) ≡ true → (b == a) ≡ true
same_id a b h = ground arith

updates_of-AreOf : (us : List K2TreeUpdates) (id : ℕ) → AreOf id (updates_of us id)
unfolding updates_of
updates_of-AreOf [] id = tt
updates_of-AreOf (u ∷ us) id = elim (Bool-cases (id == u.predicate_id)) [
  | inl e ↦ rw e (same_id id u.predicate_id e, updates_of-AreOf us id)
  | inr e ↦ rw e (updates_of-AreOf us id)
]

-- The map has an entry.
abbrev IsStored : OffsetsMap → ℕ → Type 0
IsStored m id = (os : List ℕ) × (find_value m id ≡ some os)

IsStored-cons : (m : OffsetsMap) (e : ℕ × List ℕ) (id : ℕ) → IsStored m id → IsStored (e ∷ m) id
unfolding find_value
IsStored-cons m e id (os, found) = elim (Bool-cases (id == e.0)) [
  | inl t ↦ (e.1, rw t refl)
  | inr t ↦ (os, rw t found)
]

keys_found_behind :
    (m rest : OffsetsMap)
    → All (λ e. IsStored rest e.0) m
    → (e : ℕ × List ℕ) → All (λ x. IsStored (e ∷ rest) x.0) m
keys_found_behind [] rest h e = tt
keys_found_behind (x ∷ m) rest h e = (IsStored-cons rest e x.0 h.0, keys_found_behind m rest h.1 e)

find_first : (m : OffsetsMap) (e : ℕ × List ℕ) → find_value (e ∷ m) e.0 ≡ some e.1
unfolding find_value
find_first m e = ground arith

logged-append : (us vs : List K2TreeUpdates) → logged (us ++ vs) ≡ logged us ++ logged vs
unfolding logged
logged-append [] vs = refl
logged-append (u ∷ us) vs = elim (Bool-cases (is_logged (get_kind u))) [
  | inl e ↦ rw (e, logged-append us vs) refl
  | inr e ↦ rw (e, logged-append us vs) refl
]

keys_found : (m : OffsetsMap) → All (λ e. IsStored m e.0) m
keys_found [] = tt
keys_found (e ∷ m) = ((e.1, find_first m e), keys_found_behind m m (keys_found m) e)

empty-IsIndexed : IsIndexed [] [] []
unfolding find_value Locates updates_of
empty-IsIndexed id = refl

module _ (ops : TreeOps K2TreeMixed) where
  -- One update merged with those that follow it, in order.
  unfoldable pub merge_all :
      PredicateUpdate K2TreeMixed → List K2TreeUpdates → PredicateUpdate K2TreeMixed
  merge_all merged [] = merged
  merge_all merged (u ∷ us) = merge_all (merge_with ops merged (predicate_update u)) us

  -- The update of a predicate in the new log; no predicate of the map is without updates.
  unfoldable pub compacted_update : List K2TreeUpdates → List K2TreeUpdates
  compacted_update [] = []
  compacted_update (u ∷ us) = k2tree_updates (merge_all (predicate_update u) us) ∷ []

  unfoldable pub compacted_updates : OffsetsMap → List K2TreeUpdates → List K2TreeUpdates
  compacted_updates [] us = []
  compacted_updates (p ∷ ps) us = compacted_update (updates_of us p.0) ++ compacted_updates ps us

  compact_offsets-merged :
      (id : ℕ) (content os : List ℕ) (us : List K2TreeUpdates) (m : PredicateUpdate K2TreeMixed)
      (is : IStream)
      → Points content os us
      → AreOf id us
      → (left : IStream) × (compact_offsets ops id os content (some m) is
          ≡ ok (some (merge_all m us), left))
  unfolding compact_offsets merge_all Points merge_next
  compact_offsets-merged id content [] [] m is h k = (is, refl)
  compact_offsets-merged id content [] (u ∷ us) m is h k = absurd h
  compact_offsets-merged id content (o ∷ os) [] m is h k = absurd h
  compact_offsets-merged id content (o ∷ os) (u ∷ us) m is h k =
      let (rest, first) = recover-At content u o h.0 in
      let (left, others) =
        compact_offsets-merged id content os us (merge_with ops m (predicate_update u)) rest h.1
          k.1 in
      (left, rw (first, k.0) others)

  compact_offsets-first :
      (id : ℕ) (content os : List ℕ) (u : K2TreeUpdates) (us : List K2TreeUpdates) (is : IStream)
      → Points content os (u ∷ us)
      → AreOf id (u ∷ us)
      → (left : IStream) × (compact_offsets ops id os content none is
          ≡ ok (some (merge_all (predicate_update u) us), left))
  unfolding compact_offsets Points merge_next
  compact_offsets-first id content [] u us is h k = absurd h
  compact_offsets-first id content (o ∷ os) u us is h k =
      let (rest, first) = recover-At content u o h.0 in
      let (left, others) =
        compact_offsets-merged id content os us (predicate_update u) rest h.1 k.1 in
      (left, rw (first, k.0) others)

  compact_predicate-found :
      (id : ℕ) (content os : List ℕ) (us : List K2TreeUpdates) (m : OffsetsMap)
      (reader : Option IStream)
      → find_value m id ≡ some os
      → Locates content (some os) us
      → AreOf id us
      → (merged : PredicateUpdate K2TreeMixed) × (left : Option IStream) × (compact_predicate ops id
            m content reader
          ≡ ok (some merged, left))
        × (compacted_update us ≡ k2tree_updates merged ∷ [])
  unfolding compact_predicate Locates compacted_update
  compact_predicate-found id content os [] m reader found h k = absurd (omega (arith, h.0))
  compact_predicate-found id content os (u ∷ us) m reader found h k =
      let (left, merged) =
        compact_offsets-first id content os u us (reader_or_open reader content) h.1 k in
      (merge_all (predicate_update u) us, some left, rw (found, merged) refl, refl)

  compact_each-IsIndexed :
      (ps m acc : OffsetsMap) (content c : List ℕ) (us past : List K2TreeUpdates)
      (reader : Option IStream)
      → All (λ e. IsStored m e.0) ps
      → IsIndexed content m us
      → IsIndexed c acc past
      → All IsUpdate (compacted_updates ps us)
      → (offsets : OffsetsMap) × (bytes : List ℕ) × (compact_each ops ps m content reader acc
            (at_end c)
          ≡ ok (offsets, at_end bytes))
        × IsIndexed bytes offsets (past ++ logged (compacted_updates ps us))
  unfolding compact_each compacted_updates
  compact_each-IsIndexed [] m acc content c us past reader h indexed new fits =
      (acc, c, refl, unfold logged in rw append-nil new)
  compact_each-IsIndexed (p ∷ ps) m acc content c us past reader ((os, found), h) indexed new fits =
      let located : Locates content (some os) (updates_of us p.0) =
        subst (λ e. Locates content e (updates_of us p.0)) found (indexed p.0) in
      let (merged, left, compacted, one) =
        compact_predicate-found p.0 content os (updates_of us p.0) m reader found located
          (updates_of-AreOf us p.0) in
      let both : All IsUpdate (k2tree_updates merged ∷ compacted_updates ps us) =
        subst (λ v. All IsUpdate (v ++ compacted_updates ps us)) one fits in
      let step = log_updates-IsAppended (k2tree_updates merged ∷ []) past acc c (both.0, tt) new in
      let (offsets, bytes, rest, all) =
        compact_each-IsIndexed ps m step.offsets content ((c ++ u32_bytes 1) ++ step.bytes) us
          (past ++ logged (k2tree_updates merged ∷ [])) left h indexed step.indexed both.1 in
      (
        offsets,
        bytes,
        rw (compacted, step.result) rest,
        rw (one, logged-append (k2tree_updates merged ∷ []) (compacted_updates ps us))
            (rw
              (← append_assoc past (logged (k2tree_updates merged ∷ []))
                (logged (compacted_updates ps us)))
              all),
      )

  -- If the merged updates fit their format, compacting a log succeeds, and the new log has, with a
  -- map that locates them, the updates that merging those of each predicate in order gives.
  pub compact_logs-IsLogged :
      (s : UpdatesLoggerImpl) (us : List K2TreeUpdates)
      → IsLogged s us
      → All IsUpdate (compacted_updates s.offsets_map us)
      → (s' : UpdatesLoggerImpl) × (compact_logs ops s ≡ ok s')
        × IsLogged s' (logged (compacted_updates s.offsets_map us))
  unfolding compact_logs bytes_of
  compact_logs-IsLogged s us h fits =
      let (offsets, bytes, written, indexed) =
        compact_each-IsIndexed s.offsets_map s.offsets_map [] h.content [] us [] none
          (keys_found s.offsets_map) h.indexed empty-IsIndexed fits in
      (
        synced s offsets (at_end bytes),
        rw (h.file, empty-at_end, written) refl,
        record {
          content = bytes;
          file = unfold synced in rw content-at_end refl;
          indexed = unfold synced in indexed;
        },
      )
