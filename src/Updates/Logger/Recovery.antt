-- ===== src/Updates/Logger/Recovery.antt =====
-- core/updating/UpdatesLoggerImpl.cpp: which updates are merged again.
use rdfcache_k.Prelude.{
  All, ℕ, [], ◌∷◌, ◌++◌, some, none, List, Option, ok, drop, drop-append, find_value, ◌≡◌, ◌≢◌,
  refl,
}
use rdfcache_k.Stream.{IStream}
use rdfcache_k.Updates.Log.{K2TreeUpdates, OffsetsMap, recover_single_predicate_update}
use rdfcache_k.Updates.Log.Indexed.{At, Points, Locates, IsIndexed, updates_of}
use rdfcache_k.Updates.Logger.{
  MergeCall, UpdatesLoggerImpl, merge_update, recover_offsets, recovered, recover_predicate,
  recover_predicate_from, recover_ids, recover, recover_from, reader_or_open,
}

-- The file of updates has the updates `us` where the map says.
pub record IsLogged (s : UpdatesLoggerImpl) (us : List K2TreeUpdates) : Type 0 where
  pub content : List ℕ
  pub file : s.index_logs ≡ some content
  pub indexed : IsIndexed content s.offsets_map us

-- The calls for some updates, in order.
unfoldable pub calls_of : List K2TreeUpdates → List MergeCall
calls_of [] = []
calls_of (u ∷ us) = merge_update u ++ calls_of us

unfoldable pub calls_of_ids : List K2TreeUpdates → List ℕ → List MergeCall
calls_of_ids us [] = []
calls_of_ids us (id ∷ ids) = calls_of (updates_of us id) ++ calls_of_ids us ids

pub recover-At :
    (content : List ℕ) (u : K2TreeUpdates) (offset : ℕ)
    → At content u offset
    → (rest : IStream) × (recover_single_predicate_update (drop offset content) ≡ ok (u, rest))
recover-At content u offset h = (
  h.behind,
  rw (h.place, drop-append h.before (h.bytes ++ h.behind) offset h.start)
      (h.is_record.read h.behind),
)

recover_offsets-Points :
    (content os : List ℕ) (us : List K2TreeUpdates) (is : IStream)
    → Points content os us
    → (left : IStream) × (recover_offsets os content is ≡ ok (calls_of us, left))
unfolding recover_offsets calls_of Points
recover_offsets-Points content [] [] is h = (is, refl)
recover_offsets-Points content [] (u ∷ us) is h = absurd h
recover_offsets-Points content (o ∷ os) [] is h = absurd h
recover_offsets-Points content (o ∷ os) (u ∷ us) is h =
    let (rest, first) = recover-At content u o h.0 in
    let (left, others) = recover_offsets-Points content os us rest h.1 in
    (left, rw (first, others) refl)

-- The entry of an id that has updates.
entry_found :
    (content : List ℕ) (e : Option (List ℕ)) (us : List K2TreeUpdates)
    → Locates content e us
    → us ≢ []
    → (os : List ℕ) × (e ≡ some os) × Points content os us
unfolding Locates
entry_found content none us h ne = absurd (ne h)
entry_found content (some os) us h ne = (os, refl, h.1)

-- The loop over ids that have updates calls the merger for all of them, in order.
recover_ids-calls :
    (content : List ℕ) (m : OffsetsMap) (us : List K2TreeUpdates) (ids : List ℕ) (is : IStream)
    → IsIndexed content m us
    → All (λ id. updates_of us id ≢ []) ids
    → (left : IStream) × (recover_ids ids m content is ≡ ok (calls_of_ids us ids, left))
unfolding recover_ids calls_of_ids
recover_ids-calls content m us [] is h k = (is, refl)
recover_ids-calls content m us (id ∷ ids) is h k =
    let (os, found, points) = entry_found content (find_value m id) (updates_of us id) (h id) k.0 in
    let (middle, first) = recover_offsets-Points content os (updates_of us id) is points in
    let (left, others) = recover_ids-calls content m us ids middle h k.1 in
    (left, rw (found, first, others) refl)

-- Recovering a predicate that the log has updates of succeeds: the merger is called for these
-- updates in the order in which they were logged, and for no others.
pub recover_predicate-calls :
    (s : UpdatesLoggerImpl) (us : List K2TreeUpdates) (id : ℕ)
    → IsLogged s us
    → updates_of us id ≢ []
    → (left : IStream) × (recover_predicate id s
        ≡ ok (recovered s (calls_of (updates_of us id), left)))
unfolding recover_predicate recover_predicate_from
recover_predicate-calls s us id h ne =
    let (os, found, points) =
      entry_found h.content (find_value s.offsets_map id) (updates_of us id) (h.indexed id) ne in
    let (left, calls) =
      recover_offsets-Points h.content os (updates_of us id)
        (reader_or_open s.current_file_reader h.content) points in
    (left, rw (h.file, found, calls) refl)

-- Recovering predicates that the log has updates of calls the merger for the updates of each of
-- them, one predicate after another.
pub recover-calls :
    (s : UpdatesLoggerImpl) (us : List K2TreeUpdates) (ids : List ℕ)
    → IsLogged s us
    → All (λ id. updates_of us id ≢ []) ids
    → (left : IStream) × (recover ids s ≡ ok (recovered s (calls_of_ids us ids, left)))
unfolding recover recover_from
recover-calls s us ids h ne =
    let (left, calls) =
      recover_ids-calls h.content s.offsets_map us ids
        (reader_or_open s.current_file_reader h.content) h.indexed ne in
    (left, rw (h.file, calls) refl)
