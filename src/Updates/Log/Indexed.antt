-- ===== src/Updates/Log/Indexed.antt =====
-- core/updating/UpdatesLoggerImpl.cpp: where the offsets map says that the updates of a predicate
-- stand.
use rdfcache_k.Prelude.{
  ◌∙◌, find-assign_ne, All, Result, find-assign_self, inr, append-nil, inl, Bool-cases, ◌<◌, length,
  ◌==◌, length-append, append_assoc, find_value, ◌≡◌, if◌then◌else◌, ℕ, List, [], ◌∷◌, ◌++◌, some,
  none, ok, arith, refl, Option, Bool, true, false,
}
use rdfcache_k.Stream.{u32_bytes, OStream}
use rdfcache_k.Stream.Laws.{write_u32-at_end, tellp-at_end, at_end}
use rdfcache_k.Updates.Log.{
  K2TreeUpdates, UpdateKind, get_kind, OffsetsMap, with_offset, register_update_offset, log_one,
  log_each, log_updates,
}
use rdfcache_k.Updates.Log.Records.{IsUpdate, IsRecord, IsUpdate-IsRecord}

unfoldable pub is_logged : UpdateKind → Bool
is_logged UpdateKind.no_update = false
is_logged _ = true

-- The updates that have a tree.
unfoldable pub logged : List K2TreeUpdates → List K2TreeUpdates
logged [] = []
logged (u ∷ us) = if is_logged (get_kind u) then u ∷ logged us else logged us

-- The updates of one predicate, in order.
unfoldable pub updates_of : List K2TreeUpdates → ℕ → List K2TreeUpdates
updates_of [] id = []
updates_of (u ∷ us) id =
    let rest = updates_of us id in if id == u.predicate_id then u ∷ rest else rest

-- The record of an update stands at an offset.
pub record At (content : List ℕ) (u : K2TreeUpdates) (offset : ℕ) : Type 0 where
  pub before : List ℕ
  pub bytes : List ℕ
  pub behind : List ℕ
  pub is_record : IsRecord u bytes
  pub place : content ≡ before ++ (bytes ++ behind)
  pub start : offset ≡ length before

unfoldable pub Points : List ℕ → List ℕ → List K2TreeUpdates → Type 0
Points content [] [] = Unit {0}
Points content [] (u ∷ us) = ⊥
Points content (o ∷ os) [] = ⊥
Points content (o ∷ os) (u ∷ us) = At content u o × Points content os us

-- A predicate without an entry has no update, one with an entry has some, one at each offset.
unfoldable pub Locates : List ℕ → Option (List ℕ) → List K2TreeUpdates → Type 0
Locates content none us = us ≡ []
Locates content (some offsets) us = (0 < length us) × Points content offsets us

abbrev pub IsIndexed : List ℕ → OffsetsMap → List K2TreeUpdates → Type 0
IsIndexed content offsets us = (id : ℕ) → Locates content (find_value offsets id) (updates_of us id)

At-append :
    (content more : List ℕ) (u : K2TreeUpdates) (o : ℕ) → At content u o → At (content ++ more) u o
At-append content more u o h = record {
  before = h.before;
  bytes = h.bytes;
  behind = h.behind ++ more;
  is_record = h.is_record;
  place = rw h.place (simp append_assoc);
  start = h.start;
}

Points-append :
    (content more os : List ℕ) (us : List K2TreeUpdates)
    → Points content os us
    → Points (content ++ more) os us
unfolding Points
Points-append content more [] [] h = tt
Points-append content more [] (u ∷ us) h = absurd h
Points-append content more (o ∷ os) [] h = absurd h
Points-append content more (o ∷ os) (u ∷ us) h =
    (At-append content more u o h.0, Points-append content more os us h.1)

Points-snoc :
    (content os : List ℕ) (us : List K2TreeUpdates) (u : K2TreeUpdates) (o : ℕ)
    → Points content os us
    → At content u o
    → Points content (os ++ o ∷ []) (us ++ u ∷ [])
unfolding Points
Points-snoc content [] [] u o h at = (at, tt)
Points-snoc content [] (v ∷ us) u o h at = absurd h
Points-snoc content (p ∷ os) [] u o h at = absurd h
Points-snoc content (p ∷ os) (v ∷ us) u o h at = (h.0, Points-snoc content os us u o h.1 at)

Locates-append :
    (content more : List ℕ) (e : Option (List ℕ)) (us : List K2TreeUpdates)
    → Locates content e us
    → Locates (content ++ more) e us
unfolding Locates
Locates-append content more none us h = h
Locates-append content more (some os) us h = (h.0, Points-append content more os us h.1)

Locates-snoc :
    (content : List ℕ) (e : Option (List ℕ)) (us : List K2TreeUpdates) (u : K2TreeUpdates) (o : ℕ)
    → Locates content e us
    → At content u o
    → Locates content (some (with_offset e o)) (us ++ u ∷ [])
unfolding Locates with_offset
Locates-snoc content none us u o h at = rw h (omega arith, unfold Points in (at, tt))
Locates-snoc content (some os) us u o h at =
    (omega (arith, length-append us (u ∷ [])), Points-snoc content os us u o h.1 at)

updates_of-append :
    (us vs : List K2TreeUpdates) (id : ℕ)
    → updates_of (us ++ vs) id ≡ updates_of us id ++ updates_of vs id
unfolding updates_of
updates_of-append [] vs id = refl
updates_of-append (u ∷ us) vs id = elim (Bool-cases (id == u.predicate_id)) [
  | inl e ↦ rw (e, updates_of-append us vs id) refl
  | inr e ↦ rw (e, updates_of-append us vs id) refl
]

updates_of-own :
    (u : K2TreeUpdates) (id : ℕ) → (id == u.predicate_id) ≡ true → updates_of (u ∷ []) id ≡ u ∷ []
unfolding updates_of
updates_of-own u id e = rw e refl

updates_of-other :
    (u : K2TreeUpdates) (id : ℕ) → (id == u.predicate_id) ≡ false → updates_of (u ∷ []) id ≡ []
unfolding updates_of
updates_of-other u id e = rw e refl

pub IsIndexed-append :
    (content more : List ℕ) (offsets : OffsetsMap) (us : List K2TreeUpdates)
    → IsIndexed content offsets us
    → IsIndexed (content ++ more) offsets us
IsIndexed-append content more offsets us h id =
    Locates-append content more (find_value offsets id) (updates_of us id) (h id)

-- The record of an update behind the rest, its offset registered.
registered-IsIndexed :
    (content bytes : List ℕ) (offsets : OffsetsMap) (us : List K2TreeUpdates) (u : K2TreeUpdates)
    → IsRecord u bytes
    → IsIndexed content offsets us
    → IsIndexed
        (content ++ bytes)
        (register_update_offset offsets u.predicate_id (at_end content))
        (us ++ u ∷ [])
unfolding register_update_offset
registered-IsIndexed content bytes offsets us u is_record h id =
    let os = with_offset (find_value offsets u.predicate_id) (length content) in
    let at : At (content ++ bytes) u (length content) = record {
      before = content;
      bytes = bytes;
      behind = [];
      is_record = is_record;
      place = rw append-nil refl;
      start = refl;
    } in
    rw (tellp-at_end content, updates_of-append us (u ∷ []) id)
      (elim (Bool-cases (id == u.predicate_id)) [
        | inl e ↦
            (let same : id ≡ u.predicate_id = ground arith in
              rw (updates_of-own u id e, same, find-assign_self offsets u.predicate_id os)
                (Locates-snoc (content ++ bytes) (find_value offsets u.predicate_id)
                  (updates_of us u.predicate_id) u (length content)
                  (Locates-append content bytes (find_value offsets u.predicate_id) _
                    (h u.predicate_id))
                  at))
        | inr e ↦
            rw
              (
                updates_of-other u id e,
                append-nil,
                find-assign_ne offsets u.predicate_id id os (λ t. ground arith),
              )
              (Locates-append content bytes (find_value offsets id) (updates_of us id) (h id))
      ])

-- The bytes of these updates, one behind another.
unfoldable pub AreRecords : List K2TreeUpdates → List ℕ → Type 0
AreRecords [] bytes = bytes ≡ []
AreRecords (u ∷ us) bytes =
    (first : List ℕ) × (rest : List ℕ) × IsRecord u first
    × (bytes ≡ first ++ rest)
    × AreRecords us rest

-- What logging `us` makes of a stream with `content`, an offsets map, and the updates logged before.
pub record IsAppended (content : List ℕ) (past us : List K2TreeUpdates)
    (r : Result (OffsetsMap × OStream)) : Type 0 where
  pub offsets : OffsetsMap
  pub bytes : List ℕ
  pub result : r ≡ ok (offsets, at_end (content ++ bytes))
  pub records : AreRecords (logged us) bytes
  pub indexed : IsIndexed (content ++ bytes) offsets (past ++ logged us)

log_one-logged :
    (u : K2TreeUpdates) (kind : UpdateKind) (offsets : OffsetsMap) (content bytes : List ℕ)
    → IsRecord u bytes
    → is_logged kind ≡ true
    → log_one kind u offsets (at_end content)
      ≡ ok (
        register_update_offset offsets u.predicate_id (at_end content),
        at_end (content ++ bytes),
      )
unfolding log_one is_logged
log_one-logged u UpdateKind.no_update offsets content bytes h t = absurd (ground arith)
log_one-logged u UpdateKind.insert_update offsets content bytes h t = rw (h.written content) refl
log_one-logged u UpdateKind.delete_update offsets content bytes h t = rw (h.written content) refl
log_one-logged u UpdateKind.both_update offsets content bytes h t = rw (h.written content) refl

log_one-skipped :
    (u : K2TreeUpdates) (kind : UpdateKind) (offsets : OffsetsMap) (os : OStream)
    → is_logged kind ≡ false
    → log_one kind u offsets os ≡ ok (offsets, os)
unfolding log_one is_logged
log_one-skipped u UpdateKind.no_update offsets os t = refl
log_one-skipped u UpdateKind.insert_update offsets os t = absurd (ground arith)
log_one-skipped u UpdateKind.delete_update offsets os t = absurd (ground arith)
log_one-skipped u UpdateKind.both_update offsets os t = absurd (ground arith)

log_each-IsAppended :
    (us past : List K2TreeUpdates) (offsets : OffsetsMap) (content : List ℕ)
    → All IsUpdate us
    → IsIndexed content offsets past
    → IsAppended content past us (log_each us offsets (at_end content))
unfolding log_each logged AreRecords
log_each-IsAppended [] past offsets content h indexed = record {
  offsets = offsets;
  bytes = [];
  result = rw append-nil refl;
  records = refl;
  indexed = rw (append-nil content, append-nil past) indexed;
}
log_each-IsAppended (u ∷ us) past offsets content h indexed =
    elim (Bool-cases (is_logged (get_kind u))) [
      | inl e ↦
          (let (bytes, is_record) = IsUpdate-IsRecord u h.0 in
            let next = register_update_offset offsets u.predicate_id (at_end content) in
            let rest =
              log_each-IsAppended us (past ++ u ∷ []) next (content ++ bytes) h.1
                (registered-IsIndexed content bytes offsets past u is_record indexed) in
            record {
              offsets = rest.offsets;
              bytes = bytes ++ rest.bytes;
              result =
                  rw (log_one-logged u (get_kind u) offsets content bytes is_record e)
                    (rest.result ∙ rw append_assoc refl);
              records = rw e (bytes, rest.bytes, is_record, refl, rest.records);
              indexed =
                  rw
                    (
                      e,
                      ← append_assoc content bytes rest.bytes,
                      ← append_assoc past (u ∷ []) (logged us),
                    )
                    rest.indexed;
            })
      | inr e ↦
          (let rest = log_each-IsAppended us past offsets content h.1 indexed in
            record {
              offsets = rest.offsets;
              bytes = rest.bytes;
              result = rw (log_one-skipped u (get_kind u) offsets (at_end content) e) rest.result;
              records = rw e rest.records;
              indexed = rw e rest.indexed;
            })
    ]

-- Logging updates that fit succeeds, with their number in front of their records, and leaves a map
-- of the offsets that locates all the updates there are then.
pub log_updates-IsAppended :
    (us past : List K2TreeUpdates) (offsets : OffsetsMap) (content : List ℕ)
    → All IsUpdate us
    → IsIndexed content offsets past
    → IsAppended
        (content ++ u32_bytes (length us))
        past
        us
        (log_updates us offsets (at_end content))
unfolding log_updates
log_updates-IsAppended us past offsets content h indexed =
    rw (write_u32-at_end content (length us)) (
      log_each-IsAppended us past offsets (content ++ u32_bytes (length us)) h
        (IsIndexed-append content (u32_bytes (length us)) offsets past indexed))
