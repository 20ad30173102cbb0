-- ===== src/NodeIds/Manager/Ids.antt =====
-- core/nodeids/NodeIdsManagerImpl.cpp: which node an id belongs to.
use rdfcache_k.Prelude.{
  find-assign_ne, if_both, ◌∙◌, find-assign_self, inr, ◌==◌, ◌+◌, inl, Bool-cases, ◌⊎◌, ap, sym,
  get_elem?, ◌<◌, ◌≡◌, ◌≤◌, ◌≢◌, Option, length, add64, ℕ, suc, zero, [], ◌∷◌, some, none, List,
  arith, refl, find_value, assign,
}
use rdfcache_k.NodeIds.Sequence
use rdfcache_k.NodeIds.Sequence.{not_found_nodeid, NidsErrCode, real_id_at}
use rdfcache_k.NodeIds.Sequence.Positions.{IsAscending, get_id_iff}
use rdfcache_k.NodeIds.NodesMap
use rdfcache_k.NodeIds.NodesMap.{NodesMapImpl, add, id_or_not_found}
use rdfcache_k.NodeIds.Manager.{
  NodeIdsManagerImpl, get_id, get_real_id, real_id_or, log_new_kv, create_id, get_id_or_create,
}

-- The id that comes next.
abbrev pub next_id : NodeIdsManagerImpl → ℕ
next_id m = add64 m.last_assigned_id 1

-- The sequence ascends, and an id of the map is beyond the sequence, has been given, and leads
-- back to its node.
pub record IsConsistent (m : NodeIdsManagerImpl) : Type 0 where
  pub ascending : IsAscending m.nodes_sequence
  pub beyond : length m.nodes_sequence ≤ next_id m
  pub room : next_id m ≤ not_found_nodeid
  pub mapped :
      (real_id id : ℕ)
      → find_value m.nodes_map.imap real_id ≡ some id
      → (find_value m.nodes_map.rev_map id ≡ some real_id)
        × (length m.nodes_sequence ≤ id)
        × (id < next_id m)

beyond-get_elem? : (vs : List ℕ) (i : ℕ) → length vs ≤ i → get_elem? vs i ≡ none
beyond-get_elem? [] i h = refl
beyond-get_elem? (v ∷ vs) zero h = absurd (omega arith)
beyond-get_elem? (v ∷ vs) (suc i) h = beyond-get_elem? vs i (omega arith)

found-id : (o : Option ℕ) (id : ℕ) → id ≢ not_found_nodeid → id_or_not_found o ≡ id → o ≡ some id
unfolding id_or_not_found
found-id none id ne e = absurd (ne (sym e))
found-id (some i) id ne e = ap some e

-- The sequence gives the id, or it does not know the node and the map gives it.
abbrev Gives : NodeIdsManagerImpl → ℕ → ℕ → Type 0
Gives m real_id id =
    (Sequence.get_id m.nodes_sequence real_id ≡ id)
    ⊎ ((Sequence.get_id m.nodes_sequence real_id ≡ not_found_nodeid)
        × (find_value m.nodes_map.imap real_id ≡ some id))

get_id-Gives :
    (m : NodeIdsManagerImpl) (real_id id : ℕ)
    → id ≢ not_found_nodeid
    → get_id m real_id ≡ id
    → Gives m real_id id
unfolding get_id NodesMap.get_id
get_id-Gives m real_id id ne e =
    elim (Bool-cases (Sequence.get_id m.nodes_sequence real_id == not_found_nodeid)) [
      | inl unknown ↦
          inr
            (ground arith, found-id (find_value m.nodes_map.imap real_id) id ne (ground (arith, e)))
      | inr known ↦ inl (ground (arith, e))
    ]

Gives-get_id :
    (m : NodeIdsManagerImpl) (real_id id : ℕ)
    → id ≢ not_found_nodeid
    → Gives m real_id id
    → get_id m real_id ≡ id
unfolding get_id NodesMap.get_id id_or_not_found
Gives-get_id m real_id id ne (inl e) = ground (arith, e, ne)
Gives-get_id m real_id id ne (inr (e, found)) = rw (e, found) (ground arith)

Gives-get_real_id :
    (m : NodeIdsManagerImpl) (real_id id : ℕ)
    → IsConsistent m
    → id ≢ not_found_nodeid
    → Gives m real_id id
    → (get_real_id m id).0 ≡ real_id
unfolding get_real_id real_id_or NodesMap.get_real_id real_id_at Sequence.get_real_id
Gives-get_real_id m real_id id h ne (inl e) =
    rw ((get_id_iff m.nodes_sequence real_id id h.ascending ne).0 e) refl
Gives-get_real_id m real_id id h ne (inr (e, found)) =
    let (back, far, _) = h.mapped real_id id found in
    rw (beyond-get_elem? m.nodes_sequence id far, back) refl

-- In a consistent manager, the id of a node leads back to the node.
pub get_real_id-get_id :
    (m : NodeIdsManagerImpl) (real_id : ℕ)
    → IsConsistent m
    → get_id m real_id ≢ not_found_nodeid
    → (get_real_id m (get_id m real_id)).0 ≡ real_id
get_real_id-get_id m real_id h ne =
    Gives-get_real_id m real_id (get_id m real_id) h ne (get_id-Gives m real_id _ ne refl)

-- A call on a node leaves this: the manager is consistent, the id returned is that of the node, and
-- the nodes that had an id have it still.
pub record IsAssigned (m : NodeIdsManagerImpl) (real_id : ℕ) (r : ℕ × NodeIdsManagerImpl)
    : Type 0 where
  pub consistent : IsConsistent r.1
  pub given : get_id r.1 real_id ≡ r.0
  pub valid : r.0 ≢ not_found_nodeid
  pub stable : (j : ℕ) → get_id m j ≢ not_found_nodeid → get_id r.1 j ≡ get_id m j

module _ (m : NodeIdsManagerImpl) (real_id : ℕ) (h : IsConsistent m)
    (room : next_id m < not_found_nodeid) (unknown : get_id m real_id ≡ not_found_nodeid) where
  not_mapped : (id : ℕ) → find_value m.nodes_map.imap real_id ≡ some id → ⊥
  unfolding get_id NodesMap.get_id
  not_mapped id e =
      let (_, _, given) = h.mapped real_id id e in
      let found : id_or_not_found (find_value m.nodes_map.imap real_id) ≡ id =
        unfold id_or_not_found in rw e refl in
      ground (arith, unknown, found, given, room)

  not_listed : Sequence.get_id m.nodes_sequence real_id ≡ not_found_nodeid
  unfolding get_id
  not_listed = ground (arith, unknown)

  create_id-mapped :
      (j id : ℕ)
      → find_value (create_id m real_id).1.nodes_map.imap j ≡ some id
      → (find_value (create_id m real_id).1.nodes_map.rev_map id ≡ some j)
        × (length m.nodes_sequence ≤ id)
        × (id < next_id m + 1)
  unfolding create_id log_new_kv add
  create_id-mapped j id e = elim (Bool-cases (j == real_id)) [
    | inl same ↦
        (let at : j ≡ real_id = ground arith in
          let new : some (next_id m) ≡ some id =
            sym (find-assign_self m.nodes_map.imap real_id (next_id m))
            ∙ ap (find_value (assign m.nodes_map.imap real_id (next_id m))) (sym at)
            ∙ e in
          let here : next_id m ≡ id = ground (arith, new) in
          (
            ap (find_value (assign m.nodes_map.rev_map (next_id m) real_id)) (sym here)
                ∙ find-assign_self m.nodes_map.rev_map (next_id m) real_id
                ∙ ap some (sym at),
            omega (arith, here, h.beyond),
            omega (arith, here),
          ))
    | inr other ↦
        (let apart : j ≢ real_id = λ t. ground arith in
          let (back, far, given) =
            h.mapped j id (sym (find-assign_ne m.nodes_map.imap real_id j (next_id m) apart) ∙ e) in
          (
            find-assign_ne m.nodes_map.rev_map (next_id m) id real_id (λ t. omega (arith, t, given))
                ∙ back,
            far,
            omega (arith, given),
          ))
  ]

  create_id-IsConsistent : IsConsistent (create_id m real_id).1
  unfolding create_id log_new_kv
  create_id-IsConsistent =
      let next : add64 (next_id m) 1 ≡ next_id m + 1 = omega (arith, room) in
      record {
        ascending = h.ascending;
        beyond = omega (arith, next, h.beyond);
        room = omega (arith, next, room);
        mapped = λ j id e. rw next (create_id-mapped j id e);
      }

  create_id-stable :
      (j : ℕ) → get_id m j ≢ not_found_nodeid → get_id (create_id m real_id).1 j ≡ get_id m j
  unfolding get_id NodesMap.get_id create_id log_new_kv add
  create_id-stable j ne =
      let apart : j ≢ real_id = λ t. ne (ap (get_id m) t ∙ unknown) in
      rw (find-assign_ne m.nodes_map.imap real_id j (next_id m) apart) refl

  create_id-IsAssigned : IsAssigned m real_id (create_id m real_id)
  create_id-IsAssigned = record {
    consistent = create_id-IsConsistent;
    given =
        Gives-get_id (create_id m real_id).1 real_id (create_id m real_id).0
          (unfold create_id in λ t. omega (arith, room, t))
          (inr (
            unfold create_id log_new_kv add in
            (not_listed, find-assign_self m.nodes_map.imap real_id (next_id m))));
    valid = unfold create_id in λ t. omega (arith, room, t);
    stable = create_id-stable;
  }

-- In a consistent manager with an id left to give, `get_id_or_create` returns a valid id that from
-- then on is the id of the node, leaves the ids of other nodes as they were, and the manager
-- consistent.
pub get_id_or_create-IsAssigned :
    (m : NodeIdsManagerImpl) (real_id : ℕ)
    → IsConsistent m
    → next_id m < not_found_nodeid
    → IsAssigned m real_id (get_id_or_create m real_id)
unfolding get_id_or_create
get_id_or_create-IsAssigned m real_id h room =
    if_both (IsAssigned m real_id) (get_id m real_id == not_found_nodeid) _ _
      (λ new. create_id-IsAssigned m real_id h room (ground arith))
      (λ old. record {
        consistent = h;
        given = refl;
        valid = λ t. ground arith;
        stable = λ j _. refl;
      })
