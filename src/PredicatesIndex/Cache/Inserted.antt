-- ===== src/PredicatesIndex/Cache/Inserted.antt =====
-- core/manager/PredicatesIndexCacheMD.cpp: what `insert_point` does, wherever the tree is.
use rdfcache_k.K2Tree.Mixed.Required.{required_bytes}
use rdfcache_k.PredicatesIndex.Cache.Sync.Loaded.{
  load_from_file-keep_tree, find-keep_tree_ne, find-keep_tree, load_single_predicate-keep_tree,
}
use rdfcache_k.PredicatesIndex.Cache.Sync.Written.{Placed}
use rdfcache_k.K2Tree.Mixed.RoundTrip.{IsFile}
use rdfcache_k.K2Tree.Mixed.{K2TreeMixed}
use rdfcache_k.PredicatesIndex.Cache.{
  load_from_file, load_single_predicate, recover_with, pointer_at, is_stored_in_updates_log,
  insert_point, mark_dirty, is_stored_in_main_index, is_some, keep_tree, new_k2tree, add_predicate,
  has_predicate_stored, has_predicate_active, ready_for_insert, PredicatesIndexCache, TreeLibrary,
  insert_key, UpdatesLogger, has_key,
}
use rdfcache_k.Prelude.{
  ◌≤◌, ℕ, ◌≡◌, ◌≢◌, ◌⊎◌, refl, arith, ◌∙◌, inl, inr, true, false, List, [], ◌∷◌, none, some, assign,
  find_value, find-assign_self, find-assign_ne, Result, ok,
}

has_key-insert_key : (ks : List ℕ) (k : ℕ) → has_key (insert_key ks k) k ≡ true
unfolding has_key insert_key
has_key-insert_key [] k = ground arith
has_key-insert_key (k' ∷ ks) k = ground (arith, has_key-insert_key ks k)

module _ {L : Type 0} (logger : UpdatesLogger L) (lib : TreeLibrary) where
  -- The tree is in memory and marked to be written, and the other trees in memory are as they were.
  pub record IsThere (s : PredicatesIndexCache L) (p : ℕ) (tree : K2TreeMixed)
      (r : Result (PredicatesIndexCache L)) : Type 0 where
    pub next : PredicatesIndexCache L
    pub result : r ≡ ok next
    pub tree_there : find_value next.predicates p ≡ some (some tree)
    pub dirty : has_key next.dirty_predicates p ≡ true
    pub others : (j : ℕ) → j ≢ p → find_value next.predicates j ≡ find_value s.predicates j

  -- The index file has this tree for the predicate, and it fits in the memory that its record gives.
  pub record InFile (s : PredicatesIndexCache L) (p : ℕ) (tree : K2TreeMixed) : Type 0 where
    pub bytes : List ℕ
    pub file : IsFile tree bytes
    pub placed : Placed 0 s.file (s.metadata).metadata_map p bytes
    pub room : required_bytes lib.sizes tree ≤ (placed.m).tree_size_in_memory

  -- What the log has of a predicate is recovered on the cache that has the tree of the index file, if
  -- there is one, and then the cache has `tree`.
  abbrev pub Recovers : PredicatesIndexCache L → ℕ → K2TreeMixed → Type 0
  Recovers s p tree =
      ((old : K2TreeMixed) × (h : InFile s p old) × IsThere s p tree
          (recover_with logger s.update_logger p (keep_tree h.placed.m old s)))
      ⊎ ((find_value (s.metadata).metadata_map p ≡ none)
          × IsThere s p tree (recover_with logger s.update_logger p s))

  -- Where the tree of a predicate comes from: memory, the index file, the log with the index file, or
  -- nowhere if it is new.
  abbrev pub Gives : PredicatesIndexCache L → ℕ → K2TreeMixed → Type 0
  Gives s p tree =
      (find_value s.predicates p ≡ some (some tree))
      ⊎ ((has_predicate_active p s ≡ false)
          × (is_stored_in_updates_log logger p s ≡ false)
          × InFile s p tree)
      ⊎ ((has_predicate_active p s ≡ false)
          × (is_stored_in_updates_log logger p s ≡ true)
          × Recovers s p tree)
      ⊎ ((has_predicate_active p s ≡ false)
          × (has_predicate_stored logger p s ≡ false)
          × (tree ≡ new_k2tree logger lib s.k2tree_config))

  found_active :
      (s : PredicatesIndexCache L) (p : ℕ) (tree : K2TreeMixed)
      → find_value s.predicates p ≡ some (some tree)
      → has_predicate_active p s ≡ true
  unfolding has_predicate_active is_some
  found_active s p tree e = rw e refl

  placed_stored :
      (s : PredicatesIndexCache L) (p : ℕ) (tree : K2TreeMixed)
      → InFile s p tree
      → has_predicate_stored logger p s ≡ true
  unfolding has_predicate_stored is_stored_in_main_index is_some
  placed_stored s p tree h = rw (h.placed).found refl

  logged_stored :
      (s : PredicatesIndexCache L) (p : ℕ)
      → is_stored_in_updates_log logger p s ≡ true
      → has_predicate_stored logger p s ≡ true
  unfolding has_predicate_stored
  logged_stored s p e = ground arith

  -- The log is recovered on the tree of the file.
  load_single_predicate-recovered :
      (s : PredicatesIndexCache L) (p : ℕ) (old : K2TreeMixed) (h : InFile s p old)
      (next : PredicatesIndexCache L)
      → is_stored_in_updates_log logger p s ≡ true
      → recover_with logger s.update_logger p (keep_tree h.placed.m old s) ≡ ok next
      → load_single_predicate logger lib p s ≡ ok (true, next)
  unfolding load_single_predicate is_stored_in_main_index is_stored_in_updates_log is_some keep_tree
  load_single_predicate-recovered s p old h next logged e =
      rw
        (
          load_from_file-keep_tree lib s p old h.bytes h.file h.placed h.room,
          logged,
          h.placed.found,
          e,
        )
        refl

  load_single_predicate-logged :
      (s next : PredicatesIndexCache L) (p : ℕ)
      → is_stored_in_updates_log logger p s ≡ true
      → find_value (s.metadata).metadata_map p ≡ none
      → recover_with logger s.update_logger p s ≡ ok next
      → load_single_predicate logger lib p s ≡ ok (true, next)
  unfolding load_single_predicate is_stored_in_main_index is_some load_from_file
  load_single_predicate-logged s next p logged absent e = rw (absent, logged, e) refl

  ready_for_insert-loaded :
      (s : PredicatesIndexCache L) (p : ℕ) (tree : K2TreeMixed)
      (r : Result (PredicatesIndexCache L)) (there : IsThere s p tree r)
      → has_predicate_active p s ≡ false
      → has_predicate_stored logger p s ≡ true
      → load_single_predicate logger lib p s ≡ ok (true, there.next)
      → IsThere s p tree (ready_for_insert logger lib p s)
  unfolding ready_for_insert
  ready_for_insert-loaded s p tree r there away stored e = record {
    next = there.next;
    result = rw (away, stored, e) refl;
    tree_there = there.tree_there;
    dirty = there.dirty;
    others = there.others;
  }

  ready_for_insert-IsThere :
      (s : PredicatesIndexCache L) (p : ℕ) (tree : K2TreeMixed)
      → Gives s p tree
      → has_key s.dirty_predicates p ≡ true
      → IsThere s p tree (ready_for_insert logger lib p s)
  unfolding ready_for_insert
  ready_for_insert-IsThere s p tree (inl here) dirty = record {
    next = s;
    result = rw (found_active s p tree here) refl;
    tree_there = here;
    dirty = dirty;
    others = λ j ne. refl;
  }
  ready_for_insert-IsThere s p tree (inr (inl (away, unlogged, h))) dirty =
      ready_for_insert-loaded s p tree (ok (keep_tree h.placed.m tree s))
        (record {
          next = keep_tree h.placed.m tree s;
          result = refl;
          tree_there = find-keep_tree s p tree h.placed.m h.placed.same_id;
          dirty = unfold keep_tree in dirty;
          others = λ j ne. find-keep_tree_ne s p j tree h.placed.m h.placed.same_id ne;
        })
        away (placed_stored s p tree h)
        (load_single_predicate-keep_tree logger lib s p tree h.bytes unlogged h.file h.placed
          h.room)
  ready_for_insert-IsThere s p tree (inr (inr (inl (away, logged, inl (old, h, there))))) dirty =
      ready_for_insert-loaded s p tree _ there away (logged_stored s p logged)
        (load_single_predicate-recovered s p old h there.next logged there.result)
  ready_for_insert-IsThere s p tree (inr (inr (inl (away, logged, inr (absent, there))))) dirty =
      ready_for_insert-loaded s p tree _ there away (logged_stored s p logged)
        (load_single_predicate-logged s there.next p logged absent there.result)
  ready_for_insert-IsThere s p tree (inr (inr (inr (away, absent, new)))) dirty = record {
    next = add_predicate logger lib p s;
    result = rw (away, absent) refl;
    tree_there =
        unfold add_predicate in
        rw new (find-assign_self s.predicates p (some (new_k2tree logger lib s.k2tree_config)));
    dirty = unfold add_predicate in has_key-insert_key s.dirty_predicates p;
    others = λ j ne. unfold add_predicate in find-assign_ne s.predicates p j _ ne;
  }

  -- If the predicate, once it is marked, has its tree in memory; or else in the index file, where it
  -- fits in the memory of its record, with nothing in the log; or is in the log, from which the logger
  -- recovers the tree on that of the index file, if there is one, and leaves the marks and the other
  -- trees in memory; or is new and has an empty tree: then `insert_point` succeeds, that tree with the
  -- point inserted is in memory, the predicate is marked to be written, and the tree in memory of any
  -- other predicate is as it was.
  pub insert_point-inserts :
      (s : PredicatesIndexCache L) (subject p object other : ℕ) (tree : K2TreeMixed)
      → Gives (mark_dirty p s) p tree
      → other ≢ p
      → (t : PredicatesIndexCache L) × (insert_point logger lib subject p object s ≡ ok t)
        × (find_value t.predicates p ≡ some (some (lib.insert tree subject object)))
        × (has_key t.dirty_predicates p ≡ true)
        × (find_value t.predicates other ≡ find_value s.predicates other)
  unfolding insert_point pointer_at
  insert_point-inserts s subject p object other tree h ne =
      let there =
        ready_for_insert-IsThere (mark_dirty p s) p tree h
          (unfold mark_dirty in has_key-insert_key s.dirty_predicates p) in
      let next = there.next in
      let inserted = lib.insert tree subject object in
      (
        record next { predicates = assign next.predicates p (some inserted) },
        rw (there.result, there.tree_there) refl,
        find-assign_self next.predicates p (some inserted),
        there.dirty,
        find-assign_ne next.predicates p other (some inserted) ne
            ∙ there.others other ne
            ∙ unfold mark_dirty in refl,
      )
