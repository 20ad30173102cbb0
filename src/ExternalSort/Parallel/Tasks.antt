-- ===== src/ExternalSort/Parallel/Tasks.antt =====
-- algorithms/triple_external_sort.hpp: the tasks of the pool sort all segments, in whatever order they are
-- run.
use rdfcache_k.Prelude.{
  ℕ, zero, suc, ◌+◌, ◌-◌, ◌<◌, ◌≡◌, refl, sym, arith, ap, ◌∙◌, subst, List, [], ◌∷◌, ◌++◌,
  append_assoc, length, length-append, take-append, drop-append, map, Bool, true, false, Bool-cases,
  inl, inr, Option, some, none, Result, ok, err, diverges,
}
use mathlib.Core.List.{Permᴰ as Perm}
use rdfcache_k.Workers.{
  is_joining, Action, ParallelWorkerPool, act_all, new_pool, all_workers, is_finished,
}
use rdfcache_k.Workers.Completed.{act_all-runs_tasks}
use rdfcache_k.ExternalSort.Triples.{TripleValue}
use rdfcache_k.ExternalSort.Orders.{concat, length-Perm}
use rdfcache_k.ExternalSort.Library.{SortLibrary, IsSortLibrary}
use rdfcache_k.ExternalSort.Parallel.{sort_task, run_tasks, tasks_from, same_tasks, wait_workers}
use rdfcache_k.ExternalSort.Parallel.Bounds.{AscendsTo}
use rdfcache_k.ExternalSort.Parallel.Parts.{AreCut, cut, cut-AreCut, concat-cut, sort_range-part}

-- What a caller that goes on has of a pool.
same_tasks-same : (ts us : List ℕ) → same_tasks ts us ≡ true → ts ≡ us
unfolding same_tasks
same_tasks-same [] [] e = refl
same_tasks-same [] (u ∷ us) e = absurd (ground arith)
same_tasks-same (t ∷ ts) [] e = absurd (ground arith)
same_tasks-same (t ∷ ts) (u ∷ us) e =
    let first : t ≡ u = ground arith in
    let rest : same_tasks ts us ≡ true = ground arith in rw (first, same_tasks-same ts us rest) refl

ran_of : Result (List ℕ) → List ℕ
ran_of (ok ran) = ran
ran_of (err e) = []

returns : Result (List ℕ) → Bool
returns (ok ran) = true
returns (err e) = false

hung : {A : Type 0} (r : Result (List ℕ)) (ran : List ℕ) → r ≡ err diverges → r ≡ ok ran → A
unfolding returns
hung r ran e h = let no : false ≡ true = ap returns (sym e ∙ h) in absurd (ground arith)

waited-Perm :
    (n : ℕ) (actions : List Action) (o : Option ParallelWorkerPool) (tasks ran : List ℕ)
    → 0 < n
    → act_all actions (new_pool n) ≡ o
    → wait_workers o tasks ≡ ok ran
    → Perm tasks ran
unfolding wait_workers ran_of
waited-Perm n actions none tasks ran some_worker e h = hung (err diverges) ran refl h
waited-Perm n actions (some p) tasks ran some_worker e h =
    elim (Bool-cases (all_workers (λ w. is_finished w.phase) p.workers)) [
      | inl done ↦ elim (Bool-cases (same_tasks p.added tasks)) [
        | inl same ↦ elim (Bool-cases (is_joining p.caller)) [
          | inl joining ↦
              (let read : wait_workers (some p) tasks ≡ ok p.ran = rw (joining, done, same) refl in
                subst (λ ts. Perm ts ran) (same_tasks-same p.added tasks same)
                  (subst (Perm p.added) (ap ran_of (sym read ∙ h))
                    (act_all-runs_tasks n actions p some_worker e done)))
          | inr f ↦ hung (wait_workers (some p) tasks) ran (rw f refl) h
        ]
        | inr f ↦ hung (wait_workers (some p) tasks) ran (ground (arith, f)) h
      ]
      | inr f ↦ hung (wait_workers (some p) tasks) ran (ground (arith, f)) h
    ]

-- The tasks that were run are those that were added.
pub wait_workers-Perm :
    (n : ℕ) (actions : List Action) (tasks ran : List ℕ)
    → 0 < n
    → wait_workers (act_all actions (new_pool n)) tasks ≡ ok ran
    → Perm tasks ran
wait_workers-Perm n actions tasks ran some_worker h =
    waited-Perm n actions (act_all actions (new_pool n)) tasks ran some_worker refl h

length-AreCut :
    (a : ℕ) (bs : List ℕ) (segments : List (List TripleValue))
    → AreCut a bs segments
    → length segments ≡ length bs
unfolding AreCut
length-AreCut a [] segments c = ap length c
length-AreCut a (b ∷ bs) [] c = absurd c
length-AreCut a (b ∷ bs) (s ∷ segments) c = ap suc (length-AreCut b bs segments c.1)

module _ (less : TripleValue → TripleValue → Bool) (lib : SortLibrary)
    (promised : IsSortLibrary less lib) where
  -- One segment is sorted.
  sort_segment : ℕ → List (List TripleValue) → List (List TripleValue)
  sort_segment k [] = []
  sort_segment zero (s ∷ segments) = lib.sort s ∷ segments
  sort_segment (suc k) (s ∷ segments) = s ∷ sort_segment k segments

  sort_each : List ℕ → List (List TripleValue) → List (List TripleValue)
  sort_each [] segments = segments
  sort_each (k ∷ ks) segments = sort_segment k (sort_each ks segments)

  sort_task-segment :
      (a k : ℕ) (bs : List ℕ) (pre : List TripleValue) (segments : List (List TripleValue))
      → length pre ≡ a
      → AreCut a bs segments
      → sort_task lib a bs k (pre ++ concat segments) ≡ pre ++ concat (sort_segment k segments)
  unfolding sort_task AreCut concat sort_segment
  sort_task-segment a k [] pre [] e c = refl
  sort_task-segment a k [] pre (s ∷ segments) e c = absurd (omega (arith, ap length c))
  sort_task-segment a k (b ∷ bs) pre [] e c = absurd c
  sort_task-segment a zero (b ∷ bs) pre (s ∷ segments) e c =
      let size : b - a ≡ length s = omega (arith, c.0) in
      sort_range-part less lib promised pre (s ++ concat segments) a b (omega (arith, c.0)) e
      ∙ rw
          (
            take-append s (concat segments) (b - a) size,
            drop-append s (concat segments) (b - a) size,
          )
          (append_assoc pre (lib.sort s) (concat segments))
  sort_task-segment a (suc k) (b ∷ bs) pre (s ∷ segments) e c =
      rw
        (
          ← append_assoc pre s (concat segments),
          ← append_assoc pre s (concat (sort_segment k segments)),
        )
        (sort_task-segment b k bs (pre ++ s) segments (omega (arith, c.0, length-append pre s)) c.1)

  AreCut-sort_segment :
      (a k : ℕ) (bs : List ℕ) (segments : List (List TripleValue))
      → AreCut a bs segments
      → AreCut a bs (sort_segment k segments)
  unfolding AreCut sort_segment
  AreCut-sort_segment a k bs [] c = c
  AreCut-sort_segment a k [] (s ∷ segments) c = absurd (omega (arith, ap length c))
  AreCut-sort_segment a zero (b ∷ bs) (s ∷ segments) c =
      (omega (arith, c.0, length-Perm (promised.sort-Perm s)), c.1)
  AreCut-sort_segment a (suc k) (b ∷ bs) (s ∷ segments) c =
      (c.0, AreCut-sort_segment b k bs segments c.1)

  AreCut-sort_each :
      (bs ks : List ℕ) (segments : List (List TripleValue))
      → AreCut 0 bs segments
      → AreCut 0 bs (sort_each ks segments)
  unfolding sort_each
  AreCut-sort_each bs [] segments c = c
  AreCut-sort_each bs (k ∷ ks) segments c =
      AreCut-sort_segment 0 k bs (sort_each ks segments) (AreCut-sort_each bs ks segments c)

  run_tasks-each :
      (bs ks : List ℕ) (segments : List (List TripleValue))
      → AreCut 0 bs segments
      → run_tasks lib bs ks (concat segments) ≡ concat (sort_each ks segments)
  unfolding run_tasks sort_each
  run_tasks-each bs [] segments c = refl
  run_tasks-each bs (k ∷ ks) segments c =
      ap (sort_task lib 0 bs k) (run_tasks-each bs ks segments c)
      ∙ sort_task-segment 0 k bs [] (sort_each ks segments) refl (AreCut-sort_each bs ks segments c)

  sort_segment_comm :
      (j k : ℕ) (segments : List (List TripleValue))
      → sort_segment j (sort_segment k segments) ≡ sort_segment k (sort_segment j segments)
  unfolding sort_segment
  sort_segment_comm j k [] = refl
  sort_segment_comm zero zero (s ∷ segments) = refl
  sort_segment_comm zero (suc k) (s ∷ segments) = refl
  sort_segment_comm (suc j) zero (s ∷ segments) = refl
  sort_segment_comm (suc j) (suc k) (s ∷ segments) = ap (◌∷◌ s) (sort_segment_comm j k segments)

  sort_each-Perm :
      (segments : List (List TripleValue)) {js ks : List ℕ}
      → Perm js ks
      → sort_each js segments ≡ sort_each ks segments
  unfolding sort_each
  sort_each-Perm segments Perm.nil = refl
  sort_each-Perm segments (Perm.cons e d) = rw (e, sort_each-Perm segments d) refl
  sort_each-Perm segments (Perm.swap e f) = rw (e, f) (sort_segment_comm _ _ _)
  sort_each-Perm segments (Perm.trans d e) = sort_each-Perm segments d ∙ sort_each-Perm segments e

  sort_each-behind :
      (i n : ℕ) (s : List TripleValue) (segments : List (List TripleValue))
      → sort_each (tasks_from (suc i) n) (s ∷ segments) ≡ s ∷ sort_each (tasks_from i n) segments
  unfolding sort_each tasks_from sort_segment
  sort_each-behind i zero s segments = refl
  sort_each-behind i (suc n) s segments = rw (sort_each-behind (suc i) n s segments) refl

  sort_each-all :
      (n : ℕ) (segments : List (List TripleValue))
      → length segments ≡ n
      → sort_each (tasks_from 0 n) segments ≡ map lib.sort segments
  unfolding sort_each tasks_from sort_segment
  sort_each-all zero [] e = refl
  sort_each-all zero (s ∷ segments) e = absurd (omega arith)
  sort_each-all (suc n) [] e = absurd (omega arith)
  sort_each-all (suc n) (s ∷ segments) e =
      rw (sort_each-behind 0 n s segments, sort_each-all n segments (omega arith)) refl

  -- If each of the tasks was run once, all segments are sorted.
  pub run_tasks-cut :
      (n : ℕ) (bs ran : List ℕ) (ts : List TripleValue)
      → AscendsTo 0 n bs
      → n ≡ 0 + length ts
      → Perm (tasks_from 0 (length bs)) ran
      → run_tasks lib bs ran ts ≡ concat (map lib.sort (cut 0 bs ts))
  run_tasks-cut n bs ran ts up e p =
      let segments = cut 0 bs ts in
      let c = cut-AreCut 0 n bs ts up e in
      ap (run_tasks lib bs ran) (sym (concat-cut 0 n bs ts up e))
      ∙ run_tasks-each bs ran segments c
      ∙ ap concat (
          sym (sort_each-Perm segments p)
          ∙ sort_each-all (length bs) segments (length-AreCut 0 bs segments c))
