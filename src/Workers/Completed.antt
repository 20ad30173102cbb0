-- ===== src/Workers/Completed.antt =====
-- algorithms/ParallelWorker.hpp: every action keeps the invariant, and the tasks that were run at the end.
use rdfcache_k.Workers.Tasks.{
  is_finished-wake, each_finished, any_worker-notify_all, tasks_of-wake, some_finished, added-Perm,
  in_progress-notify_all, in_progress-set_same, length-notify_all, tasks_of, in_progress,
}
use rdfcache_k.Workers.Invariant.{
  run-IsSound, take_task-IsSound, none_found, move-IsSound, no_worker-set, leave-IsSound, IsSound,
}
use rdfcache_k.Workers.{
  has_lock, is_joining, wake, queue_is_empty, move, is_adding, is_finished, Phase, all_workers, act,
  notify_next, wake_worker, stop_worker, run_worker, run_on, ParallelWorker, new_pool, Action,
  any_worker, act_all, ParallelWorkerPool,
}
use rdfcache_k.Prelude.{
  ℕ, zero, suc, ◌≡◌, ◌<◌, refl, arith, ap, ◌∙◌, inl, inr, Bool, if_both, true, false, ◌||◌, ◌&&◌,
  not, Option, none, some, List, [], ◌∷◌, ◌++◌, get_elem?, length-set, replicate, length-replicate,
  append-nil, subst,
}
use mathlib.Core.Option.{none-ne-some, some-injective}
use mathlib.Core.List.{Permᴰ as Perm}

-- If there is a next state, it is sound.
unfoldable Keeps : ℕ → Option ParallelWorkerPool → Type 0
Keeps n none = Unit {0}
Keeps n (some p) = IsSound n p

none_running :
    (n : ℕ) → in_progress (replicate n (record { stopped = false; phase = Phase.idle })) ≡ []
unfolding in_progress tasks_of
none_running zero = refl
none_running (suc n) = none_running n

none_start :
    (test : ParallelWorker → Bool) (n : ℕ)
    → test (record { stopped = false; phase = Phase.idle }) ≡ false
    → any_worker test (replicate n (record { stopped = false; phase = Phase.idle })) ≡ false
unfolding any_worker
none_start test zero e = refl
none_start test (suc n) e = rw (e, none_start test n e) refl

module _ (n : ℕ) (p : ParallelWorkerPool) (h : IsSound n p) where
  run_on-Keeps :
      (i : ℕ) (w : ParallelWorker) (phase : Phase)
      → get_elem? p.workers i ≡ some w
      → w.phase ≡ phase
      → Keeps n (run_on phase i w p)
  unfolding run_on Keeps tasks_of is_finished move
  run_on-Keeps i w Phase.idle there e =
      if_both (Keeps n) (w.stopped && queue_is_empty p.queue) _ _
        (λ t. leave-IsSound n p h i w there (ap tasks_of e) t)
        (λ f.
          move-IsSound n p h i w there Phase.ready p.notifications (ap tasks_of e) refl (inl refl))
  run_on-Keeps i w Phase.ready there e =
      if_both (Keeps n) (any_worker (λ v. has_lock v.phase) p.workers) _ _ (λ t. tt)
        (λ f.
          move-IsSound n p h i w there Phase.holding p.notifications (ap tasks_of e) refl
            (inl refl))
  run_on-Keeps i w Phase.holding there e =
      if_both (Keeps n) (w.stopped || not (queue_is_empty p.queue)) _ _
        (λ t.
          move-IsSound n p h i w there Phase.passed p.notifications (ap tasks_of e) refl (inl refl))
        (λ f.
          move-IsSound n p h i w there Phase.checked p.notifications (ap tasks_of e) refl
            (inl refl))
  run_on-Keeps i w Phase.checked there e =
      move-IsSound n p h i w there Phase.asleep p.notifications (ap tasks_of e) refl (inl refl)
  run_on-Keeps i w Phase.asleep there e = tt
  run_on-Keeps i w Phase.passed there e =
      if_both (Keeps n) (w.stopped && queue_is_empty p.queue) _ _
        (λ t. leave-IsSound n p h i w there (ap tasks_of e) t)
        (λ f. take_task-IsSound n p h i w there p.queue refl (ap tasks_of e))
  run_on-Keeps i w (Phase.running t) there e = run-IsSound n p h i w there t e
  run_on-Keeps i w Phase.finished there e = tt

  run_worker-Keeps :
      (i : ℕ) (o : Option ParallelWorker) → get_elem? p.workers i ≡ o → Keeps n (run_worker o i p)
  unfolding run_worker Keeps
  run_worker-Keeps i none there = tt
  run_worker-Keeps i (some w) there = run_on-Keeps i w w.phase there refl

  stop_worker-Keeps :
      (i : ℕ) (o : Option ParallelWorker) → get_elem? p.workers i ≡ o → Keeps n (stop_worker o i p)
  unfolding stop_worker Keeps is_adding
  stop_worker-Keeps i none there = tt
  stop_worker-Keeps i (some w) there =
      let w' : ParallelWorker = record w { stopped = true } in
      let same = in_progress-set_same p.workers i w w' there refl in
      record {
        count = length-set p.workers i w' ∙ h.count;
        tasks = subst (λ ts. Perm p.added (p.queue ++ (ts ++ p.ran))) same h.tasks;
        left = elim h.left [
          | inl f ↦ inl (
              no_worker-set (λ w. is_finished w.phase) p.workers i w' f
                (none_found (λ w. is_finished w.phase) p.workers i w there f))
          | inr (none_left, _) ↦ inr (none_left, refl)
        ];
        ended = inr refl;
      }

  wake_worker-Keeps :
      (i : ℕ) (o : Option ParallelWorker) → get_elem? p.workers i ≡ o → Keeps n (wake_worker o i p)
  unfolding wake_worker Keeps move
  wake_worker-Keeps i none there = tt
  wake_worker-Keeps i (some w) there =
      let w' : ParallelWorker = record w { phase = wake w.phase } in
      let same = in_progress-set_same p.workers i w w' there (tasks_of-wake w.phase) in
      record {
        count = length-set p.workers i w' ∙ h.count;
        tasks = subst (λ ts. Perm p.added (p.queue ++ (ts ++ p.ran))) same h.tasks;
        left = elim h.left [
          | inl f ↦ inl (
              no_worker-set (λ w. is_finished w.phase) p.workers i w' f
                (is_finished-wake w.phase
                  ∙ none_found (λ w. is_finished w.phase) p.workers i w there f))
          | inr g ↦ inr g
        ];
        ended = elim h.ended [
          | inl f ↦ inl (
              no_worker-set (λ w. w.stopped) p.workers i w' f
                (none_found (λ w. w.stopped) p.workers i w there f))
          | inr g ↦ inr g
        ];
      }

  notify_next-Keeps : (k : ℕ) → Keeps n (notify_next k p)
  unfolding notify_next Keeps
  notify_next-Keeps zero = tt
  notify_next-Keeps (suc k) = record {
    count = length-notify_all p.workers ∙ h.count;
    tasks = rw (in_progress-notify_all p.workers) h.tasks;
    left =
        rw
          (any_worker-notify_all (λ w. is_finished w.phase) p.workers
            (λ w. is_finished-wake w.phase))
          h.left;
    ended = rw (any_worker-notify_all (λ w. w.stopped) p.workers (λ w. refl)) h.ended;
  }

  add_task-Keeps : (t : ℕ) → Keeps n (act (Action.add_task t) p)
  unfolding act Keeps
  add_task-Keeps t =
      if_both (Keeps n) (is_adding p.caller) _ _
        (λ adding. record {
          count = h.count;
          tasks = added-Perm p.added p.queue (in_progress p.workers ++ p.ran) t h.tasks;
          left = elim h.left [ inl f ↦ inl f | inr (_, f) ↦ absurd (ground (arith, adding, f)) ];
          ended = h.ended;
        })
        (λ f. tt)

  act-Keeps : (a : Action) → Keeps n (act a p)
  unfolding act Keeps is_adding
  act-Keeps (Action.add_task t) = add_task-Keeps t
  act-Keeps (Action.stop i) =
      if_both (Keeps n) (is_joining p.caller) _ _ (λ t. tt)
        (λ f. stop_worker-Keeps i (get_elem? p.workers i) refl)
  act-Keeps Action.all_stopped =
      if_both (Keeps n) (not (is_joining p.caller) && all_workers (λ w. w.stopped) p.workers) _ _
        (λ t. record {
          count = h.count;
          tasks = h.tasks;
          left = elim h.left [ inl f ↦ inl f | inr (none_left, _) ↦ inr (none_left, refl) ];
          ended = inr refl;
        })
        (λ f. tt)
  act-Keeps Action.notify = notify_next-Keeps p.notifications
  act-Keeps (Action.run i) = run_worker-Keeps i (get_elem? p.workers i) refl
  act-Keeps (Action.wake_up i) = wake_worker-Keeps i (get_elem? p.workers i) refl

act_then-Keeps :
    (n : ℕ) (o : Option ParallelWorkerPool) (actions : List Action)
    → Keeps n o
    → ((q : ParallelWorkerPool) → IsSound n q → Keeps n (act_all actions q))
    → Keeps n (elim o [ none ↦ none | some q ↦ act_all actions q ])
unfolding Keeps
act_then-Keeps n none actions k rest = tt
act_then-Keeps n (some q) actions k rest = rest q k

act_all-Keeps :
    (n : ℕ) (actions : List Action) (p : ParallelWorkerPool)
    → IsSound n p
    → Keeps n (act_all actions p)
unfolding act_all Keeps
act_all-Keeps n [] p h = h
act_all-Keeps n (a ∷ actions) p h =
    act_then-Keeps n (act a p) actions (act-Keeps n p h a) (act_all-Keeps n actions)

new_pool-IsSound : (n : ℕ) → IsSound n (new_pool n)
unfolding new_pool
new_pool-IsSound n =
    let start : ParallelWorker = record { stopped = false; phase = Phase.idle } in
    record {
      count = length-replicate n start;
      tasks = rw (none_running n, append-nil) Perm.nil;
      left = inl (none_start (λ w. is_finished w.phase) n (unfold is_finished in refl));
      ended = inl (none_start (λ w. w.stopped) n refl);
    }

reached :
    (n : ℕ) (o : Option ParallelWorkerPool) (p : ParallelWorkerPool)
    → o ≡ some p
    → Keeps n o
    → IsSound n p
unfolding Keeps
reached n none p e k = absurd (none-ne-some p e)
reached n (some q) p e k = subst (IsSound n) (some-injective q p e) k

-- However the threads of a pool are interleaved, the tasks that were added are those that wait, those
-- that are being run and those that were run, each of them once.
pub act_all-keeps_tasks :
    (n : ℕ) (actions : List Action) (p : ParallelWorkerPool)
    → act_all actions (new_pool n) ≡ some p
    → Perm p.added (p.queue ++ (in_progress p.workers ++ p.ran))
act_all-keeps_tasks n actions p e =
    (reached n (act_all actions (new_pool n)) p e
      (act_all-Keeps n actions (new_pool n) (new_pool-IsSound n))).tasks

-- Once all workers of a pool with at least one worker have finished, every task that was added was run
-- once, however the threads are interleaved.
pub act_all-runs_tasks :
    (n : ℕ) (actions : List Action) (p : ParallelWorkerPool)
    → 0 < n
    → act_all actions (new_pool n) ≡ some p
    → all_workers (λ w. is_finished w.phase) p.workers ≡ true
    → Perm p.added p.ran
act_all-runs_tasks n actions p some_worker e done =
    let h =
      reached n (act_all actions (new_pool n)) p e
        (act_all-Keeps n actions (new_pool n) (new_pool-IsSound n)) in
    let some_done = some_finished p.workers done (omega (arith, h.count)) in
    let none_left : p.queue ≡ [] = elim h.left [
      | inl f ↦ absurd (ground (arith, some_done, f))
      | inr (none_left, _) ↦ none_left
    ] in
    subst (λ q. Perm p.added (q ++ p.ran)) none_left
      (subst (λ ts. Perm p.added (p.queue ++ (ts ++ p.ran))) (each_finished p.workers done) h.tasks)
