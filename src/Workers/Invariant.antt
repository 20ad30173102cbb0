-- ===== src/Workers/Invariant.antt =====
-- algorithms/ParallelWorker.hpp: no task is lost and none is run twice.
use rdfcache_k.Workers.Tasks.{
  in_progress-set, tasks_of, any_worker-found, any_worker-set, in_progress,
}
use rdfcache_k.Workers.{
  is_adding, is_finished, leave, take_task, move, Phase, any_worker, queue_is_empty, ParallelWorker,
  ParallelWorkerPool,
}
use rdfcache_k.Prelude.{
  ℕ, ◌≡◌, ◌+◌, ◌⊎◌, refl, sym, arith, ap, ◌∙◌, inl, inr, Bool, Bool-cases, true, false, ◌&&◌, some,
  List, [], ◌∷◌, ◌++◌, get_elem?, set, length-set, length, subst,
}
use mathlib.Core.List.{Permᴰ as Perm, cons≢nil}
use mathlib.Core.List.Permᴰ as Perm

-- Each task that was added waits, is being run, or was run. A worker has finished only when there was no
-- task and none could be added, and none is stopped while tasks are added.
pub record IsSound (n : ℕ) (p : ParallelWorkerPool) : Type 0 where
  pub count : length p.workers ≡ n
  pub tasks : Perm p.added (p.queue ++ (in_progress p.workers ++ p.ran))
  pub left :
      (any_worker (λ w. is_finished w.phase) p.workers ≡ false)
      ⊎ ((p.queue ≡ []) × (is_adding p.caller ≡ false))
  pub ended : (any_worker (λ w. w.stopped) p.workers ≡ false) ⊎ (is_adding p.caller ≡ false)

pub no_worker-set :
    (test : ParallelWorker → Bool) (ws : List ParallelWorker) (i : ℕ) (w' : ParallelWorker)
    → any_worker test ws ≡ false
    → test w' ≡ false
    → any_worker test (set ws i w') ≡ false
no_worker-set test ws i w' e f = elim (Bool-cases (any_worker test (set ws i w'))) [
  | inl t ↦ elim (any_worker-set test ws i w' t) [
    | inl u ↦ absurd (ground (arith, u, f))
    | inr u ↦ absurd (ground (arith, u, e))
  ]
  | inr t ↦ t
]

-- A worker that passes the test, where none does.
pub none_found :
    (test : ParallelWorker → Bool) (ws : List ParallelWorker) (i : ℕ) (w : ParallelWorker)
    → get_elem? ws i ≡ some w
    → any_worker test ws ≡ false
    → test w ≡ false
none_found test ws i w e f = elim (Bool-cases (test w)) [
  | inl t ↦ absurd (ground (arith, any_worker-found test ws i w e t, f))
  | inr t ↦ t
]

queue_is_empty-nil : (ts : List ℕ) → queue_is_empty ts ≡ true → ts ≡ []
unfolding queue_is_empty
queue_is_empty-nil [] e = refl
queue_is_empty-nil (t ∷ ts) e = absurd (ground (arith, e))

module _ (n : ℕ) (p : ParallelWorkerPool) (h : IsSound n p) (i : ℕ) (w : ParallelWorker)
    (there : get_elem? p.workers i ≡ some w) where
  ended-move :
      (phase : Phase)
      → (any_worker (λ w. w.stopped) (set p.workers i (record w { phase = phase })) ≡ false)
        ⊎ (is_adding p.caller ≡ false)
  ended-move phase = elim h.ended [
    | inl f ↦ inl (
        no_worker-set (λ w. w.stopped) p.workers i (record w { phase = phase }) f
          (none_found (λ w. w.stopped) p.workers i w there f))
    | inr e ↦ inr e
  ]

  -- A worker that goes on without taking or ending a task.
  pub move-IsSound :
      (phase : Phase) (k : ℕ)
      → tasks_of w.phase ≡ []
      → tasks_of phase ≡ []
      → (is_finished phase ≡ false) ⊎ ((p.queue ≡ []) × (is_adding p.caller ≡ false))
      → IsSound n (record (move i w phase p) { notifications = k })
  unfolding move
  move-IsSound phase k before after leaves =
      let w' : ParallelWorker = record w { phase = phase } in
      let same : Perm (in_progress p.workers) (in_progress (set p.workers i w')) =
        subst (λ ts. Perm (ts ++ in_progress p.workers) (in_progress (set p.workers i w'))) after
          (subst
            (λ ts.
              Perm (tasks_of phase ++ in_progress p.workers)
                (ts ++ in_progress (set p.workers i w')))
            before (in_progress-set p.workers i w w' there)) in
      record {
        count = length-set p.workers i w' ∙ h.count;
        tasks = Perm.trans h.tasks (Perm.append_left p.queue (Perm.append_right p.ran same));
        left = elim leaves [
          | inl f ↦ elim h.left [
            | inl g ↦ inl (no_worker-set (λ w. is_finished w.phase) p.workers i w' g f)
            | inr g ↦ inr g
          ]
          | inr g ↦ inr g
        ];
        ended = ended-move phase;
      }

  pub take_task-IsSound :
      (queue : List ℕ) → p.queue ≡ queue → tasks_of w.phase ≡ [] → IsSound n (take_task queue i w p)
  unfolding take_task move tasks_of is_finished
  take_task-IsSound [] e before = move-IsSound Phase.idle p.notifications before refl (inl refl)
  take_task-IsSound (t ∷ ts) e before =
      let w' : ParallelWorker = record w { phase = Phase.running t } in
      let taken : Perm (t ∷ in_progress p.workers) (in_progress (set p.workers i w')) =
        subst (λ us. Perm (t ∷ in_progress p.workers) (us ++ in_progress (set p.workers i w')))
          before (in_progress-set p.workers i w w' there) in
      let tasks : Perm p.added ((t ∷ ts) ++ (in_progress p.workers ++ p.ran)) =
        subst (λ q. Perm p.added (q ++ (in_progress p.workers ++ p.ran))) e h.tasks in
      record {
        count = length-set p.workers i w' ∙ h.count;
        tasks = Perm.trans tasks (
            Perm.trans (Perm.symm (Perm.middle t ts (in_progress p.workers ++ p.ran)))
              (Perm.append_left ts (Perm.append_right p.ran taken)));
        left = elim h.left [
          | inl f ↦ inl (no_worker-set (λ w. is_finished w.phase) p.workers i w' f refl)
          | inr (none_left, _) ↦ absurd (cons≢nil (sym e ∙ none_left))
        ];
        ended = ended-move (Phase.running t);
      }

  pub run-IsSound :
      (t : ℕ)
      → w.phase ≡ Phase.running t
      → IsSound n (record (move i w Phase.idle p) { ran = t ∷ p.ran })
  unfolding move tasks_of is_finished
  run-IsSound t e =
      let w' : ParallelWorker = record w { phase = Phase.idle } in
      let task : tasks_of w.phase ≡ t ∷ [] = ap tasks_of e in
      let done : Perm (in_progress p.workers) (t ∷ in_progress (set p.workers i w')) =
        subst (λ us. Perm (in_progress p.workers) (us ++ in_progress (set p.workers i w'))) task
          (in_progress-set p.workers i w w' there) in
      record {
        count = length-set p.workers i w' ∙ h.count;
        tasks = Perm.trans h.tasks (
            Perm.append_left p.queue (
              Perm.trans (Perm.append_right p.ran done)
                (Perm.symm (Perm.middle t (in_progress (set p.workers i w')) p.ran))));
        left = elim h.left [
          | inl f ↦ inl (no_worker-set (λ w. is_finished w.phase) p.workers i w' f refl)
          | inr g ↦ inr g
        ];
        ended = ended-move Phase.idle;
      }

  -- A worker that leaves is stopped, and there is no task.
  pub leave-IsSound :
      tasks_of w.phase ≡ [] → w.stopped && queue_is_empty p.queue ≡ true → IsSound n (leave i w p)
  unfolding leave tasks_of
  leave-IsSound before e =
      let stopped : w.stopped ≡ true = ground (arith, e) in
      let none_left : p.queue ≡ [] = queue_is_empty-nil p.queue (ground (arith, e)) in
      let not_adding : is_adding p.caller ≡ false = elim h.ended [
        | inl f ↦
            absurd
              (ground (arith, any_worker-found (λ w. w.stopped) p.workers i w there stopped, f))
        | inr g ↦ g
      ] in
      move-IsSound Phase.finished (p.notifications + 1) before refl (inr (none_left, not_adding))
