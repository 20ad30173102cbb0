-- ===== src/Workers/Tasks.antt =====
-- algorithms/ParallelWorker.hpp: the tasks that the workers are in, and tests of all workers.
use rdfcache_k.Workers.{
  all_workers, notify_all, any_worker, is_finished, wake, ParallelWorker, Phase,
}
use rdfcache_k.Prelude.{
  ◌<◌, ℕ, zero, suc, ◌≡◌, ◌⊎◌, refl, sym, arith, ap, ◌∙◌, inl, inr, Bool, Bool-cases, true, some,
  List, [], ◌∷◌, ◌++◌, get_elem?, set, append_assoc, length, subst,
}
use mathlib.Core.Option.{none-ne-some, some-injective}
use mathlib.Core.List.{Permᴰ as Perm}
use mathlib.Core.List.Permᴰ as Perm

unfoldable pub tasks_of : Phase → List ℕ
tasks_of (Phase.running t) = t ∷ []
tasks_of _ = []

-- The tasks that are being run.
unfoldable pub in_progress : List ParallelWorker → List ℕ
in_progress [] = []
in_progress (w ∷ ws) = tasks_of w.phase ++ in_progress ws

pub tasks_of-wake : (phase : Phase) → tasks_of (wake phase) ≡ tasks_of phase
unfolding tasks_of wake
tasks_of-wake Phase.idle = refl
tasks_of-wake Phase.ready = refl
tasks_of-wake Phase.holding = refl
tasks_of-wake Phase.checked = refl
tasks_of-wake Phase.asleep = refl
tasks_of-wake Phase.passed = refl
tasks_of-wake Phase.finished = refl
tasks_of-wake (Phase.running t) = refl

pub is_finished-wake : (phase : Phase) → is_finished (wake phase) ≡ is_finished phase
unfolding is_finished wake
is_finished-wake Phase.idle = refl
is_finished-wake Phase.ready = refl
is_finished-wake Phase.holding = refl
is_finished-wake Phase.checked = refl
is_finished-wake Phase.asleep = refl
is_finished-wake Phase.passed = refl
is_finished-wake Phase.finished = refl
is_finished-wake (Phase.running t) = refl

tasks_of-finished : (phase : Phase) → is_finished phase ≡ true → tasks_of phase ≡ []
unfolding tasks_of is_finished
tasks_of-finished Phase.idle e = refl
tasks_of-finished Phase.ready e = refl
tasks_of-finished Phase.holding e = refl
tasks_of-finished Phase.checked e = refl
tasks_of-finished Phase.asleep e = refl
tasks_of-finished Phase.passed e = refl
tasks_of-finished Phase.finished e = refl
tasks_of-finished (Phase.running t) e = absurd (ground (arith, e))

swap_front : (xs ys zs : List ℕ) → Perm (xs ++ (ys ++ zs)) (ys ++ (xs ++ zs))
swap_front xs ys zs =
    subst (λ ts. Perm ts (ys ++ (xs ++ zs))) (append_assoc xs ys zs)
      (subst (λ ts. Perm ((xs ++ ys) ++ zs) ts) (append_assoc ys xs zs)
        (Perm.append_right zs (Perm.append_comm xs ys)))

-- Another phase of a worker exchanges its tasks.
pub in_progress-set :
    (ws : List ParallelWorker) (i : ℕ) (w w' : ParallelWorker)
    → get_elem? ws i ≡ some w
    → Perm (tasks_of w'.phase ++ in_progress ws) (tasks_of w.phase ++ in_progress (set ws i w'))
unfolding in_progress
in_progress-set [] i w w' e = absurd (none-ne-some w e)
in_progress-set (v ∷ ws) zero w w' e =
    let same : v ≡ w = some-injective v w e in
    subst
      (λ (u : ParallelWorker).
        Perm (tasks_of w'.phase ++ (tasks_of v.phase ++ in_progress ws))
          (tasks_of u.phase ++ (tasks_of w'.phase ++ in_progress ws)))
      same (swap_front (tasks_of w'.phase) (tasks_of v.phase) (in_progress ws))
in_progress-set (v ∷ ws) (suc i) w w' e =
    Perm.trans (swap_front (tasks_of w'.phase) (tasks_of v.phase) (in_progress ws)) (
      Perm.trans (Perm.append_left (tasks_of v.phase) (in_progress-set ws i w w' e))
        (swap_front (tasks_of v.phase) (tasks_of w.phase) (in_progress (set ws i w'))))

pub any_worker-set :
    (test : ParallelWorker → Bool) (ws : List ParallelWorker) (i : ℕ) (w' : ParallelWorker)
    → any_worker test (set ws i w') ≡ true
    → (test w' ≡ true) ⊎ (any_worker test ws ≡ true)
unfolding any_worker
any_worker-set test [] i w' e = inr e
any_worker-set test (v ∷ ws) zero w' e = elim (Bool-cases (test w')) [
  | inl t ↦ inl t
  | inr f ↦ inr (ground (arith, e, f))
]
any_worker-set test (v ∷ ws) (suc i) w' e = elim (Bool-cases (test v)) [
  | inl t ↦ inr (rw t refl)
  | inr f ↦ elim (any_worker-set test ws i w' (ground (arith, e, f))) [
    | inl t ↦ inl t
    | inr t ↦ inr (ground (arith, t))
  ]
]

pub any_worker-found :
    (test : ParallelWorker → Bool) (ws : List ParallelWorker) (i : ℕ) (w : ParallelWorker)
    → get_elem? ws i ≡ some w
    → test w ≡ true
    → any_worker test ws ≡ true
unfolding any_worker
any_worker-found test [] i w e t = absurd (none-ne-some w e)
any_worker-found test (v ∷ ws) zero w e t =
    let holds : test v ≡ true = ap test (some-injective v w e) ∙ t in rw holds refl
any_worker-found test (v ∷ ws) (suc i) w e t = elim (Bool-cases (test v)) [
  | inl s ↦ rw s refl
  | inr s ↦ rw (s, any_worker-found test ws i w e t) refl
]

-- To wake the workers ends and stops no task, and stops and finishes none of them.
pub in_progress-notify_all :
    (ws : List ParallelWorker) → in_progress (notify_all ws) ≡ in_progress ws
unfolding in_progress notify_all
in_progress-notify_all [] = refl
in_progress-notify_all (w ∷ ws) = rw (tasks_of-wake w.phase, in_progress-notify_all ws) refl

pub any_worker-notify_all :
    (test : ParallelWorker → Bool) (ws : List ParallelWorker)
    → ((w : ParallelWorker) → test (record w { phase = wake w.phase }) ≡ test w)
    → any_worker test (notify_all ws) ≡ any_worker test ws
unfolding any_worker notify_all
any_worker-notify_all test [] h = refl
any_worker-notify_all test (w ∷ ws) h = rw (h w, any_worker-notify_all test ws h) refl

pub length-notify_all : (ws : List ParallelWorker) → length (notify_all ws) ≡ length ws
unfolding notify_all
length-notify_all [] = refl
length-notify_all (w ∷ ws) = ap suc (length-notify_all ws)

-- If all workers have finished, none is in a task, and one of them has finished if there is any.
pub each_finished :
    (ws : List ParallelWorker)
    → all_workers (λ w. is_finished w.phase) ws ≡ true
    → in_progress ws ≡ []
unfolding in_progress all_workers
each_finished [] e = refl
each_finished (w ∷ ws) e =
    rw (tasks_of-finished w.phase (ground (arith, e)), each_finished ws (ground (arith, e))) refl

pub some_finished :
    (ws : List ParallelWorker)
    → all_workers (λ w. is_finished w.phase) ws ≡ true
    → 0 < length ws
    → any_worker (λ w. is_finished w.phase) ws ≡ true
unfolding any_worker all_workers
some_finished [] e h = absurd (omega arith)
some_finished (w ∷ ws) e h = ground (arith, e)

-- A worker that stays in its task, if it is in one.
pub in_progress-set_same :
    (ws : List ParallelWorker) (i : ℕ) (w w' : ParallelWorker)
    → get_elem? ws i ≡ some w
    → tasks_of w'.phase ≡ tasks_of w.phase
    → in_progress ws ≡ in_progress (set ws i w')
unfolding in_progress
in_progress-set_same [] i w w' e same = refl
in_progress-set_same (v ∷ ws) zero w w' e same =
    let tasks : tasks_of v.phase ≡ tasks_of w'.phase =
      ap (λ (u : ParallelWorker). tasks_of u.phase) (some-injective v w e) ∙ sym same in
    ap (λ ts. ts ++ in_progress ws) tasks
in_progress-set_same (v ∷ ws) (suc i) w w' e same =
    ap (◌++◌ (tasks_of v.phase)) (in_progress-set_same ws i w w' e same)

-- A new task goes behind those that wait.
pub added-Perm :
    (added queue rest : List ℕ) (t : ℕ)
    → Perm added (queue ++ rest)
    → Perm (added ++ t ∷ []) ((queue ++ t ∷ []) ++ rest)
added-Perm added queue rest t h =
    subst (Perm (added ++ t ∷ [])) (sym (append_assoc queue (t ∷ []) rest)) (
      Perm.trans (Perm.append_comm added (t ∷ []))
        (Perm.trans (Perm.cons refl h) (Perm.symm (Perm.middle t queue rest))))
