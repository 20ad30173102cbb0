-- ===== src/Workers.antt =====
-- algorithms/ParallelWorker.hpp: a pool of workers that take tasks from a queue. The threads are
-- interleaved: an action is what one of them does between two points at which others can be seen. A
-- task is a number.
pub mod Tasks
pub mod Invariant
pub mod Completed
pub mod LostWakeup
pub mod Examples
use rdfcache_k.Prelude.{
  ℕ, zero, suc, ◌+◌, Bool, true, false, not, ◌&&◌, ◌||◌, if◌then◌else◌, Option, none, some, List,
  [], ◌∷◌, ◌++◌, get_elem?, set, replicate,
}

-- Where a worker is in `run`: in front of the test of the loop, in front of the lock, behind it, behind a
-- test of the waiting that has failed, waiting, behind the waiting, in a task, or at the end. From
-- `holding` to `checked` or `passed` it has the lock.
pub data Phase : Type 0 where
  idle ready holding checked asleep passed finished : Phase
  running : ℕ → Phase

pub record ParallelWorker : Type 0 where
  pub stopped : Bool
  pub phase : Phase

-- The thread that has the pool adds tasks, then stops the workers, and then waits for them.
pub data Caller : Type 0 where
  adding stopping joining : Caller

-- `notifications` are the calls of `notify_all` that are still to be made.
pub record ParallelWorkerPool : Type 0 where
  pub queue : List ℕ
  pub workers : List ParallelWorker
  pub caller : Caller
  pub notifications : ℕ
  pub added : List ℕ
  pub ran : List ℕ

unfoldable pub new_pool : ℕ → ParallelWorkerPool
new_pool workers_amount = record {
  queue = [];
  workers = replicate workers_amount (record { stopped = false; phase = Phase.idle });
  caller = Caller.adding;
  notifications = 0;
  added = [];
  ran = [];
}

unfoldable pub queue_is_empty : List ℕ → Bool
queue_is_empty [] = true
queue_is_empty (t ∷ ts) = false

unfoldable pub has_lock : Phase → Bool
has_lock Phase.holding = true
has_lock Phase.checked = true
has_lock Phase.passed = true
has_lock _ = false

unfoldable pub is_finished : Phase → Bool
is_finished Phase.finished = true
is_finished _ = false

unfoldable pub any_worker : (ParallelWorker → Bool) → List ParallelWorker → Bool
any_worker test [] = false
any_worker test (w ∷ ws) = test w || any_worker test ws

unfoldable pub all_workers : (ParallelWorker → Bool) → List ParallelWorker → Bool
all_workers test [] = true
all_workers test (w ∷ ws) = test w && all_workers test ws

unfoldable pub is_adding : Caller → Bool
is_adding Caller.adding = true
is_adding _ = false

unfoldable pub is_joining : Caller → Bool
is_joining Caller.joining = true
is_joining _ = false

-- The worker `i` goes to another phase.
unfoldable pub move : ℕ → ParallelWorker → Phase → ParallelWorkerPool → ParallelWorkerPool
move i w phase p = record p { workers = set p.workers i (record w { phase = phase }) }

-- The end of `run`, which notifies.
unfoldable pub leave : ℕ → ParallelWorker → ParallelWorkerPool → ParallelWorkerPool
leave i w p = record (move i w Phase.finished p) { notifications = p.notifications + 1 }

-- `queue.pop()`, or the start of another round if there is no task.
unfoldable pub take_task : List ℕ → ℕ → ParallelWorker → ParallelWorkerPool → ParallelWorkerPool
take_task [] i w p = move i w Phase.idle p
take_task (t ∷ ts) i w p = record (move i w (Phase.running t) p) {
  queue = ts;
  notifications = p.notifications + 1;
}

-- The next action of a worker in `run`, if it can act.
unfoldable pub run_on : Phase → ℕ → ParallelWorker → ParallelWorkerPool → Option ParallelWorkerPool
run_on Phase.idle i w p =
    if w.stopped && queue_is_empty p.queue
    then some (leave i w p)
    else some (move i w Phase.ready p)
run_on Phase.ready i w p =
    if any_worker (λ v. has_lock v.phase) p.workers then none else some (move i w Phase.holding p)
run_on Phase.holding i w p =
    if w.stopped || not (queue_is_empty p.queue)
    then some (move i w Phase.passed p)
    else some (move i w Phase.checked p)
run_on Phase.checked i w p = some (move i w Phase.asleep p)
run_on Phase.asleep i w p = none
run_on Phase.passed i w p =
    if w.stopped && queue_is_empty p.queue
    then some (leave i w p)
    else some (take_task p.queue i w p)
run_on (Phase.running t) i w p = some (record (move i w Phase.idle p) { ran = t ∷ p.ran })
run_on Phase.finished i w p = none

-- A worker that waits is woken; then it needs the lock again.
unfoldable pub wake : Phase → Phase
wake Phase.asleep = Phase.ready
wake phase = phase

unfoldable pub notify_all : List ParallelWorker → List ParallelWorker
notify_all [] = []
notify_all (w ∷ ws) = record w { phase = wake w.phase } ∷ notify_all ws

-- A worker that waits may also be woken without a notification.
pub data Action : Type 0 where
  add_task : ℕ → Action
  stop : ℕ → Action
  all_stopped notify : Action
  run : ℕ → Action
  wake_up : ℕ → Action

unfoldable pub is_wake_up : Action → Bool
is_wake_up (Action.wake_up i) = true
is_wake_up _ = false

unfoldable pub run_worker :
    Option ParallelWorker → ℕ → ParallelWorkerPool → Option ParallelWorkerPool
run_worker none i p = none
run_worker (some w) i p = run_on w.phase i w p

unfoldable pub stop_worker :
    Option ParallelWorker → ℕ → ParallelWorkerPool → Option ParallelWorkerPool
stop_worker none i p = none
stop_worker (some w) i p =
    some (record p {
      workers = set p.workers i (record w { stopped = true });
      caller = Caller.stopping;
    })

unfoldable pub wake_worker :
    Option ParallelWorker → ℕ → ParallelWorkerPool → Option ParallelWorkerPool
wake_worker none i p = none
wake_worker (some w) i p = some (move i w (wake w.phase) p)

unfoldable pub notify_next : ℕ → ParallelWorkerPool → Option ParallelWorkerPool
notify_next zero p = none
notify_next (suc n) p = some (record p { notifications = n; workers = notify_all p.workers })

-- What an action does, if it can be taken.
unfoldable pub act : Action → ParallelWorkerPool → Option ParallelWorkerPool
act (Action.add_task t) p =
    if is_adding p.caller
    then some (record p {
      queue = p.queue ++ t ∷ [];
      added = p.added ++ t ∷ [];
      notifications = p.notifications + 1;
    })
    else none
act (Action.stop i) p =
    if is_joining p.caller then none else stop_worker (get_elem? p.workers i) i p
act Action.all_stopped p =
    if not (is_joining p.caller) && all_workers (λ w. w.stopped) p.workers
    then some (record p { caller = Caller.joining; notifications = p.notifications + 1 })
    else none
act Action.notify p = notify_next p.notifications p
act (Action.run i) p = run_worker (get_elem? p.workers i) i p
act (Action.wake_up i) p = wake_worker (get_elem? p.workers i) i p

-- A sequence of actions, none of which is refused.
unfoldable pub act_all : List Action → ParallelWorkerPool → Option ParallelWorkerPool
act_all [] p = some p
act_all (a ∷ actions) p = elim (act a p) [ none ↦ none | some q ↦ act_all actions q ]
