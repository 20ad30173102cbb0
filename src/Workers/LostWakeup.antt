-- ===== src/Workers/LostWakeup.antt =====
-- algorithms/ParallelWorker.hpp: a notification between the test of a worker and its waiting.
use rdfcache_k.Workers.{
  has_lock, all_workers, any_worker, queue_is_empty, wake, new_pool, notify_all, notify_next,
  stop_worker, is_joining, move, is_adding, run_on, Caller, is_wake_up, run_worker, Phase, act,
  act_all, ParallelWorkerPool, Action,
}
use rdfcache_k.Prelude.{zero, suc, ◌≡◌, refl, arith, true, false, none, some, List, [], ◌∷◌}

-- The worker tests that it has to wait, then it is stopped and the notification is made, and then it
-- waits. Neither `stop_all_workers` nor `add_task` takes the lock that the worker has.
abbrev pub lost_run : List Action
lost_run =
    Action.run 0
    ∷ Action.run 0
    ∷ Action.run 0
    ∷ Action.stop 0
    ∷ Action.all_stopped
    ∷ Action.notify
    ∷ Action.run 0
    ∷ []

abbrev pub lost_pool : ParallelWorkerPool
lost_pool = record {
  queue = [];
  workers = record { stopped = true; phase = Phase.asleep } ∷ [];
  caller = Caller.joining;
  notifications = 0;
  added = [];
  ran = [];
}

lost_run-lost_pool : act_all lost_run (new_pool 1) ≡ some lost_pool
unfolding act_all act run_worker run_on move stop_worker notify_next notify_all wake queue_is_empty
    any_worker all_workers has_lock is_joining new_pool
lost_run-lost_pool = refl

-- There is an interleaving of a pool with one worker after which its worker waits although it is
-- stopped, while the caller waits for it, and every action is refused but a wakeup for no reason.
pub act_all-loses_wakeup :
    (a : Action)
    → is_wake_up a ≡ false
    → (act_all lost_run (new_pool 1) ≡ some lost_pool) × (act a lost_pool ≡ none)
unfolding act is_wake_up is_adding is_joining run_worker run_on notify_next
act_all-loses_wakeup (Action.add_task t) e = (lost_run-lost_pool, refl)
act_all-loses_wakeup (Action.stop i) e = (lost_run-lost_pool, refl)
act_all-loses_wakeup Action.all_stopped e = (lost_run-lost_pool, refl)
act_all-loses_wakeup Action.notify e = (lost_run-lost_pool, refl)
act_all-loses_wakeup (Action.run zero) e = (lost_run-lost_pool, refl)
act_all-loses_wakeup (Action.run (suc i)) e = (lost_run-lost_pool, refl)
act_all-loses_wakeup (Action.wake_up i) e = absurd (ground (arith, e))
