-- ===== src/Workers/Examples.antt =====
-- Tests of the pool of workers.
use rdfcache_k.Workers.LostWakeup.{act_all-loses_wakeup, lost_pool, lost_run}
use rdfcache_k.Workers.Completed.{act_all-runs_tasks}
use rdfcache_k.Workers.{
  is_adding, is_joining, has_lock, any_worker, queue_is_empty, wake, notify_all, notify_next,
  stop_worker, take_task, is_wake_up, leave, move, run_on, new_pool, is_finished, run_worker,
  Caller, all_workers, act, Phase, act_all, ParallelWorkerPool, Action,
}
use rdfcache_k.Prelude.{◌≡◌, refl, arith, true, none, some, List, [], ◌∷◌}
use mathlib.Core.List.{Permᴰ as Perm}

-- Two tasks are added; the second worker takes the first of them while the first worker takes the other.
abbrev two_tasks : List Action
two_tasks =
    Action.add_task 5
    ∷ Action.notify
    ∷ Action.run 1
    ∷ Action.run 1
    ∷ Action.run 1
    ∷ Action.run 1
    ∷ Action.add_task 8
    ∷ Action.run 0
    ∷ Action.run 0
    ∷ Action.run 0
    ∷ Action.run 0
    ∷ Action.run 0
    ∷ Action.stop 0
    ∷ Action.stop 1
    ∷ Action.all_stopped
    ∷ Action.run 1
    ∷ Action.run 1
    ∷ Action.run 0
    ∷ []

abbrev after_two_tasks : ParallelWorkerPool
after_two_tasks = record {
  queue = [];
  workers =
      record { stopped = true; phase = Phase.finished }
      ∷ record { stopped = true; phase = Phase.finished }
      ∷ [];
  caller = Caller.joining;
  notifications = 6;
  added = 5 ∷ 8 ∷ [];
  ran = 5 ∷ 8 ∷ [];
}

two_tasks_run : act_all two_tasks (new_pool 2) ≡ some after_two_tasks
unfolding act_all act run_worker run_on move leave take_task stop_worker notify_next notify_all wake
    queue_is_empty any_worker all_workers has_lock is_joining is_adding new_pool
two_tasks_run = refl

act_all-runs_tasks_example : Perm after_two_tasks.added after_two_tasks.ran
act_all-runs_tasks_example =
    act_all-runs_tasks 2 two_tasks after_two_tasks (omega arith) two_tasks_run
      (unfold all_workers in unfold is_finished in refl)

act_all-loses_wakeup_example :
    (act_all lost_run (new_pool 1) ≡ some lost_pool) × (act Action.notify lost_pool ≡ none)
act_all-loses_wakeup_example = act_all-loses_wakeup Action.notify (unfold is_wake_up in refl)
