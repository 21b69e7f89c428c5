-- ===== src/Scheduler/Blocks.antt =====
-- Sleeping, waiting and ending in kernel/kernel/scheduler.c keep the invariant of the lists.
use dfos.Base.{ℕ, ◌<◌, true, [], ◌∷◌, ◌++◌, length, ◌≡◌, refl}
use dfos.Scheduler.State.{
  Scheduler, Processor, sleeping_list, blocked_list, zombie_list, running, task_at, has_state,
  scheduler_current_cpu_state,
}
use dfos.Scheduler.Dispatch.{scheduler_on_yield}
use dfos.Scheduler.Waiting.{begin_sleep, begin_wait, begin_exit}
use dfos.Scheduler.Placed.{IsPlaced, Moves-IsPlaced}
use dfos.Scheduler.Plain.{Changed-by, join-Moves}
use dfos.Scheduler.Wakes.{current_cpu_state-IsOnline}
use dfos.Scheduler.Scheduled.{counted-IsYield, scheduler_schedule_cpu-IsYield}
use dfos.Scheduler.Running.{running_task}
use dfos.Scheduler.Yields.{IsYield}

-- From a state whose lists are right, a yield puts the task that runs, if one does, at the end of
-- the queue of its priority, runnable and with its registers saved, and then starts the first
-- task of the highest queue that is not empty, from that task's saved registers and with a new
-- time slice; every other task and queue, and the current task of every other processor, stay as
-- they were, and a current task that does not run only has its registers saved. It panics only if
-- the processor has no running task and all its queues are empty.
pub scheduler_on_yield-IsYield :
    (p : Processor) (frame : ℕ) (s : Scheduler)
    → IsPlaced s
    → IsYield (scheduler_current_cpu_state p s) frame s (scheduler_on_yield p frame s)
unfolding scheduler_on_yield scheduler_current_cpu_state
scheduler_on_yield-IsYield p frame s v =
    counted-IsYield _ frame s _ _
      (scheduler_schedule_cpu-IsYield p _ frame _ v (current_cpu_state-IsOnline p s v))

-- A task that runs goes on a list.
module _ (s : Scheduler) (v : IsPlaced s) (t : ℕ)
    (runs : has_state (task_at s t) running ≡ true) where
  known : t < length s.tasks
  known = running_task s.tasks t runs

  pub begin_sleep-IsPlaced : (ticks : ℕ) → IsPlaced (begin_sleep ticks t s)
  unfolding begin_sleep
  begin_sleep-IsPlaced ticks = Moves-IsPlaced s (begin_sleep ticks t s) t v (
      join-Moves s (begin_sleep ticks t s) v t known _
        (record { table = refl; processors = refl; counts = (refl, refl) }) sleeping_list refl
        ((v.ready t).1 runs) refl refl
        (Changed-by s (begin_sleep ticks t s) sleeping_list (s.sleeping_tasks ++ (t ∷ [])) refl refl
          refl refl refl))

  pub begin_wait-IsPlaced :
      (wait_channel timeout_ticks : ℕ) → IsPlaced (begin_wait wait_channel timeout_ticks t s)
  unfolding begin_wait
  begin_wait-IsPlaced wait_channel timeout_ticks =
      Moves-IsPlaced s (begin_wait wait_channel timeout_ticks t s) t v (
        join-Moves s (begin_wait wait_channel timeout_ticks t s) v t known _
          (record { table = refl; processors = refl; counts = (refl, refl) }) blocked_list refl
          ((v.ready t).1 runs) refl refl
          (Changed-by s (begin_wait wait_channel timeout_ticks t s) blocked_list
            (s.blocked_tasks ++ (t ∷ [])) refl refl refl refl refl))

  pub begin_exit-IsPlaced : IsPlaced (begin_exit t s)
  unfolding begin_exit
  begin_exit-IsPlaced = Moves-IsPlaced s (begin_exit t s) t v (
      join-Moves s (begin_exit t s) v t known _
        (record { table = refl; processors = refl; counts = (refl, refl) }) zombie_list refl
        ((v.ready t).1 runs) refl refl
        (Changed-by s (begin_exit t s) zombie_list (s.zombie_tasks ++ (t ∷ [])) refl refl refl refl
          refl))
