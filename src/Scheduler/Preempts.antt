-- ===== src/Scheduler/Preempts.antt =====
-- When the timer interrupt of kernel/kernel/scheduler.c takes a processor from the task that runs.
use dfos.Base.{
  ℕ, zero, suc, ◌+◌, ◌≤◌, ◌<◌, true, false, [], List, ◌∷◌, ltb, length, Option, some, ◌≡◌, ◌≢◌, ◌⊎◌,
  refl, sym, subst, arith,
}
use native.Mathlib.Decide.{ℕ_discrete}
use dfos.Base.Words.{add32}
use dfos.Scheduler.State.{
  Scheduler, Cpu, running, task_at, cpu_at, queue_at, put_task, has_state,
  scheduler_priority_timeslice, scheduler_priority_sanitize,
}
use dfos.Scheduler.Queues.{any_queued}
use dfos.Scheduler.Dispatch.{is_running}
use dfos.Scheduler.Placed.{IsPlaced}
use dfos.Scheduler.Yields.{IsYield}

-- The state with one more tick in the time slice of the task.
abbrev pub ticked : ℕ → Scheduler → Scheduler
ticked t s =
    put_task s t (record (task_at s t) { ticks_in_slice = add32 (task_at s t).ticks_in_slice 1 })

-- A queue before that of the task has a task.
abbrev pub Higher : ℕ → ℕ → Scheduler → Type 0
Higher c t s =
    (q : ℕ) × (q < scheduler_priority_sanitize (task_at s t).priority)
    × (queue_at (cpu_at s c) q ≢ [])

-- The task goes on from its registers; nothing but its ticks and its registers changed.
pub record GoesOn (t frame : ℕ) (s s' : Scheduler) : Type 0 where
  pub placed : IsPlaced s'
  pub task : task_at s' t ≡ record (task_at s t) {
    ticks_in_slice = add32 (task_at s t).ticks_in_slice 1;
    frame = frame;
  }
  pub others : (u : ℕ) → t ≢ u → task_at s' u ≡ task_at s u
  pub cpus : s'.cpus ≡ s.cpus

abbrev pub returns : ℕ → Scheduler → Option (ℕ × Scheduler)
returns frame s = some (frame, s)

-- A task that runs is preempted at the end of its time slice or for a higher queue, and goes on
-- otherwise. A processor without one looks for one.
pub record IsTick (c frame : ℕ) (s : Scheduler) (r : Option (ℕ × Scheduler)) : Type 0 where
  pub idle : is_running s (cpu_at s c).current ≡ false → IsYield c frame s r
  pub preempts :
      (t : ℕ)
      → (cpu_at s c).current ≡ some t
      → has_state (task_at s t) running ≡ true
      → scheduler_priority_timeslice (task_at s t).priority ≤ add32 (task_at s t).ticks_in_slice 1
        ⊎ Higher c t s
      → IsYield c frame (ticked t s) r
  pub goes_on :
      (t : ℕ)
      → (cpu_at s c).current ≡ some t
      → has_state (task_at s t) running ≡ true
      → add32 (task_at s t).ticks_in_slice 1 < scheduler_priority_timeslice (task_at s t).priority
      → ((q : ℕ)
          → q < scheduler_priority_sanitize (task_at s t).priority
          → queue_at (cpu_at s c) q ≡ [])
      → (s' : Scheduler) × (r ≡ returns frame s') × GoesOn t frame s s'

pub any_queued-none :
    (cpu : Cpu) (priority rounds : ℕ)
    → ((q : ℕ) → priority ≤ q → q < priority + rounds → queue_at cpu q ≡ [])
    → any_queued cpu priority rounds ≡ false
unfolding any_queued
any_queued-none cpu priority zero h = refl
any_queued-none cpu priority (suc rounds) h =
    rw (h priority (omega arith) (omega arith))
      (any_queued-none cpu (priority + 1) rounds (λ q lo hi. h q (omega arith) (omega arith)))

filled : (list : List ℕ) → list ≢ [] → ltb 0 (length list) ≡ true
filled [] n = absurd (n refl)
filled (t ∷ list) n = ground arith

pub any_queued-some :
    (cpu : Cpu) (priority rounds q : ℕ)
    → priority ≤ q
    → q < priority + rounds
    → queue_at cpu q ≢ []
    → any_queued cpu priority rounds ≡ true
unfolding any_queued
any_queued-some cpu priority zero q lo hi n = absurd (omega arith)
any_queued-some cpu priority (suc rounds) q lo hi n = elim (ℕ_discrete priority q) [
  | yes e ↦
      ground (arith, filled (queue_at cpu priority) (subst (λ w. queue_at cpu w ≢ []) (sym e) n))
  | no other ↦
      ground
        (arith, any_queued-some cpu (priority + 1) rounds q (omega (arith, other)) (omega arith) n)
]
