-- ===== src/Scheduler/Yields.antt =====
-- What a processor that gives up its task in kernel/kernel/scheduler.c does: the task it ran waits
-- for its turn and the next one starts.
use dfos.Base.{ℕ, ◌<◌, true, false, [], ◌∷◌, ◌++◌, Option, none, some, length, ◌≡◌, ◌≢◌, ◌⊎◌}
use dfos.Scheduler.State.{
  Scheduler, runnable, runnable_list, running, task_at, cpu_at, queue_at, has_state,
  scheduler_priority_sanitize,
}
use dfos.Scheduler.Dispatch.{is_running, current_priority}
use dfos.Scheduler.Placed.{IsPlaced}

-- The task waits behind those of its priority, with its registers saved.
pub record Waits (c t frame : ℕ) (s s' : Scheduler) : Type 0 where
  pub state : (task_at s' t).state ≡ runnable
  pub kind : (task_at s' t).list_kind ≡ runnable_list
  pub registers : (task_at s' t).frame ≡ frame
  pub last :
      queue_at (cpu_at s' c) (scheduler_priority_sanitize (task_at s t).priority)
      ≡ queue_at (cpu_at s c) (scheduler_priority_sanitize (task_at s t).priority) ++ (t ∷ [])

-- The current task of processor `c` is off it. If it ran, it waits; a task that does not run stays
-- where it is, and so does every other task.
pub record Handed (c frame : ℕ) (s s' : Scheduler) : Type 0 where
  pub placed : IsPlaced s'
  pub waits :
      (t : ℕ)
      → (cpu_at s c).current ≡ some t
      → has_state (task_at s t) running ≡ true
      → Waits c t frame s s'
  pub stays :
      (t : ℕ)
      → t < length s.tasks
      → (cpu_at s c).current ≡ some t
      → has_state (task_at s t) running ≡ false
      → task_at s' t ≡ record (task_at s t) { frame = frame }
  pub others : (u : ℕ) → (cpu_at s c).current ≢ some u → task_at s' u ≡ task_at s u
  pub current : (d : ℕ) → (cpu_at s' d).current ≡ (cpu_at s d).current
  pub quiet :
      is_running s (cpu_at s c).current ≡ false
      → (d q : ℕ) → queue_at (cpu_at s' d) q ≡ queue_at (cpu_at s d) q
  pub queues :
      (d q : ℕ)
      → c ≢ d ⊎ scheduler_priority_sanitize (current_priority s (cpu_at s c).current) ≢ q
      → queue_at (cpu_at s' d) q ≡ queue_at (cpu_at s d) q

-- The first task of the highest queue that is not empty runs on processor `c`, from its saved
-- registers and with a new time slice.
pub record Picked (c : ℕ) (s : Scheduler) (t frame : ℕ) (s' : Scheduler) : Type 0 where
  pub placed : IsPlaced s'
  pub runs : has_state (task_at s' t) running ≡ true
  pub current : (cpu_at s' c).current ≡ some t
  pub slice : (task_at s' t).ticks_in_slice ≡ 0
  pub registers : frame ≡ (task_at s t).frame
  pub first :
      queue_at (cpu_at s c) (task_at s t).priority
      ≡ t ∷ queue_at (cpu_at s' c) (task_at s t).priority
  pub highest : (q : ℕ) → q < (task_at s t).priority → queue_at (cpu_at s c) q ≡ []
  pub others : (u : ℕ) → t ≢ u → task_at s' u ≡ task_at s u
  pub queues :
      (d q : ℕ)
      → c ≢ d ⊎ (task_at s t).priority ≢ q
      → queue_at (cpu_at s' d) q ≡ queue_at (cpu_at s d) q
  pub currents : (d : ℕ) → c ≢ d → (cpu_at s' d).current ≡ (cpu_at s d).current

-- The task that runs waits and the next one runs. The processor panics only if it runs no task and
-- has none in its queues.
unfoldable pub IsYield : ℕ → ℕ → Scheduler → Option (ℕ × Scheduler) → Type 0
IsYield c frame s none =
    (is_running s (cpu_at s c).current ≡ false) × ((q : ℕ) → q < 5 → queue_at (cpu_at s c) q ≡ [])
IsYield c frame s (some (next_frame, s')) =
    (handed : Scheduler) × (t : ℕ) × (Handed c frame s handed × Picked c handed t next_frame s')
