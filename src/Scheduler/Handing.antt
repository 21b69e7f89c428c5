-- ===== src/Scheduler/Handing.antt =====
-- The task that a processor of kernel/kernel/scheduler.c runs is put back in its queue.
use dfos.Base.{
  ℕ, ◌<◌, true, false, List, [], ◌∷◌, ◌++◌, ◌==◌, Option, none, some, get_or, set, length,
  length-set, get_or-set_self, get_or-set_ne, ◌≡◌, ◌≢◌, ◌⊎◌, inl, inr, refl, sym, ap, ◌∙◌, subst,
  arith,
}
use native.Mathlib.Decide.{ℕ_discrete}
use dfos.Scheduler.State.{
  Scheduler, Processor, Task, Cpu, no_cpu, no_task, running, task_at, cpu_at, queue_at, has_state,
  put_task, state_value, scheduler_priority_sanitize,
}
use dfos.Scheduler.Queues.{
  reschedule, push_runnable, scheduler_cpu_enqueue_runnable, scheduler_cpu_enqueue_runnable_local,
}
use dfos.Scheduler.Dispatch.{save_frame, is_running, current_priority}
use dfos.Scheduler.Placed.{IsPlaced, IsCpu}
use dfos.Scheduler.Alike.{Alike, Alike-set, tasks-IsPlaced}
use dfos.Scheduler.Wakes.{IsOnline, Joined, cpu_enqueue-Joined, notify-cpus}
use dfos.Scheduler.Keeps.{sanitize_lt}
use dfos.Scheduler.Yields.{Waits, Handed}
use dfos.Scheduler.Running.{running_task, some_injective}

module _ (cpus : List Cpu) (c q t : ℕ) (in_cpus : c < length cpus)
    (in_queues : q < length (get_or cpus c no_cpu).runnable) where
  abbrev pushed : List Cpu
  pushed = set cpus c (push_runnable (get_or cpus c no_cpu) q t)

  queue-push : queue_at (get_or pushed c no_cpu) q ≡ queue_at (get_or cpus c no_cpu) q ++ (t ∷ [])
  unfolding push_runnable
  queue-push =
      rw (get_or-set_self cpus c (push_runnable (get_or cpus c no_cpu) q t) no_cpu in_cpus)
        (get_or-set_self (get_or cpus c no_cpu).runnable q _ [] in_queues)

  other_cpu :
      (d p : ℕ) → c ≢ d → queue_at (get_or pushed d no_cpu) p ≡ queue_at (get_or cpus d no_cpu) p
  other_cpu d p n =
      ap (λ cpu. queue_at cpu p)
        (get_or-set_ne cpus c d (push_runnable (get_or cpus c no_cpu) q t) no_cpu n)

  other_queue :
      (p : ℕ) → q ≢ p → queue_at (get_or pushed c no_cpu) p ≡ queue_at (get_or cpus c no_cpu) p
  unfolding push_runnable
  other_queue p n =
      rw (get_or-set_self cpus c (push_runnable (get_or cpus c no_cpu) q t) no_cpu in_cpus)
        (get_or-set_ne (get_or cpus c no_cpu).runnable q p _ [] n)

  queue-push_other :
      (d p : ℕ)
      → c ≢ d ⊎ q ≢ p
      → queue_at (get_or pushed d no_cpu) p ≡ queue_at (get_or cpus d no_cpu) p
  queue-push_other d p (inl n) = other_cpu d p n
  queue-push_other d p (inr n) = elim (ℕ_discrete c d) [
    | yes e ↦
        subst (λ w. queue_at (get_or pushed w no_cpu) p ≡ queue_at (get_or cpus w no_cpu) p) e
          (other_queue p n)
    | no other ↦ other_cpu d p other
  ]

-- The saved frame changes nothing else.
module _ (frame : ℕ) (s : Scheduler) (t : ℕ) where
  abbrev pub saved : Scheduler
  saved = put_task s t (record (task_at s t) { frame = frame })

  pub saved-Alike : (u : ℕ) → Alike (task_at saved u) (task_at s u)
  saved-Alike u =
      Alike-set s.tasks t (record (task_at s t) { frame = frame })
        (record { state = refl; kind = refl; priority = refl; processor = refl }) u

  pub saved-IsPlaced : IsPlaced s → IsPlaced saved
  saved-IsPlaced v =
      tasks-IsPlaced s.tasks (set s.tasks t (record (task_at s t) { frame = frame })) s.cpus
        s.free_tasks s.sleeping_tasks s.blocked_tasks s.zombie_tasks s.configured_cpu_count
        s.boot_cpu_id saved-Alike v

  pub saved-runs : has_state (task_at saved t) running ≡ has_state (task_at s t) running
  saved-runs = ap (λ state. state_value state == 2) (saved-Alike t).state

-- A current task that does not run stays where it is.
module _ (c frame : ℕ) (s : Scheduler) (v : IsPlaced s) where
  pub idle-Handed :
      (current : Option ℕ)
      → (cpu_at s c).current ≡ current
      → is_running s current ≡ false
      → Handed c frame s (save_frame current frame s)
  idle-Handed none e idle = record {
    placed = v;
    waits = λ t k h. absurd (omega (arith, no_task_here t (sym e ∙ k)));
    stays = λ t lt k h. absurd (omega (arith, no_task_here t (sym e ∙ k)));
    others = λ u n. refl;
    current = λ d. refl;
    quiet = λ h d q. refl;
    queues = λ d q h. refl;
  }
    where
      no_task_here : (t : ℕ) → none ≡ some t → 1 < 0
      no_task_here t k = cc
  idle-Handed (some t) e idle = record {
    placed = saved-IsPlaced frame s t v;
    waits = λ u k h. absurd (
        ground
          (arith, idle, subst (λ w. has_state (task_at s w) running ≡ true) (sym (same u k)) h));
    stays = λ u lt k h. stays_saved u lt (same u k);
    others = λ u n. get_or-set_ne s.tasks t u _ no_task (λ k. n (e ∙ ap some k));
    current = λ d. refl;
    quiet = λ h d q. refl;
    queues = λ d q h. refl;
  }
    where
      same : (u : ℕ) → (cpu_at s c).current ≡ some u → t ≡ u
      same u k = some_injective t u (sym e ∙ k)

      stays_saved :
          (u : ℕ)
          → u < length s.tasks
          → t ≡ u
          → task_at (saved frame s t) u ≡ record (task_at s u) { frame = frame }
      stays_saved u lt k =
          subst (λ w. task_at (saved frame s w) u ≡ record (task_at s u) { frame = frame }) (sym k)
            (get_or-set_self s.tasks u _ no_task lt)

-- One that runs waits for its turn.
module _ (p : Processor) (c frame : ℕ) (s : Scheduler) (v : IsPlaced s) (on : IsOnline s c) (t : ℕ)
    (e : (cpu_at s c).current ≡ some t) (runs : has_state (task_at s t) running ≡ true) where
  abbrev pub after : Scheduler
  after = scheduler_cpu_enqueue_runnable p c t reschedule (saved frame s t)

  known : t < length s.tasks
  known = running_task s.tasks t runs

  same_task : task_at (saved frame s t) t ≡ record (task_at s t) { frame = frame }
  same_task = get_or-set_self s.tasks t _ no_task known

  here : c < length s.cpus
  here = omega (arith, on.0, v.sized)

  joined : Joined (saved frame s t) after t
  joined =
      cpu_enqueue-Joined p c t reschedule (saved frame s t) (saved-IsPlaced frame s t v)
        (omega (arith, known, length-set s.tasks t (record (task_at s t) { frame = frame })))
        (rw (same_task) ((v.ready t).1 runs)) on.0 on.1

  abbrev priority : ℕ
  priority = scheduler_priority_sanitize (task_at s t).priority

  small : priority < length (cpu_at s c).runnable
  unfolding IsCpu
  small = omega (arith, (v.shaped c here).1, sanitize_lt (task_at s t).priority)

  same_cpus : after.cpus ≡ set s.cpus c (push_runnable (cpu_at s c) priority t)
  unfolding scheduler_cpu_enqueue_runnable scheduler_cpu_enqueue_runnable_local
  same_cpus =
      notify-cpus p c reschedule (scheduler_cpu_enqueue_runnable_local c t (saved frame s t))
      ∙ ap
          (λ (task : Task).
            set s.cpus c (push_runnable (cpu_at s c) (scheduler_priority_sanitize task.priority) t))
          same_task

  task-Waits : Waits c t frame s after
  task-Waits = record {
    state = joined.state;
    kind = joined.kind;
    registers = joined.frame ∙ ap (λ (task : Task). task.frame) same_task;
    last =
        ap (λ cpus. queue_at (get_or cpus c no_cpu) priority) same_cpus
        ∙ queue-push s.cpus c priority t here small;
  }

  pub running-Handed : Handed c frame s after
  running-Handed = record {
    placed = joined.placed;
    waits = λ u k h. subst (λ w. Waits c w frame s after) (same u k) task-Waits;
    stays = λ u lt k h.
        absurd
          (ground (arith, h, subst (λ w. has_state (task_at s w) running ≡ true) (same u k) runs));
    others = λ u n.
        let apart : t ≢ u = λ k. n (e ∙ ap some k) in
        joined.others u apart ∙ get_or-set_ne s.tasks t u _ no_task apart;
    current = joined.current;
    quiet = λ h d q. absurd (ground (arith, runs, sym (ap (is_running s) e) ∙ h));
    queues = λ d q h.
        ap (λ cpus. queue_at (get_or cpus d no_cpu) q) same_cpus
        ∙ queue-push_other s.cpus c priority t here small d q
            (subst (λ w. c ≢ d ⊎ scheduler_priority_sanitize (current_priority s w) ≢ q) e h);
  }
    where
      same : (u : ℕ) → (cpu_at s c).current ≡ some u → t ≡ u
      same u k = some_injective t u (sym e ∙ k)

  pub after-idle : is_running after (cpu_at after c).current ≡ false
  after-idle =
      ap (is_running after) (joined.current c ∙ e)
      ∙ ap (λ state. state_value state == 2) joined.state

  pub after-length : length after.cpus ≡ length s.cpus
  after-length = joined.same_cpus

  -- So there is a task to run.
  pub after-queued : ((q : ℕ) → q < 5 → queue_at (cpu_at after c) q ≡ []) → 1 < 0
  after-queued empty =
      filled (queue_at (cpu_at s c) priority)
        (sym (task-Waits.last) ∙ empty priority (sanitize_lt (task_at s t).priority))
    where
      filled : (list : List ℕ) → list ++ (t ∷ []) ≡ [] → 1 < 0
      filled [] h = cc
      filled (u ∷ list) h = cc
