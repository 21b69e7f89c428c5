-- ===== src/Scheduler/Ticks.antt =====
-- The timer interrupt of kernel/kernel/scheduler.c: `scheduler_on_timer_tick`.
use dfos.Base.{
  ℕ, Bool, length-set, ◌≤◌, ◌<◌, true, false, ◌||◌, [], leb, length, ◌==◌, Option, some, set,
  get_or-set_self, get_or-set_ne, ◌≡◌, ◌⊎◌, inl, inr, refl, sym, ap, one_of, ◌∙◌, subst, arith,
}
use dfos.Base.Words.{add32}
use dfos.Scheduler.State.{
  Scheduler, Processor, Task, no_task, running, task_at, cpu_at, queue_at, put_task, has_state,
  state_value, scheduler_priority_timeslice, scheduler_priority_sanitize,
}
use dfos.Scheduler.Queues.{scheduler_cpu_has_higher_priority_runnable}
use dfos.Scheduler.Dispatch.{is_running, tick_task, advance_tick}
use dfos.Scheduler.Placed.{IsPlaced}
use dfos.Scheduler.Alike.{Alike, Alike-set, tasks-IsPlaced}
use dfos.Scheduler.Wakes.{IsOnline}
use dfos.Scheduler.Woken.{scheduler_advance_timers-IsPlaced}
use dfos.Scheduler.Scheduled.{counted-IsYield, scheduler_schedule_cpu-IsYield}
use dfos.Scheduler.Running.{running_task, some_injective}
use dfos.Scheduler.Yields.{IsYield}
use dfos.Scheduler.Preempts.{
  ticked, Higher, GoesOn, returns, IsTick, any_queued-none, any_queued-some,
}
use dfos.Scheduler.Balanced.{Balanced}

pub advance_tick-IsPlaced :
    (p : Processor) (s : Scheduler) → IsPlaced s → IsPlaced (advance_tick p s)
unfolding advance_tick
advance_tick-IsPlaced p s v = scheduler_advance_timers-IsPlaced p _ v

-- A task exchanged for one alike.
module _ (s : Scheduler) (t : ℕ) (task : Task) (alike : Alike task (task_at s t)) where
  put_task-IsPlaced : IsPlaced s → IsPlaced (put_task s t task)
  put_task-IsPlaced v =
      tasks-IsPlaced s.tasks (set s.tasks t task) s.cpus s.free_tasks s.sleeping_tasks
        s.blocked_tasks s.zombie_tasks s.configured_cpu_count s.boot_cpu_id
        (Alike-set s.tasks t task alike) v

  put_task-runs :
      has_state (task_at (put_task s t task) t) running ≡ has_state (task_at s t) running
  put_task-runs = ap (λ state. state_value state == 2) (Alike-set s.tasks t task alike t).state

-- The tick of a task that runs.
module _ (p : Processor) (c t frame : ℕ) (s : Scheduler) (v : IsPlaced s) (on : IsOnline s c)
    (e : (cpu_at s c).current ≡ some t) (runs : has_state (task_at s t) running ≡ true) where
  known : t < length s.tasks
  known = running_task s.tasks t runs

  same : (u : ℕ) → (cpu_at s c).current ≡ some u → u ≡ t
  same u k = some_injective u t (sym k ∙ e)

  abbrev task : Task
  task = record (task_at s t) { ticks_in_slice = add32 (task_at s t).ticks_in_slice 1 }

  ticked-Alike : Alike task (task_at s t)
  ticked-Alike = record { state = refl; kind = refl; priority = refl; processor = refl }

  abbrev stops : Bool
  stops =
      leb (scheduler_priority_timeslice (task_at s t).priority)
        (add32 (task_at s t).ticks_in_slice 1)
      || scheduler_cpu_has_higher_priority_runnable (cpu_at s c) (task_at s t).priority

  must_stop :
      scheduler_priority_timeslice (task_at s t).priority ≤ add32 (task_at s t).ticks_in_slice 1
        ⊎ Higher c t s
      → stops ≡ true
  unfolding scheduler_cpu_has_higher_priority_runnable
  must_stop (inl h) = ground (arith, h)
  must_stop (inr (q, lt, n)) = ground (
    arith,
    any_queued-some (cpu_at s c) 0 (scheduler_priority_sanitize (task_at s t).priority) q
        (omega arith) (omega (arith, lt)) n,
  )

  may_go :
      add32 (task_at s t).ticks_in_slice 1 < scheduler_priority_timeslice (task_at s t).priority
      → ((q : ℕ)
          → q < scheduler_priority_sanitize (task_at s t).priority
          → queue_at (cpu_at s c) q ≡ [])
      → stops ≡ false
  unfolding scheduler_cpu_has_higher_priority_runnable
  may_go h empty = ground (
    arith,
    h,
    any_queued-none (cpu_at s c) 0 (scheduler_priority_sanitize (task_at s t).priority)
        (λ q lo hi. empty q (omega arith)),
  )

  ended :
      (r : Option (ℕ × Scheduler))
      → stops ≡ true
      → IsYield c frame (ticked t s) r
      → IsTick c frame s r
  ended r k y = record {
    idle = λ h. absurd (ground (arith, runs, sym (ap (is_running s) e) ∙ h));
    preempts = λ u f h q. subst (λ w. IsYield c frame (ticked w s) r) (sym (same u f)) y;
    goes_on = λ u f h lt empty. absurd (
        ground (
          arith,
          k,
          may_go
              (subst
                (λ w.
                  add32 (task_at s w).ticks_in_slice 1
                  < scheduler_priority_timeslice (task_at s w).priority)
                (same u f) lt)
              (subst
                (λ w.
                  (q : ℕ)
                  → q < scheduler_priority_sanitize (task_at s w).priority
                  → queue_at (cpu_at s c) q ≡ [])
                (same u f) empty),
        ));
  }

  abbrev framed : Task
  framed = record (task_at (ticked t s) t) { frame = frame }

  framed-Alike : Alike framed (task_at (ticked t s) t)
  framed-Alike = record { state = refl; kind = refl; priority = refl; processor = refl }

  task-GoesOn : GoesOn t frame s (put_task (ticked t s) t framed)
  task-GoesOn = record {
    placed =
        put_task-IsPlaced (ticked t s) t framed framed-Alike
          (put_task-IsPlaced s t task ticked-Alike v);
    task =
        get_or-set_self (ticked t s).tasks t framed no_task
          (omega (arith, known, length-set s.tasks t task))
        ∙ ap (λ (w : Task). record w { frame = frame })
            (get_or-set_self s.tasks t task no_task known);
    others = λ u n.
        get_or-set_ne (ticked t s).tasks t u framed no_task n
        ∙ get_or-set_ne s.tasks t u task no_task n;
    cpus = refl;
  }

  continued : stops ≡ false → IsTick c frame s (returns frame (put_task (ticked t s) t framed))
  continued k = record {
    idle = λ h. absurd (ground (arith, runs, sym (ap (is_running s) e) ∙ h));
    preempts = λ u f h q. absurd (
        ground (
          arith,
          k,
          must_stop (
              subst
                (λ w.
                  scheduler_priority_timeslice (task_at s w).priority
                    ≤ add32 (task_at s w).ticks_in_slice 1
                  ⊎ Higher c w s)
                (same u f) q),
        ));
    goes_on = λ u f h lt empty. (
      put_task (ticked t s) t framed,
      refl,
      subst (λ w. GoesOn w frame s (put_task (ticked t s) t framed)) (sym (same u f)) task-GoesOn,
    );
  }

  pub tick_task-IsTick : IsTick c frame s (tick_task p c t frame s)
  unfolding tick_task
  tick_task-IsTick =
      one_of (IsTick c frame s) stops _ _
        (λ k. ended _ k (
          counted-IsYield c frame (ticked t s) _ _ (
            scheduler_schedule_cpu-IsYield p c frame _ (put_task-IsPlaced s t task ticked-Alike v)
              on)))
        continued
