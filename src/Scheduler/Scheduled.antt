-- ===== src/Scheduler/Scheduled.antt =====
-- What `scheduler_schedule_cpu` of kernel/kernel/scheduler.c leaves when it must switch.
use dfos.Base.{
  ℕ, ◌<◌, true, false, [], if◌then◌else◌, Option, none, some, length, ◌≡◌, refl, sym, ap, one_of,
  ◌∙◌, subst, ◌≢◌, ◌⊎◌, arith,
}
use dfos.Scheduler.State.{
  Scheduler, Processor, task_at, cpu_at, queue_at, has_state, running, scheduler_priority_sanitize,
}
use dfos.Scheduler.Trace.{Counters, scheduler_trace_counter_inc}
use dfos.Scheduler.Queues.{count_event}
use dfos.Scheduler.Dispatch.{
  save_frame, is_running, current_priority, pick_next, requeue, scheduler_schedule_cpu,
}
use dfos.Scheduler.Placed.{IsPlaced}
use dfos.Scheduler.Wakes.{IsOnline}
use dfos.Scheduler.Yields.{Waits, Handed, IsYield}
use dfos.Scheduler.Running.{IsPick, pick_next-IsPick}
use dfos.Scheduler.Handing.{
  saved-runs, idle-Handed, running-Handed, after, after-idle, after-length, after-queued,
}

picked-IsYield :
    (c frame : ℕ) (s handed : Scheduler) (r : Option (ℕ × Scheduler))
    → Handed c frame s handed
    → (((q : ℕ) → q < 5 → queue_at (cpu_at handed c) q ≡ []) → IsYield c frame s none)
    → IsPick c handed r
    → IsYield c frame s r
unfolding IsYield
picked-IsYield c frame s handed none h empty k = empty k
picked-IsYield c frame s handed (some (next_frame, s')) h empty (t, k) = (handed, t, (h, k))

module _ (p : Processor) (c frame : ℕ) (s : Scheduler) (v : IsPlaced s) (on : IsOnline s c) where
  here : c < length s.cpus
  here = omega (arith, on.0, v.sized)

  idle-IsYield :
      (current : Option ℕ)
      → (cpu_at s c).current ≡ current
      → is_running s current ≡ false
      → (handed : Scheduler) → handed.cpus ≡ s.cpus
      → is_running handed current ≡ false
      → Handed c frame s handed
      → IsYield c frame s (pick_next c frame handed)
  unfolding IsYield
  idle-IsYield current e idle handed same still h =
      picked-IsYield c frame s handed (pick_next c frame handed) h
        (λ empty. (
          ap (is_running s) e ∙ idle,
          λ q lt. sym (h.quiet (ap (is_running s) e ∙ idle) c q) ∙ empty q lt,
        ))
        (pick_next-IsPick c frame handed h.placed (omega (arith, ap length same, here))
          (ap (is_running handed) (h.current c ∙ e) ∙ still))

  running-IsYield :
      (t : ℕ)
      → (cpu_at s c).current ≡ some t
      → has_state (task_at s t) running ≡ true
      → IsYield c frame s (pick_next c frame (requeue p c (some t) (save_frame (some t) frame s)))
  running-IsYield t e runs =
      let h = running-Handed p c frame s v on t e runs in
      picked-IsYield c frame s (after p c frame s v on t e runs) _ h
        (λ empty. absurd (omega (arith, after-queued p c frame s v on t e runs empty)))
        (pick_next-IsPick c frame (after p c frame s v on t e runs) h.placed
          (omega (arith, after-length p c frame s v on t e runs, here))
          (after-idle p c frame s v on t e runs))

  pub scheduled-IsYield :
      (current : Option ℕ)
      → (cpu_at s c).current ≡ current
      → IsYield c frame s (
          if is_running (save_frame current frame s) current
          then pick_next c frame (requeue p c current (save_frame current frame s))
          else pick_next c frame (save_frame current frame s))
  scheduled-IsYield none e =
      idle-IsYield none e refl s refl refl (idle-Handed c frame s v none e refl)
  scheduled-IsYield (some t) e =
      one_of (IsYield c frame s) (is_running (save_frame (some t) frame s) (some t)) _ _
        (λ h. running-IsYield t e (sym (saved-runs frame s t) ∙ h))
        (λ h.
          let idle = sym (saved-runs frame s t) ∙ h in
          idle-IsYield (some t) e idle (save_frame (some t) frame s) refl h
            (idle-Handed c frame s v (some t) e idle))

-- The counters do not matter.
module _ (c frame : ℕ) (s : Scheduler) (counters : Counters) where
  counted_running :
      (current : Option ℕ)
      → is_running (record s { counters = counters }) current ≡ is_running s current
  counted_running none = refl
  counted_running (some t) = refl

  counted_priority :
      (current : Option ℕ)
      → current_priority s current ≡ current_priority (record s { counters = counters }) current
  counted_priority none = refl
  counted_priority (some t) = refl

  counted-Waits :
      (t : ℕ) (s' : Scheduler)
      → Waits c t frame (record s { counters = counters }) s'
      → Waits c t frame s s'
  counted-Waits t s' h = record {
    state = h.state;
    kind = h.kind;
    registers = h.registers;
    last = h.last;
  }

  counted-Handed :
      (s' : Scheduler) → Handed c frame (record s { counters = counters }) s' → Handed c frame s s'
  counted-Handed s' h = record {
    placed = h.placed;
    waits = λ t k r. counted-Waits t s' (h.waits t k r);
    stays = h.stays;
    others = h.others;
    current = h.current;
    quiet = λ k. h.quiet (counted_running (cpu_at s c).current ∙ k);
    queues = λ d q k. h.queues d q (
        subst (λ w. c ≢ d ⊎ scheduler_priority_sanitize w ≢ q)
          (counted_priority (cpu_at s c).current) k);
  }

  pub counted-IsYield :
      (r : Option (ℕ × Scheduler))
      → IsYield c frame (record s { counters = counters }) r
      → IsYield c frame s r
  unfolding IsYield
  counted-IsYield none k = k
  counted-IsYield (some (next_frame, s')) (handed, t, (h, picked)) =
      (handed, t, (counted-Handed handed h, picked))

pub scheduler_schedule_cpu-IsYield :
    (p : Processor) (c frame : ℕ) (s : Scheduler)
    → IsPlaced s
    → IsOnline s c
    → IsYield c frame s (scheduler_schedule_cpu p c frame true s)
unfolding scheduler_schedule_cpu
scheduler_schedule_cpu-IsYield p c frame s v on =
    let counted =
      count_event
        (λ n. record n { schedule_events = scheduler_trace_counter_inc n.schedule_events }) s in
    counted-IsYield c frame s counted.counters _
      (scheduled-IsYield p c frame counted v on (cpu_at s c).current refl)
