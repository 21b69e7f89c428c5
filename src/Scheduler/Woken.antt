-- ===== src/Scheduler/Woken.antt =====
-- The loops of kernel/kernel/scheduler.c that wake tasks, over a list that shrinks meanwhile.
use dfos.Base.{
  ℕ, ◌-◌, ◌≤◌, ◌<◌, true, false, ◌&&◌, not, List, [], ◌∷◌, ltb, leb, ◌==◌, get_or, length,
  length-set, get_or-set_self, get_or-set_ne, ◌≡◌, ◌≢◌, refl, sym, ap, one_of, elim_of, ◌∙◌, subst,
  arith,
}
use native.Mathlib.Decide.{ℕ_discrete}
use dfos.Scheduler.State.{
  Scheduler, Processor, Task, ListKind, no_list, sleeping_list, blocked_list, no_task, task_at,
  has_kind, kind_value, without, scheduler_cpu_by_id,
}
use dfos.Scheduler.Queues.{
  wakeup, scheduler_cpu_enqueue_runnable_local, scheduler_cpu_enqueue_runnable,
  scheduler_enqueue_runnable,
}
use dfos.Scheduler.Dispatch.{
  take_sleeper, take_late, wake_sleeper, time_out, wake_sleepers, time_outs,
  scheduler_advance_timers,
}
use dfos.Scheduler.Waiting.{take_waiter, wake_task, wake_waiters, scheduler_wake_channel}
use dfos.Scheduler.Placed.{IsPlaced, Moves-IsPlaced, list_of, is_plain, occurs, one_if}
use dfos.Scheduler.Keeps.{known_task}
use dfos.Scheduler.Plain.{Apart, Changed, Changed-by, leave-Moves}
use dfos.Scheduler.Wakes.{enqueue-IsPlaced, notify-tasks}

-- The invariant is kept, and of the tasks at most `t` changed.
pub record Woke (s s' : Scheduler) (t : ℕ) : Type 0 where
  pub placed : IsPlaced s'
  pub others : (u : ℕ) → t ≢ u → task_at s' u ≡ task_at s u

-- The tasks of the list are on the list `k`, each once.
unfoldable pub Pending : Scheduler → ListKind → List ℕ → Type 0
Pending s k list = (u : ℕ) → occurs list u ≤ one_if (has_kind (task_at s u) k)

pub IsPlaced-Pending :
    (s : Scheduler) → IsPlaced s → (k : ListKind) → is_plain k ≡ true → Pending s k (list_of s k)
unfolding Pending
IsPlaced-Pending s v k plain u = omega (arith, v.listed k u plain)

pub Pending-first :
    (s : Scheduler) (k : ListKind) (t : ℕ) (list : List ℕ)
    → Pending s k (t ∷ list)
    → has_kind (task_at s t) k ≡ true
unfolding Pending occurs
Pending-first s k t list h = ground (arith, h t)

pub Pending-rest :
    (s : Scheduler) (k : ListKind) (t : ℕ) (list : List ℕ)
    → Pending s k (t ∷ list)
    → Pending s k list
unfolding Pending occurs
Pending-rest s k t list h u = omega (arith, h u)

pub Pending-next :
    (s s' : Scheduler) (k : ListKind) (t : ℕ) (list : List ℕ)
    → Pending s k (t ∷ list)
    → Woke s s' t
    → Pending s' k list
unfolding Pending occurs
Pending-next s s' k t list h w u = elim (ℕ_discrete t u) [
  | yes e ↦ ground (arith, h u, e)
  | no n ↦
      subst (λ task. occurs list u ≤ one_if (has_kind task k)) (sym (w.others u n))
        (omega (arith, h u))
]

pub enqueue-Woke :
    (p : Processor) (s off : Scheduler) (t : ℕ) (k : ListKind) (task : Task)
    → IsPlaced s
    → is_plain k ≡ true
    → has_kind (task_at s t) k ≡ true
    → (kind_value k == 0) ≡ false
    → has_kind task no_list ≡ true
    → Apart s off t task
    → Changed s off k (without (list_of s k) t)
    → Woke s (scheduler_enqueue_runnable p t wakeup off) t
unfolding scheduler_enqueue_runnable scheduler_cpu_enqueue_runnable
    scheduler_cpu_enqueue_runnable_local
enqueue-Woke p s off t k task v plain on proper free apart changed =
    let known = known_task s.tasks t k on proper in
    let same : task_at off t ≡ task =
      rw (apart.table) (get_or-set_self s.tasks t task no_task known) in
    let known' : t < length off.tasks =
      rw (apart.table) (omega (arith, length-set s.tasks t task)) in
    let placed =
      Moves-IsPlaced s off t v (leave-Moves s off v t known task apart k plain on free changed) in
    record {
      placed = enqueue-IsPlaced p t wakeup off placed known' (rw (same) free);
      others = λ u n.
          ap (λ tasks. get_or tasks u no_task)
            (notify-tasks p (scheduler_cpu_by_id off (task_at off t).assigned_cpu) wakeup _)
          ∙ get_or-set_ne off.tasks t u _ no_task n
          ∙ ap (λ tasks. get_or tasks u no_task) apart.table
          ∙ get_or-set_ne s.tasks t u task no_task n;
    }

pub wake_sleeper-Woke :
    (p : Processor) (t : ℕ) (s : Scheduler)
    → IsPlaced s
    → has_kind (task_at s t) sleeping_list ≡ true
    → Woke s (wake_sleeper p t s) t
unfolding wake_sleeper take_sleeper
wake_sleeper-Woke p t s v on =
    one_of (λ s'. Woke s s' t) (leb (task_at s t).wakeup_tick s.system_ticks) _ s
      (λ h.
        let w =
          enqueue-Woke p s (take_sleeper t s) t sleeping_list _ v refl on refl refl
            (record { table = refl; processors = refl; counts = (refl, refl) })
            (Changed-by s (take_sleeper t s) sleeping_list (without s.sleeping_tasks t) refl refl
              refl refl refl) in
        record { placed = w.placed; others = w.others })
      (λ h. record { placed = v; others = λ u n. refl })

pub time_out-Woke :
    (p : Processor) (t : ℕ) (s : Scheduler)
    → IsPlaced s
    → has_kind (task_at s t) blocked_list ≡ true
    → Woke s (time_out p t s) t
unfolding time_out take_late
time_out-Woke p t s v on =
    one_of (λ s'. Woke s s' t)
      (not ((task_at s t).wakeup_tick == 0) && leb (task_at s t).wakeup_tick s.system_ticks) _ s
      (λ h.
        let w =
          enqueue-Woke p s (take_late t s) t blocked_list _ v refl on refl refl
            (record { table = refl; processors = refl; counts = (refl, refl) })
            (Changed-by s (take_late t s) blocked_list (without s.blocked_tasks t) refl refl refl
              refl refl) in
        record { placed = w.placed; others = w.others })
      (λ h. record { placed = v; others = λ u n. refl })

pub wake_task-Woke :
    (p : Processor) (t : ℕ) (s : Scheduler)
    → IsPlaced s
    → has_kind (task_at s t) blocked_list ≡ true
    → Woke s (wake_task p t s) t
unfolding wake_task take_waiter
wake_task-Woke p t s v on =
    let w =
      enqueue-Woke p s (take_waiter t s) t blocked_list _ v refl on refl refl
        (record { table = refl; processors = refl; counts = (refl, refl) })
        (Changed-by s (take_waiter t s) blocked_list (without s.blocked_tasks t) refl refl refl refl
          refl) in
    record { placed = w.placed; others = w.others }

wake_sleepers-IsPlaced :
    (p : Processor) (list : List ℕ) (s : Scheduler)
    → IsPlaced s
    → Pending s sleeping_list list
    → IsPlaced (wake_sleepers p list s)
unfolding wake_sleepers
wake_sleepers-IsPlaced p [] s v pending = v
wake_sleepers-IsPlaced p (t ∷ list) s v pending =
    let w = wake_sleeper-Woke p t s v (Pending-first s sleeping_list t list pending) in
    wake_sleepers-IsPlaced p list (wake_sleeper p t s) w.placed
      (Pending-next s (wake_sleeper p t s) sleeping_list t list pending w)

time_outs-IsPlaced :
    (p : Processor) (list : List ℕ) (s : Scheduler)
    → IsPlaced s
    → Pending s blocked_list list
    → IsPlaced (time_outs p list s)
unfolding time_outs
time_outs-IsPlaced p [] s v pending = v
time_outs-IsPlaced p (t ∷ list) s v pending =
    let w = time_out-Woke p t s v (Pending-first s blocked_list t list pending) in
    time_outs-IsPlaced p list (time_out p t s) w.placed
      (Pending-next s (time_out p t s) blocked_list t list pending w)

pub scheduler_advance_timers-IsPlaced :
    (p : Processor) (s : Scheduler) → IsPlaced s → IsPlaced (scheduler_advance_timers p s)
unfolding scheduler_advance_timers
scheduler_advance_timers-IsPlaced p s v =
    let s' = wake_sleepers p s.sleeping_tasks s in
    let v' =
      wake_sleepers-IsPlaced p s.sleeping_tasks s v (IsPlaced-Pending s v sleeping_list refl) in
    time_outs-IsPlaced p s'.blocked_tasks s' v' (IsPlaced-Pending s' v' blocked_list refl)

wake_waiters-IsPlaced :
    (p : Processor) (wait_channel : ℕ) (list : List ℕ) (limit : ℕ) (s : Scheduler)
    → IsPlaced s
    → Pending s blocked_list list
    → IsPlaced (wake_waiters p wait_channel list limit s).1
unfolding wake_waiters
wake_waiters-IsPlaced p wait_channel [] limit s v pending = v
wake_waiters-IsPlaced p wait_channel (t ∷ list) limit s v pending =
    let w = wake_task-Woke p t s v (Pending-first s blocked_list t list pending) in
    elim_of (λ (r : ℕ × Scheduler). IsPlaced r.1)
      ((task_at s t).wait_channel == wait_channel && ltb 0 limit) _ _
      (λ h.
        wake_waiters-IsPlaced p wait_channel list (limit - 1) (wake_task p t s) w.placed
          (Pending-next s (wake_task p t s) blocked_list t list pending w))
      (λ h.
        wake_waiters-IsPlaced p wait_channel list limit s v
          (Pending-rest s blocked_list t list pending))

pub scheduler_wake_channel-IsPlaced :
    (p : Processor) (wait_channel max_count : ℕ) (s : Scheduler)
    → IsPlaced s
    → IsPlaced (scheduler_wake_channel p wait_channel max_count s).1
unfolding scheduler_wake_channel
scheduler_wake_channel-IsPlaced p wait_channel max_count s v =
    one_of (λ (r : ℕ × Scheduler). IsPlaced r.1) (wait_channel == 0) _ _ (λ h. v)
      (λ h.
        wake_waiters-IsPlaced p wait_channel s.blocked_tasks _ s v
          (IsPlaced-Pending s v blocked_list refl))
