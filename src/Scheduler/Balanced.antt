-- ===== src/Scheduler/Balanced.antt =====
-- The load balancer of kernel/kernel/scheduler.c keeps the invariant of the lists, and leaves every
-- processor its current task.
use dfos.Base.{
  ℕ, zero, suc, ◌+◌, ◌<◌, Bool, true, false, ◌||◌, not, List, [], ◌∷◌, ltb, leb, ◌==◌,
  if◌then◌else◌, Option, none, some, get_or, length, length-set, get_or-set_self, ◌≡◌, refl, ap,
  one_of, ◌∙◌, arith,
}
use dfos.Base.Words.{add32, sub32}
use dfos.Scheduler.Select.{View, scheduler_invalid_cpu_id, scheduler_select_best_cpu_from_view}
use dfos.Scheduler.Trace.{scheduler_trace_counter_inc}
use dfos.Scheduler.State.{
  Scheduler, Processor, no_list, runnable_list, no_cpu, no_task, task_at, cpu_at, queue_at,
  has_kind,
}
use dfos.Scheduler.Queues.{
  reschedule, count_event, scheduler_notify_remote_runnable, scheduler_cpu_enqueue_runnable_local,
  remove_from_queue, scheduler_migrate_runnable_task,
}
use dfos.Scheduler.Balance.{
  try_task, try_queue, try_priorities, try_sources, move_load, scheduler_balance_once_from_view,
  scheduler_should_balance_now, migrations, scheduler_balance_periodic, view_of,
  scheduler_balance_interval_ticks,
}
use dfos.Scheduler.Dispatch.{balance_if, balance_tick}
use dfos.Scheduler.Placed.{IsPlaced, IsCpu, Moves-IsPlaced}
use dfos.Scheduler.Keeps.{known_task, remove-Moves, enqueue-Moves}
use dfos.Scheduler.Wakes.{notify-IsPlaced, notify-cpus}

pub record Balanced (s s' : Scheduler) : Type 0 where
  pub placed : IsPlaced s'
  pub current : (c : ℕ) → (cpu_at s' c).current ≡ (cpu_at s c).current
  pub online : (c : ℕ) → (cpu_at s' c).online ≡ (cpu_at s c).online

Balanced-same : (s : Scheduler) → IsPlaced s → Balanced s s
Balanced-same s v = record { placed = v; current = λ c. refl; online = λ c. refl }

module _ (p : Processor) (source target t : ℕ) (notify : Bool) (s : Scheduler) (v : IsPlaced s)
    (source_on : (cpu_at s source).online ≡ true) (target_on : (cpu_at s target).online ≡ true)
    (queued : has_kind (task_at s t) runnable_list ≡ true)
    (mine : (task_at s t).assigned_cpu ≡ (cpu_at s source).id) where
  abbrev off : Scheduler
  off = remove_from_queue source t s

  abbrev moved : Scheduler
  moved = scheduler_cpu_enqueue_runnable_local target t off

  told :
      Balanced s
        (if notify then scheduler_notify_remote_runnable p target reschedule moved else moved)
  unfolding remove_from_queue IsCpu
  told =
      let known = known_task s.tasks t runnable_list queued refl in
      let source_here : source < s.configured_cpu_count = v.bounded source source_on in
      let in_cpus : source < length s.cpus = omega (arith, source_here, v.sized) in
      let left =
        remove-Moves s v source t known source_here queued (mine ∙ (v.shaped source in_cpus).0) in
      let v' = Moves-IsPlaced s off t v left in
      let joined =
        enqueue-Moves off v' target t
          (omega
            (arith, known, length-set s.tasks t (record (task_at s t) { list_kind = no_list })))
          (v.bounded target target_on) (left.online target ∙ target_on)
          (rw
            (get_or-set_self s.tasks t (record (task_at s t) { list_kind = no_list }) no_task known)
            refl) in
      let placed = Moves-IsPlaced off moved t v' joined in
      let same : (c : ℕ) → (cpu_at moved c).current ≡ (cpu_at s c).current =
        λ c. joined.current c ∙ left.current c in
      let same_online : (c : ℕ) → (cpu_at moved c).online ≡ (cpu_at s c).online =
        λ c. joined.online c ∙ left.online c in
      one_of (Balanced s) notify _ moved
        (λ h. record {
          placed = notify-IsPlaced p target reschedule moved placed;
          current = λ c.
              ap (λ cpus. (get_or cpus c no_cpu).current) (notify-cpus p target reschedule moved)
              ∙ same c;
          online = λ c.
              ap (λ cpus. (get_or cpus c no_cpu).online) (notify-cpus p target reschedule moved)
              ∙ same_online c;
        })
        (λ h. record { placed = placed; current = same; online = same_online })

pub migrate-Balanced :
    (p : Processor) (source target t : ℕ) (notify : Bool) (s : Scheduler)
    → IsPlaced s
    → Balanced s (scheduler_migrate_runnable_task p source target t notify s).1
unfolding scheduler_migrate_runnable_task
migrate-Balanced p source target t notify s v =
    one_of (λ (r : Bool × Scheduler). Balanced s r.1) _ _ _ (λ h. Balanced-same s v)
      (λ h.
        let m =
          told p source target t notify s v (ground (arith, h)) (ground (arith, h))
            (ground (arith, h)) (ground (arith, h)) in
        record { placed = m.placed; current = m.current; online = m.online })

-- A result, if there is one, keeps the invariant.
Keeps : Scheduler → Option (ℕ × Scheduler) → Type 0
Keeps s none = Unit
Keeps s (some (c, s')) = Balanced s s'

KeepsMove : Scheduler → Option (ℕ × ℕ × Scheduler) → Type 0
KeepsMove s none = Unit
KeepsMove s (some (source, target, s')) = Balanced s s'

KeepsView : Scheduler → Option (View × Scheduler) → Type 0
KeepsView s none = Unit
KeepsView s (some (v, s')) = Balanced s s'

none_kept : (s : Scheduler) → Keeps s none
unfolding Keeps
none_kept s = record {}

some_kept : (s : Scheduler) (c : ℕ) (s' : Scheduler) → Balanced s s' → Keeps s (some (c, s'))
unfolding Keeps
some_kept s c s' h = h

no_move : (s : Scheduler) → KeepsMove s none
unfolding KeepsMove
no_move s = record {}

first_kept :
    (s : Scheduler) (a b : Option (ℕ × Scheduler))
    → Keeps s a
    → Keeps s b
    → Keeps s (elim a [ some moved ↦ some moved | none ↦ b ])
unfolding Keeps
first_kept s none b h k = k
first_kept s (some a) b h k = h

move_kept :
    (s : Scheduler) (source : ℕ) (a : Option (ℕ × Scheduler)) (b : Option (ℕ × ℕ × Scheduler))
    → Keeps s a
    → KeepsMove s b
    → KeepsMove s (elim a [ some (target, s') ↦ some (source, target, s') | none ↦ b ])
unfolding Keeps KeepsMove
move_kept s source none b h k = k
move_kept s source (some (target, s')) b h k = h

view_kept :
    (s : Scheduler) (v : View) (a : Option (ℕ × ℕ × Scheduler))
    → KeepsMove s a
    → KeepsView s
        (elim a [ none ↦ none | some (source, target, s') ↦ some (move_load v source target, s') ])
unfolding KeepsMove KeepsView
view_kept s v none h = h
view_kept s v (some (source, target, s')) h = h

module _ (p : Processor) (notify : Bool) (v : View) (s : Scheduler) (placed : IsPlaced s) where
  try_task-Keeps : (source t : ℕ) → Keeps s (try_task p notify v s source t)
  unfolding try_task
  try_task-Keeps source t =
      let task = task_at s t in
      let source_id = (cpu_at s source).id in
      let target =
        scheduler_select_best_cpu_from_view v task.cpu_affinity_mask task.preferred_numa_node
          source_id in
      let (moves, s') = scheduler_migrate_runnable_task p source target t notify s in
      one_of (Keeps s)
        (((target == scheduler_invalid_cpu_id || target == source_id)
            || leb (get_or v.cpu_load source 0) (add32 (get_or v.cpu_load target 0) 1))
          || ((not (get_or v.cpu_online target false) || not (cpu_at s target).online)
              || not moves))
        none (some (target, s')) (λ h. none_kept s)
        (λ h. some_kept s target s' (migrate-Balanced p source target t notify s placed))

  try_queue-Keeps : (source : ℕ) (queue : List ℕ) → Keeps s (try_queue p notify v s source queue)
  unfolding try_queue
  try_queue-Keeps source [] = none_kept s
  try_queue-Keeps source (t ∷ queue) =
      first_kept s (try_task p notify v s source t) (try_queue p notify v s source queue)
        (try_task-Keeps source t) (try_queue-Keeps source queue)

  try_priorities-Keeps : (source rounds : ℕ) → Keeps s (try_priorities p notify v s source rounds)
  unfolding try_priorities
  try_priorities-Keeps source zero = none_kept s
  try_priorities-Keeps source (suc rounds) =
      first_kept s (try_queue p notify v s source (queue_at (cpu_at s source) rounds))
        (try_priorities p notify v s source rounds)
        (try_queue-Keeps source (queue_at (cpu_at s source) rounds))
        (try_priorities-Keeps source rounds)

  try_sources-Keeps : (source rounds : ℕ) → KeepsMove s (try_sources p notify v s source rounds)
  unfolding try_sources
  try_sources-Keeps source zero = no_move s
  try_sources-Keeps source (suc rounds) =
      move_kept s source _ (try_sources p notify v s (source + 1) rounds)
        (one_of (Keeps s) _ none (try_priorities p notify v s source 5) (λ h. none_kept s)
          (λ h. try_priorities-Keeps source 5))
        (try_sources-Keeps (source + 1) rounds)

  balance_once-KeepsView : KeepsView s (scheduler_balance_once_from_view p notify v s)
  unfolding scheduler_balance_once_from_view
  balance_once-KeepsView =
      view_kept s v _
        (one_of (KeepsMove s) _ none _ (λ h. no_move s) (λ h. try_sources-Keeps 0 v.cpu_count))

migrated-Balanced :
    (p : Processor) (rounds : ℕ) (s : Scheduler) (result : Option (View × Scheduler))
    → IsPlaced s
    → KeepsView s result
    → ((v : View) (s' : Scheduler) → IsPlaced s' → Balanced s' (migrations p rounds v s'))
    → Balanced s (elim result [
      | none ↦ s
      | some (v', s') ↦ migrations p rounds v' (
          count_event
            (λ n. record n {
              load_balance_migrations = scheduler_trace_counter_inc n.load_balance_migrations;
            })
            s')
    ])
unfolding KeepsView
migrated-Balanced p rounds s none v k rest = Balanced-same s v
migrated-Balanced p rounds s (some (v', s')) v k rest =
    let r =
      rest v'
        (count_event
          (λ n. record n {
            load_balance_migrations = scheduler_trace_counter_inc n.load_balance_migrations;
          })
          s')
        k.placed in
    record {
      placed = r.placed;
      current = λ c. r.current c ∙ k.current c;
      online = λ c. r.online c ∙ k.online c;
    }

pub migrations-Balanced :
    (p : Processor) (rounds : ℕ) (v : View) (s : Scheduler)
    → IsPlaced s
    → Balanced s (migrations p rounds v s)
unfolding migrations
migrations-Balanced p zero v s placed = Balanced-same s placed
migrations-Balanced p (suc rounds) v s placed =
    migrated-Balanced p rounds s (scheduler_balance_once_from_view p true v s) placed
      (balance_once-KeepsView p true v s placed) (migrations-Balanced p rounds)

pub balance_periodic-Balanced :
    (p : Processor) (s : Scheduler) → IsPlaced s → Balanced s (scheduler_balance_periodic p s)
unfolding scheduler_balance_periodic
balance_periodic-Balanced p s v =
    let counted =
      count_event
        (λ n. record n { load_balance_runs = scheduler_trace_counter_inc n.load_balance_runs }) s in
    let m = migrations-Balanced p 2 (view_of counted) counted v in
    record { placed = m.placed; current = m.current; online = m.online }

balance_if-Balanced :
    (p : Processor) (s : Scheduler)
    → IsPlaced s
    → Balanced s (balance_if p (scheduler_should_balance_now p s))
unfolding scheduler_should_balance_now
balance_if-Balanced p s v =
    one_of (λ r. Balanced s (balance_if p r))
      (((not s.bootstrapped || leb s.configured_cpu_count 1) || not p.smp_available)
        || ltb (sub32 s.system_ticks s.last_balance_tick) scheduler_balance_interval_ticks)
      (false, s) (true, record s { last_balance_tick = s.system_ticks }) (λ k. Balanced-same s v)
      (λ k.
        let m = balance_periodic-Balanced p (record s { last_balance_tick = s.system_ticks }) v in
        record { placed = m.placed; current = m.current; online = m.online })

pub balance_tick-Balanced :
    (p : Processor) (c : ℕ) (s : Scheduler) → IsPlaced s → Balanced s (balance_tick p c s)
unfolding balance_tick
balance_tick-Balanced p c s v =
    one_of (Balanced s) ((cpu_at s c).id == s.boot_cpu_id)
      (balance_if p (scheduler_should_balance_now p s)) s (λ h. balance_if-Balanced p s v)
      (λ h. Balanced-same s v)
