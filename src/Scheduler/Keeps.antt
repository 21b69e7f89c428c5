-- ===== src/Scheduler/Keeps.antt =====
-- The primitives of kernel/kernel/scheduler.c that put a task in a run queue or take it out keep
-- the invariant of the lists.
use dfos.Base.{
  ℕ, zero, suc, ◌<◌, true, false, List, [], ◌∷◌, ◌++◌, ◌==◌, get_or, length, length-set,
  get_or-set_self, get_or-set_ne, ◌≡◌, refl, sym, ap, ◌∙◌, subst, arith,
}
use native.Mathlib.Decide.{ℕ_discrete}
use dfos.Scheduler.State.{
  Scheduler, Task, ListKind, no_list, runnable_list, no_cpu, no_task, scheduler_priority_sanitize,
  runnable, task_at, cpu_at, queue_at, has_kind, kind_value, without,
}
use dfos.Scheduler.Queues.{
  push_runnable, drop_runnable, scheduler_cpu_enqueue_runnable_local, remove_from_queue,
}
use dfos.Scheduler.Placed.{occurs, IsPlaced, IsCpu, Moves}
use dfos.Scheduler.Moves.{not_plain, occurs-push, occurs-drop, online-set, current-set, IsCpu-set}

pub sanitize_lt : (priority : ℕ) → scheduler_priority_sanitize priority < 5
unfolding scheduler_priority_sanitize
sanitize_lt priority = ground arith

pub sanitize_same : (priority : ℕ) → priority < 5 → scheduler_priority_sanitize priority ≡ priority
unfolding scheduler_priority_sanitize
sanitize_same priority h = ground arith

-- A task on a list is one of the table's.
pub known_task :
    (tasks : List Task) (t : ℕ) (k : ListKind)
    → has_kind (get_or tasks t no_task) k ≡ true
    → (kind_value k == 0) ≡ false
    → t < length tasks
known_task [] t k h n = ground arith
known_task (task ∷ tasks) zero k h n = omega arith
known_task (task ∷ tasks) (suc t) k h n = omega (arith, known_task tasks t k h n)

module _ (s : Scheduler) (v : IsPlaced s) (c t : ℕ) (known : t < length s.tasks)
    (here : c < s.configured_cpu_count) where
  in_cpus : c < length s.cpus
  in_cpus = omega (arith, v.sized)

  five : length (cpu_at s c).runnable ≡ 5
  unfolding IsCpu
  five = (v.shaped c in_cpus).1

  numbered : (cpu_at s c).id ≡ c
  unfolding IsCpu
  numbered = (v.shaped c in_cpus).0

  pub enqueue-Moves :
      (cpu_at s c).online ≡ true
      → has_kind (task_at s t) no_list ≡ true
      → Moves s (scheduler_cpu_enqueue_runnable_local c t s) t
  unfolding scheduler_cpu_enqueue_runnable_local push_runnable IsCpu
  enqueue-Moves on off =
      let task = task_at s t in
      let cpu = cpu_at s c in
      let priority = scheduler_priority_sanitize task.priority in
      let s' = scheduler_cpu_enqueue_runnable_local c t s in
      let self : task_at s' t ≡ record task {
        priority = priority;
        assigned_cpu = cpu.id;
        assigned_numa_node = cpu.numa_node;
        state = runnable;
        ticks_in_slice = 0;
        runnable_enqueue_tick = s.system_ticks;
        list_kind = runnable_list;
      } =
        get_or-set_self s.tasks t _ no_task known in
      let small : priority < length cpu.runnable = omega (arith, five, sanitize_lt task.priority) in
      record {
        others = λ u n. get_or-set_ne s.tasks t u _ no_task n;
        lists = λ k u plain. rw (self) (ground (arith, not_plain k plain, off));
        queues = λ c' p u.
            rw (self)
              (ground (arith, off, numbered, occurs-push s.cpus c in_cpus priority t small c' p u));
        ready = rw (self) (
          λ e. (
            refl,
            sanitize_lt task.priority,
            omega (arith, numbered, here),
            subst (λ w. (get_or s'.cpus w no_cpu).online ≡ true) (sym numbered)
                (online-set s.cpus c in_cpus (push_runnable cpu priority t) refl c ∙ on),
          ),
          λ e. cc,
        );
        online = online-set s.cpus c in_cpus (push_runnable cpu priority t) refl;
        current = current-set s.cpus c in_cpus (push_runnable cpu priority t) refl;
        shaped = IsCpu-set s.cpus c in_cpus (push_runnable cpu priority t) (λ h.
            (h.0, length-set cpu.runnable priority (queue_at cpu priority ++ (t ∷ [])) ∙ h.1));
        same_length = length-set s.cpus c (push_runnable cpu priority t);
        same_count = refl;
        same_boot = refl;
      }

  pub remove-Moves :
      has_kind (task_at s t) runnable_list ≡ true
      → (task_at s t).assigned_cpu ≡ c
      → Moves s (remove_from_queue c t s) t
  unfolding remove_from_queue drop_runnable IsCpu
  remove-Moves on mine =
      let task = task_at s t in
      let cpu = cpu_at s c in
      let priority = scheduler_priority_sanitize task.priority in
      let s' = remove_from_queue c t s in
      let same : priority ≡ task.priority = sanitize_same task.priority ((v.ready t).0 on).1 in
      let self : task_at s' t ≡ record task { list_kind = no_list } =
        get_or-set_self s.tasks t _ no_task known in
      let small : priority < length cpu.runnable = omega (arith, five, sanitize_lt task.priority) in
      record {
        others = λ u n. get_or-set_ne s.tasks t u _ no_task n;
        lists = λ k u plain. rw (self) (ground (arith, not_plain k plain, on));
        queues = λ c' p u. rw (self) (elim (ℕ_discrete t u) [
          | yes e ↦ ground (
            arith,
            on,
            mine,
            same,
            e,
            ap (occurs (queue_at (cpu_at s c') p)) (sym e) ∙ v.queued c' p t,
            occurs-drop s.cpus c in_cpus priority t small c' p u,
          )
          | no n ↦ ground (arith, n, occurs-drop s.cpus c in_cpus priority t small c' p u)
        ]);
        ready = rw (self) (λ e. cc, λ e. refl);
        online = online-set s.cpus c in_cpus (drop_runnable cpu priority t) refl;
        current = current-set s.cpus c in_cpus (drop_runnable cpu priority t) refl;
        shaped = IsCpu-set s.cpus c in_cpus (drop_runnable cpu priority t) (λ h.
            (h.0, length-set cpu.runnable priority (without (queue_at cpu priority) t) ∙ h.1));
        same_length = length-set s.cpus c (drop_runnable cpu priority t);
        same_count = refl;
        same_boot = refl;
      }
