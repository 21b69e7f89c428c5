-- ===== src/Scheduler/Running.antt =====
-- What the choice and the start of the next task in kernel/kernel/scheduler.c leave.
use dfos.Base.{
  ℕ, zero, suc, ◌<◌, true, false, List, [], ◌∷◌, if◌then◌else◌, Option, none, some, get_or, set,
  length, length-set, get_or-set_self, get_or-set_ne, ◌≡◌, refl, sym, ap, one_of, ◌∙◌, subst, arith,
}
use dfos.Scheduler.State.{
  Scheduler, Task, Cpu, no_list, no_cpu, no_task, running, task_at, cpu_at, queue_at, has_state,
  has_kind, put_task,
}
use dfos.Scheduler.Dispatch.{
  stay_on, run_next, scheduler_switch_to_task, is_running, pick_next, enter_task,
}
use dfos.Scheduler.Placed.{IsPlaced, Moves-IsPlaced}
use dfos.Scheduler.Plain.{plain-Moves}
use dfos.Scheduler.Alike.{AlikeCpu-set, cpus-IsPlaced}
use dfos.Scheduler.Next.{IsNext, Dequeued, dequeue-Dequeued}
use dfos.Scheduler.Yields.{Picked}

pub running_task :
    (tasks : List Task) (t : ℕ)
    → has_state (get_or tasks t no_task) running ≡ true
    → t < length tasks
running_task [] t h = absurd (ground arith)
running_task (task ∷ tasks) zero h = omega arith
running_task (task ∷ tasks) (suc t) h = omega (arith, running_task tasks t h)

pub some_injective : (t u : ℕ) → some t ≡ some u → t ≡ u
some_injective t u e = ap (λ x. elim x [ none ↦ t | some w ↦ w ]) e

module _ (c t : ℕ) (s : Scheduler) (v : IsPlaced s) (here : c < length s.cpus)
    (known : t < length s.tasks) (idle : has_kind (task_at s t) no_list ≡ true) where
  abbrev started : Task
  started = record (task_at s t) { state = running; ticks_in_slice = 0 }

  started-IsPlaced : IsPlaced (put_task s t started)
  started-IsPlaced = Moves-IsPlaced s (put_task s t started) t v (
      plain-Moves s (put_task s t started) v t known started
        (record { table = refl; processors = refl; counts = (refl, refl) }) (ground (arith, idle))
        (ground (arith, idle)) (λ h. idle) (λ k u plain. refl))

  switched-IsPlaced : IsPlaced (record (put_task s t started) {
    cpus = set s.cpus c (record (cpu_at s c) { current = some t });
  })
  switched-IsPlaced =
      cpus-IsPlaced (set s.tasks t started) s.cpus
        (set s.cpus c (record (cpu_at s c) { current = some t })) s.free_tasks s.sleeping_tasks
        s.blocked_tasks s.zombie_tasks s.configured_cpu_count s.boot_cpu_id (length-set s.cpus c _)
        (AlikeCpu-set s.cpus c (record (cpu_at s c) { current = some t })
          (record { id = refl; online = refl; runnable = refl }))
        started-IsPlaced

  -- The state with the task started, whatever else it counts.
  started-Picked :
      (before s' : Scheduler)
      → IsNext c before (some t) s
      → Dequeued c before (some t) s
      → IsPlaced s'
      → s'.tasks ≡ set s.tasks t started
      → s'.cpus ≡ set s.cpus c (record (cpu_at s c) { current = some t })
      → Picked c before t (task_at s t).frame s'
  unfolding IsNext
  started-Picked before s' chosen d placed e f =
      let (a, b, head, higher, rest) = chosen in
      let self : task_at s' t ≡ started =
        ap (λ tasks. get_or tasks t no_task) e ∙ get_or-set_self s.tasks t started no_task known in
      let cpu = record (cpu_at s c) { current = some t } in
      let queue : (d q : ℕ) → queue_at (cpu_at s' d) q ≡ queue_at (cpu_at s d) q = λ d q.
        ap (λ cpus. queue_at (get_or cpus d no_cpu) q) f
        ∙ ap (λ runnable. get_or runnable q [])
            (AlikeCpu-set s.cpus c cpu (record { id = refl; online = refl; runnable = refl })
              d).runnable in
      record {
        placed = placed;
        runs = ap (λ task. has_state task running) self;
        current =
            ap (λ cpus. (get_or cpus c no_cpu).current) f
            ∙ ap (λ (cpu : Cpu). cpu.current) (get_or-set_self s.cpus c cpu no_cpu here);
        slice = ap (λ (task : Task). task.ticks_in_slice) self;
        registers = d.frame t;
        first = head ∙ ap (λ list. t ∷ list) (sym (queue c (task_at before t).priority));
        highest = higher;
        others = λ u n.
            ap (λ tasks. get_or tasks u no_task) e
            ∙ get_or-set_ne s.tasks t u started no_task n
            ∙ d.others u (λ k. n (some_injective t u k));
        queues = λ d q other. queue d q ∙ rest d q other;
        currents = λ c' n.
            ap (λ cpus. (get_or cpus c' no_cpu).current) f
            ∙ ap (λ (cpu : Cpu). cpu.current) (get_or-set_ne s.cpus c c' cpu no_cpu n)
            ∙ d.current c';
      }

  pub run_next-Picked :
      (before : Scheduler)
      → IsNext c before (some t) s
      → Dequeued c before (some t) s
      → Picked c before t (run_next c t s).0 (run_next c t s).1
  unfolding run_next
  run_next-Picked before chosen d =
      one_of (λ s'. Picked c before t (task_at s t).frame (enter_task started s')) _ _ _
        (λ h. started-Picked before _ chosen d switched-IsPlaced refl refl)
        (λ h. started-Picked before _ chosen d switched-IsPlaced refl refl)

-- With no task running, the first queued one starts, or none is queued.
abbrev pub IsPick : ℕ → Scheduler → Option (ℕ × Scheduler) → Type 0
IsPick c s none = (q : ℕ) → q < 5 → queue_at (cpu_at s c) q ≡ []
IsPick c s (some (frame, s')) = (t : ℕ) × Picked c s t frame s'

stay_on-IsPick :
    (c frame : ℕ) (s : Scheduler)
    → ((q : ℕ) → q < 5 → queue_at (cpu_at s c) q ≡ [])
    → (current : Option ℕ) → is_running s current ≡ false
    → IsPick c s (elim current [
      | none ↦ none
      | some t ↦
          if has_state (task_at s t) running then some (frame, enter_task (task_at s t) s) else none
    ])
stay_on-IsPick c frame s empty none idle = empty
stay_on-IsPick c frame s empty (some t) idle =
    one_of (IsPick c s) (has_state (task_at s t) running) _ none
      (λ h. absurd (ground (arith, h, idle))) (λ h. empty)

switch-IsPick :
    (c frame : ℕ) (s s' : Scheduler) (next : Option ℕ)
    → c < length s.cpus
    → is_running s (cpu_at s c).current ≡ false
    → Dequeued c s next s'
    → IsPick c s (scheduler_switch_to_task c next frame s')
unfolding IsNext scheduler_switch_to_task stay_on
switch-IsPick c frame s s' none here idle d =
    subst (λ w. IsPick c s (stay_on c frame w)) (sym d.chosen.1)
      (stay_on-IsPick c frame s d.chosen.0 (cpu_at s c).current idle)
switch-IsPick c frame s s' (some t) here idle d = (
  t,
  run_next-Picked c t s' d.placed (omega (arith, d.same_cpus, here))
      (omega (arith, d.same_tasks, d.chosen.0)) d.chosen.1 s d.chosen d,
)

pub pick_next-IsPick :
    (c frame : ℕ) (s : Scheduler)
    → IsPlaced s
    → c < length s.cpus
    → is_running s (cpu_at s c).current ≡ false
    → IsPick c s (pick_next c frame s)
unfolding pick_next
pick_next-IsPick c frame s v here idle =
    switch-IsPick c frame s _ _ here idle (dequeue-Dequeued c s v)
