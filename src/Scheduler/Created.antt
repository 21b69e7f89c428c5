-- ===== src/Scheduler/Created.antt =====
-- Creating tasks in kernel/kernel/scheduler.c keeps the invariant of the lists, whatever paging answers.
use dfos.Base.{
  ℕ, ◌<◌, Bool, true, false, ◌||◌, List, [], ◌∷◌, ◌==◌, Option, none, some, set, length, length-set,
  get_or-set_self, ◌≡◌, refl, ap, one_of, option_of, arith,
}
use dfos.Base.Words.{add32}
use dfos.Scheduler.State.{
  Scheduler, Processor, Task, no_list, no_task, task_at, cpu_at, put_task, has_kind, task_reset,
  scheduler_cpu_by_id,
}
use dfos.Scheduler.Queues.{scheduler_release_task_slot, scheduler_allocate_task_slot, reschedule}
use dfos.Scheduler.Tasks.{
  TaskConfig, PagingAnswers, Release, free_pages, destroy_process_space,
  scheduler_select_target_cpu, publish_task, equip_task, with_slot, scheduler_create_kernel_task_ex,
  effective_config, filled_task, bootstrap_task, fill_bootstrap, scheduler_online_cpu_mask,
  scheduler_bootstrap_cpu_task, bootstrap_slot,
}
use dfos.Scheduler.Placed.{IsPlaced, Moves-IsPlaced}
use dfos.Scheduler.Plain.{plain-Moves}
use dfos.Scheduler.Alike.{AlikeCpu-set, cpus-IsPlaced}
use dfos.Scheduler.Wakes.{cpu_by_id-IsOnline, cpu_enqueue-IsPlaced}
use dfos.Scheduler.Slots.{IsAllocated, allocate-IsAllocated, release-IsPlaced}

-- A task that stays off all lists and that does not run.
module _ (s : Scheduler) (v : IsPlaced s) (t : ℕ) (known : t < length s.tasks)
    (off : has_kind (task_at s t) no_list ≡ true) where
  pub put_task-IsPlaced :
      (task : Task) → has_kind task no_list ≡ true → IsPlaced (put_task s t task)
  put_task-IsPlaced task h = Moves-IsPlaced s (put_task s t task) t v (
      plain-Moves s (put_task s t task) v t known task
        (record { table = refl; processors = refl; counts = (refl, refl) }) (ground (arith, off))
        (ground (arith, h)) (λ k. h) (λ k u plain. ground (arith, off, h)))

  publish-IsPlaced :
      (p : Processor) (config : TaskConfig) (entry arg space stack : ℕ)
      → IsPlaced (publish_task p config t entry arg space stack s)
  unfolding publish_task filled_task
  publish-IsPlaced p config entry arg space stack =
      let c =
        scheduler_cpu_by_id s
          (scheduler_select_target_cpu p s config.cpu_affinity_mask config.preferred_numa_node) in
      let cpu = cpu_at s c in
      let task = filled_task config s.next_task_id cpu entry arg space stack (task_at s t) in
      let filled = record (put_task s t task) { next_task_id = add32 s.next_task_id 1 } in
      let still : has_kind task no_list ≡ true = off in
      let (here, on) =
        cpu_by_id-IsOnline s v
          (scheduler_select_target_cpu p s config.cpu_affinity_mask config.preferred_numa_node) in
      cpu_enqueue-IsPlaced p c t reschedule filled (put_task-IsPlaced task still)
        (omega (arith, known, length-set s.tasks t task))
        (rw (get_or-set_self s.tasks t task no_task known) still) here on

  bootstrap-IsPlaced :
      (c kernel_stack_top kernel_space : ℕ)
      → IsPlaced (fill_bootstrap c kernel_stack_top kernel_space t s)
  unfolding fill_bootstrap bootstrap_task
  bootstrap-IsPlaced c kernel_stack_top kernel_space =
      let task =
        bootstrap_task s.next_task_id (cpu_at s c) (scheduler_online_cpu_mask s) kernel_stack_top
          kernel_space (task_at s t) in
      let cpu = record (cpu_at s c) { current = some t } in
      cpus-IsPlaced (set s.tasks t task) s.cpus (set s.cpus c cpu) s.free_tasks s.sleeping_tasks
        s.blocked_tasks s.zombie_tasks s.configured_cpu_count s.boot_cpu_id
        (length-set s.cpus c cpu)
        (AlikeCpu-set s.cpus c cpu (record { id = refl; online = refl; runnable = refl }))
        (put_task-IsPlaced task off)

equip-IsPlaced :
    (p : Processor) (paging : PagingAnswers) (node : ℕ) (config : TaskConfig) (t entry arg : ℕ)
    (s : Scheduler)
    → IsPlaced s
    → t < length s.tasks
    → has_kind (task_at s t) no_list ≡ true
    → IsPlaced (equip_task p paging node config t entry arg s).2
unfolding equip_task
equip-IsPlaced p paging node config t entry arg s v known off =
    option_of (λ (r : Bool × List Release × Scheduler). IsPlaced r.2)
      (paging.create_process_space_on_node node) _ _ (release-IsPlaced t s v known off)
      (λ space.
        option_of (λ (r : Bool × List Release × Scheduler). IsPlaced r.2)
          (paging.alloc_pages_on_node node) _ _ (release-IsPlaced t s v known off)
          (λ stack.
            one_of (λ (r : Bool × List Release × Scheduler). IsPlaced r.2)
              (s.configured_cpu_count == 0)
              (
                false,
                free_pages stack ∷ destroy_process_space space ∷ [],
                scheduler_release_task_slot t s,
              )
              (true, [], publish_task p config t entry arg space stack s)
              (λ h. release-IsPlaced t s v known off)
              (λ h. publish-IsPlaced s v t known off p config entry arg space stack)))

slot_kind :
    (boot t : ℕ) (s : Scheduler)
    → task_at s t ≡ task_reset boot
    → has_kind (task_at s t) no_list ≡ true
unfolding task_reset
slot_kind boot t s e = ap (λ task. has_kind task no_list) e

with_slot-IsPlaced :
    (p : Processor) (paging : PagingAnswers) (node : ℕ) (config : TaskConfig) (entry arg boot : ℕ)
    (r : Option ℕ × Scheduler)
    → IsAllocated boot r
    → IsPlaced (with_slot p paging node config entry arg r).2
unfolding with_slot IsAllocated
with_slot-IsPlaced p paging node config entry arg boot (none, s) h = h
with_slot-IsPlaced p paging node config entry arg boot (some t, s) h =
    equip-IsPlaced p paging node config t entry arg s h.0 h.1 (slot_kind boot t s h.2)

pub scheduler_create_kernel_task_ex-IsPlaced :
    (p : Processor) (paging : PagingAnswers) (entry arg : ℕ) (config : TaskConfig) (s : Scheduler)
    → IsPlaced s
    → IsPlaced (scheduler_create_kernel_task_ex p paging entry arg config s).2
unfolding scheduler_create_kernel_task_ex
scheduler_create_kernel_task_ex-IsPlaced p paging entry arg config s v =
    let effective = effective_config s config in
    one_of (λ (r : Bool × List Release × Scheduler). IsPlaced r.2)
      (entry == 0 || s.configured_cpu_count == 0) _ _ (λ h. v)
      (λ h.
        with_slot-IsPlaced p paging _ effective entry arg s.boot_cpu_id
          (scheduler_allocate_task_slot s) (allocate-IsAllocated s v))

slot-IsPlaced :
    (c kernel_stack_top kernel_space boot : ℕ) (r : Option ℕ × Scheduler)
    → IsAllocated boot r
    → IsPlaced (bootstrap_slot c kernel_stack_top kernel_space r).1
unfolding IsAllocated
slot-IsPlaced c kernel_stack_top kernel_space boot (none, s) h = h
slot-IsPlaced c kernel_stack_top kernel_space boot (some t, s) h =
    bootstrap-IsPlaced s h.0 t h.1 (slot_kind boot t s h.2) c kernel_stack_top kernel_space

pub scheduler_bootstrap_cpu_task-IsPlaced :
    (c kernel_stack_top kernel_space : ℕ) (s : Scheduler)
    → IsPlaced s
    → IsPlaced (scheduler_bootstrap_cpu_task c kernel_stack_top kernel_space s).1
unfolding scheduler_bootstrap_cpu_task
scheduler_bootstrap_cpu_task-IsPlaced c kernel_stack_top kernel_space s v =
    one_of (λ (r : Option ℕ × Scheduler). IsPlaced r.1) _ (none, s) _ (λ h. v)
      (λ h.
        slot-IsPlaced c kernel_stack_top kernel_space s.boot_cpu_id (scheduler_allocate_task_slot s)
          (allocate-IsAllocated s v))
