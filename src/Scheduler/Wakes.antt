-- ===== src/Scheduler/Wakes.antt =====
-- Every step of kernel/kernel/scheduler.c that wakes tasks keeps the invariant of the lists.
use dfos.Base.{
  ℕ, ◌<◌, ◌≢◌, true, ◌||◌, not, leb, ◌==◌, get_or, length, length-set, get_or-set_self, ◌≡◌, refl,
  ap, one_of, ◌∙◌, arith,
}
use dfos.Scheduler.State.{
  no_task, no_cpu, runnable, runnable_list, scheduler_priority_sanitize, Task, Scheduler, Processor,
  no_list, task_at, cpu_at, has_kind, scheduler_cpu_by_id, scheduler_current_cpu_state,
}
use dfos.Scheduler.Queues.{
  EnqueueReason, reschedule, wakeup, count_ipi, scheduler_notify_remote_runnable,
  scheduler_cpu_enqueue_runnable_local, scheduler_cpu_enqueue_runnable, scheduler_enqueue_runnable,
}
use dfos.Scheduler.Placed.{IsPlaced, Moves-IsPlaced}
use dfos.Scheduler.Keeps.{enqueue-Moves}

abbrev pub IsOnline : Scheduler → ℕ → Type 0
IsOnline s c = (c < s.configured_cpu_count) × ((cpu_at s c).online ≡ true)

pub cpu_by_id-IsOnline :
    (s : Scheduler) → IsPlaced s → (id : ℕ) → IsOnline s (scheduler_cpu_by_id s id)
unfolding scheduler_cpu_by_id
cpu_by_id-IsOnline s v id =
    one_of (IsOnline s) (leb s.configured_cpu_count id || not (cpu_at s id).online) s.boot_cpu_id id
      (λ h. v.booted) (λ h. (ground (arith, h), ground (arith, h)))

pub current_cpu_state-IsOnline :
    (p : Processor) (s : Scheduler) → IsPlaced s → IsOnline s (scheduler_current_cpu_state p s)
unfolding scheduler_current_cpu_state
current_cpu_state-IsOnline p s v =
    one_of (IsOnline s) (s.configured_cpu_count == 0) 0 _
      (λ h. absurd (ground (arith, h, v.booted.0)))
      (λ e.
        one_of (IsOnline s)
          (leb s.configured_cpu_count p.current_id || not (cpu_at s p.current_id).online)
          s.boot_cpu_id p.current_id (λ h. v.booted) (λ h. (ground (arith, h), ground (arith, h))))

count_ipi-IsPlaced :
    (reason : EnqueueReason) (id : ℕ) (s : Scheduler)
    → IsPlaced s
    → IsPlaced (count_ipi reason id s)
unfolding count_ipi
count_ipi-IsPlaced wakeup id s v = v
count_ipi-IsPlaced reschedule id s v = v

count_ipi-tasks :
    (reason : EnqueueReason) (id : ℕ) (s : Scheduler) → (count_ipi reason id s).tasks ≡ s.tasks
unfolding count_ipi
count_ipi-tasks wakeup id s = refl
count_ipi-tasks reschedule id s = refl

count_ipi-cpus :
    (reason : EnqueueReason) (id : ℕ) (s : Scheduler) → (count_ipi reason id s).cpus ≡ s.cpus
unfolding count_ipi
count_ipi-cpus wakeup id s = refl
count_ipi-cpus reschedule id s = refl

pub notify-IsPlaced :
    (p : Processor) (c : ℕ) (reason : EnqueueReason) (s : Scheduler)
    → IsPlaced s
    → IsPlaced (scheduler_notify_remote_runnable p c reason s)
unfolding scheduler_notify_remote_runnable
notify-IsPlaced p c reason s v =
    one_of IsPlaced _ s (count_ipi reason (cpu_at s c).id s) (λ h. v)
      (λ h. count_ipi-IsPlaced reason (cpu_at s c).id s v)

pub cpu_enqueue-IsPlaced :
    (p : Processor) (c t : ℕ) (reason : EnqueueReason) (s : Scheduler)
    → IsPlaced s
    → t < length s.tasks
    → has_kind (task_at s t) no_list ≡ true
    → c < s.configured_cpu_count
    → (cpu_at s c).online ≡ true
    → IsPlaced (scheduler_cpu_enqueue_runnable p c t reason s)
unfolding scheduler_cpu_enqueue_runnable
cpu_enqueue-IsPlaced p c t reason s v known off here on =
    notify-IsPlaced p c reason (scheduler_cpu_enqueue_runnable_local c t s) (
      Moves-IsPlaced s (scheduler_cpu_enqueue_runnable_local c t s) t v
        (enqueue-Moves s v c t known here on off))

pub enqueue-IsPlaced :
    (p : Processor) (t : ℕ) (reason : EnqueueReason) (s : Scheduler)
    → IsPlaced s
    → t < length s.tasks
    → has_kind (task_at s t) no_list ≡ true
    → IsPlaced (scheduler_enqueue_runnable p t reason s)
unfolding scheduler_enqueue_runnable
enqueue-IsPlaced p t reason s v known off =
    let (here, on) = cpu_by_id-IsOnline s v (task_at s t).assigned_cpu in
    cpu_enqueue-IsPlaced p (scheduler_cpu_by_id s (task_at s t).assigned_cpu) t reason s v known off
      here on

pub notify-tasks :
    (p : Processor) (c : ℕ) (reason : EnqueueReason) (s : Scheduler)
    → (scheduler_notify_remote_runnable p c reason s).tasks ≡ s.tasks
unfolding scheduler_notify_remote_runnable
notify-tasks p c reason s =
    one_of (λ s'. s'.tasks ≡ s.tasks) _ s (count_ipi reason (cpu_at s c).id s) (λ h. refl)
      (λ h. count_ipi-tasks reason (cpu_at s c).id s)

pub notify-cpus :
    (p : Processor) (c : ℕ) (reason : EnqueueReason) (s : Scheduler)
    → (scheduler_notify_remote_runnable p c reason s).cpus ≡ s.cpus
unfolding scheduler_notify_remote_runnable
notify-cpus p c reason s =
    one_of (λ s'. s'.cpus ≡ s.cpus) _ s (count_ipi reason (cpu_at s c).id s) (λ h. refl)
      (λ h. count_ipi-cpus reason (cpu_at s c).id s)

-- The task is in a run queue now; nothing else changed that matters.
pub record Joined (s s' : Scheduler) (t : ℕ) : Type 0 where
  pub placed : IsPlaced s'
  pub others : (u : ℕ) → t ≢ u → task_at s' u ≡ task_at s u
  pub state : (task_at s' t).state ≡ runnable
  pub kind : (task_at s' t).list_kind ≡ runnable_list
  pub frame : (task_at s' t).frame ≡ (task_at s t).frame
  pub result : (task_at s' t).wait_result ≡ (task_at s t).wait_result
  pub priority : (task_at s' t).priority ≡ scheduler_priority_sanitize (task_at s t).priority
  pub current : (c : ℕ) → (cpu_at s' c).current ≡ (cpu_at s c).current
  pub online : (c : ℕ) → (cpu_at s' c).online ≡ (cpu_at s c).online
  pub same_cpus : length s'.cpus ≡ length s.cpus
  pub same_tasks : length s'.tasks ≡ length s.tasks

pub cpu_enqueue-Joined :
    (p : Processor) (c t : ℕ) (reason : EnqueueReason) (s : Scheduler)
    → IsPlaced s
    → t < length s.tasks
    → has_kind (task_at s t) no_list ≡ true
    → c < s.configured_cpu_count
    → (cpu_at s c).online ≡ true
    → Joined s (scheduler_cpu_enqueue_runnable p c t reason s) t
unfolding scheduler_cpu_enqueue_runnable scheduler_cpu_enqueue_runnable_local
cpu_enqueue-Joined p c t reason s v known off here on =
    let queued = scheduler_cpu_enqueue_runnable_local c t s in
    let m = enqueue-Moves s v c t known here on off in
    let tasks = notify-tasks p c reason queued in
    let cpus = notify-cpus p c reason queued in
    let same =
      ap (λ tasks. get_or tasks t no_task) tasks ∙ get_or-set_self s.tasks t _ no_task known in
    record {
      placed = cpu_enqueue-IsPlaced p c t reason s v known off here on;
      others = λ u n. ap (λ tasks. get_or tasks u no_task) tasks ∙ m.others u n;
      state = ap (λ (task : Task). task.state) same;
      kind = ap (λ (task : Task). task.list_kind) same;
      frame = ap (λ (task : Task). task.frame) same;
      result = ap (λ (task : Task). task.wait_result) same;
      priority = ap (λ (task : Task). task.priority) same;
      current = λ d. ap (λ cpus. (get_or cpus d no_cpu).current) cpus ∙ m.current d;
      online = λ d. ap (λ cpus. (get_or cpus d no_cpu).online) cpus ∙ m.online d;
      same_cpus = ap length cpus ∙ m.same_length;
      same_tasks = ap length tasks ∙ length-set s.tasks t _;
    }

pub enqueue-Joined :
    (p : Processor) (t : ℕ) (reason : EnqueueReason) (s : Scheduler)
    → IsPlaced s
    → t < length s.tasks
    → has_kind (task_at s t) no_list ≡ true
    → Joined s (scheduler_enqueue_runnable p t reason s) t
unfolding scheduler_enqueue_runnable
enqueue-Joined p t reason s v known off =
    let (here, on) = cpu_by_id-IsOnline s v (task_at s t).assigned_cpu in
    cpu_enqueue-Joined p (scheduler_cpu_by_id s (task_at s t).assigned_cpu) t reason s v known off
      here on
