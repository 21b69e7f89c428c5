-- ===== src/Scheduler/Slots.antt =====
-- The slots of kernel/kernel/scheduler.c: a task is created in a free one and a dead task's is given back.
use dfos.Base.{
  ℕ, zero, suc, ◌<◌, true, ◌||◌, not, List, [], ◌∷◌, ◌++◌, Option, none, some, set, length,
  length-set, get_or-set_self, ◌≡◌, refl, ap, one_of, subst, arith,
}
use dfos.Scheduler.State.{
  Scheduler, Task, no_list, free_list, zombie_list, no_task, zombie, task_at, has_state, has_kind,
  without, task_reset,
}
use dfos.Scheduler.Queues.{scheduler_allocate_task_slot, scheduler_release_task_slot}
use dfos.Scheduler.Waiting.{
  scheduler_detach_zombie_task_locked, scheduler_task_is_current_on_any_cpu_locked,
}
use dfos.Scheduler.Placed.{IsPlaced, Moves-IsPlaced}
use dfos.Scheduler.Keeps.{known_task}
use dfos.Scheduler.Plain.{Changed-by, leave-Moves, join-Moves}
use dfos.Scheduler.Woken.{Pending-first, IsPlaced-Pending, Pending}

-- What an allocation leaves: the task, if there is one, is on no list, and reset.
unfoldable pub IsAllocated : ℕ → Option ℕ × Scheduler → Type 0
IsAllocated boot_cpu_id (none, s) = IsPlaced s
IsAllocated boot_cpu_id (some t, s) =
    IsPlaced s × (t < length s.tasks) × (task_at s t ≡ task_reset boot_cpu_id)

allocated :
    (s : Scheduler)
    → IsPlaced s
    → (list : List ℕ) → s.free_tasks ≡ list
    → IsAllocated s.boot_cpu_id (elim list [
      | [] ↦ (none, s)
      | t ∷ rest ↦
          (some t, record s { free_tasks = rest; tasks = set s.tasks t (task_reset s.boot_cpu_id) })
    ])
unfolding IsAllocated task_reset without
allocated s v [] e = v
allocated s v (t ∷ rest) e =
    let s' = record s { free_tasks = rest; tasks = set s.tasks t (task_reset s.boot_cpu_id) } in
    let on =
      Pending-first s free_list t rest
        (subst (Pending s free_list) e (IsPlaced-Pending s v free_list refl)) in
    let known = known_task s.tasks t free_list on refl in
    let changed : rest ≡ without s.free_tasks t = rw (e) (ground arith) in
    (
      Moves-IsPlaced s s' t v (
          leave-Moves s s' v t known (task_reset s.boot_cpu_id)
            (record { table = refl; processors = refl; counts = (refl, refl) }) free_list refl on
            refl (Changed-by s s' free_list (without s.free_tasks t) changed refl refl refl refl)),
      omega (arith, known, length-set s.tasks t (task_reset s.boot_cpu_id)),
      get_or-set_self s.tasks t (task_reset s.boot_cpu_id) no_task known,
    )

pub allocate-IsAllocated :
    (s : Scheduler) → IsPlaced s → IsAllocated s.boot_cpu_id (scheduler_allocate_task_slot s)
unfolding scheduler_allocate_task_slot
allocate-IsAllocated s v = allocated s v s.free_tasks refl

pub release-IsPlaced :
    (t : ℕ) (s : Scheduler)
    → IsPlaced s
    → t < length s.tasks
    → has_kind (task_at s t) no_list ≡ true
    → IsPlaced (scheduler_release_task_slot t s)
unfolding scheduler_release_task_slot task_reset
release-IsPlaced t s v known off =
    let s' = scheduler_release_task_slot t s in
    Moves-IsPlaced s s' t v (
      join-Moves s s' v t known _
        (record { table = refl; processors = refl; counts = (refl, refl) }) free_list refl off refl
        refl (Changed-by s s' free_list (s.free_tasks ++ (t ∷ [])) refl refl refl refl refl))

set-set : (tasks : List Task) (t : ℕ) (a b : Task) → set (set tasks t a) t b ≡ set tasks t b
set-set [] t a b = refl
set-set (x ∷ tasks) zero a b = refl
set-set (x ∷ tasks) (suc t) a b = ap (λ rest. x ∷ rest) (set-set tasks t a b)

-- A zombie that leaves its list and gives its slot back.
pub released-IsPlaced :
    (t : ℕ) (s : Scheduler)
    → IsPlaced s
    → has_kind (task_at s t) zombie_list ≡ true
    → IsPlaced
        (scheduler_release_task_slot t (record s { zombie_tasks = without s.zombie_tasks t }))
unfolding scheduler_release_task_slot
released-IsPlaced t s v on =
    let known = known_task s.tasks t zombie_list on refl in
    let idle = record (task_at s t) { list_kind = no_list } in
    let off = record s { zombie_tasks = without s.zombie_tasks t; tasks = set s.tasks t idle } in
    let placed = Moves-IsPlaced s off t v (
      leave-Moves s off v t known idle
        (record { table = refl; processors = refl; counts = (refl, refl) }) zombie_list refl on refl
        (Changed-by s off zombie_list (without s.zombie_tasks t) refl refl refl refl refl)) in
    let done =
      release-IsPlaced t off placed (omega (arith, known, length-set s.tasks t idle))
        (rw (get_or-set_self s.tasks t idle no_task known) refl) in
    subst (λ tasks. IsPlaced (record (scheduler_release_task_slot t off) { tasks = tasks }))
      (set-set s.tasks t idle _) done

pub detach-IsPlaced :
    (t : ℕ) (s : Scheduler) → IsPlaced s → IsPlaced (scheduler_detach_zombie_task_locked t s).1
unfolding scheduler_detach_zombie_task_locked
detach-IsPlaced t s v =
    one_of (λ (r : Option (ℕ × ℕ) × Scheduler). IsPlaced r.1)
      ((not (has_state (task_at s t) zombie) || not (has_kind (task_at s t) zombie_list))
        || scheduler_task_is_current_on_any_cpu_locked s t)
      (none, s) _ (λ h. v) (λ h. released-IsPlaced t s v (ground (arith, h)))
