-- ===== src/Scheduler/Detached.antt =====
-- When `scheduler_detach_zombie_task_locked` of kernel/kernel/scheduler.c takes a zombie.
use dfos.Base.{
  ℕ, zero, suc, ◌+◌, ◌≤◌, ◌<◌, ◌||◌, true, false, not, List, [], ◌∷◌, ◌==◌, Option, none, some,
  length, ◌≡◌, ◌≢◌, refl, ap, subst, one_of, arith, ◌⊎◌, inl, inr, Bool-cases, get_or-set_self,
  get_or-set_ne,
}
use native.Mathlib.Decide.{ℕ_discrete}
use dfos.Scheduler.State.{
  Scheduler, Task, free_list, zombie, zombie_list, no_task, task_at, cpu_at, has_state, has_kind,
  without,
}
use dfos.Scheduler.Queues.{scheduler_release_task_slot}
use dfos.Scheduler.Waiting.{
  scheduler_detach_zombie_task_locked, scheduler_task_is_current_on_any_cpu_locked, detach_first,
  is_current_from,
}
use dfos.Scheduler.Placed.{IsPlaced, occurs}
use dfos.Scheduler.Keeps.{known_task}
use dfos.Scheduler.Running.{some_injective}
use dfos.Scheduler.Slots.{released-IsPlaced}

-- No processor online runs on the stack of the task, or one does.
abbrev pub OffCpu : Scheduler → ℕ → Type 0
OffCpu s t =
    (c : ℕ)
    → c < s.configured_cpu_count
    → (cpu_at s c).online ≡ true
    → (cpu_at s c).current ≢ some t

abbrev pub OnCpu : Scheduler → ℕ → Type 0
OnCpu s t =
    (c : ℕ) × (c < s.configured_cpu_count)
    × ((cpu_at s c).online ≡ true)
    × ((cpu_at s c).current ≡ some t)

-- A task of the list that must stay: it is no zombie, or its stack is in use.
abbrev pub MustStay : Scheduler → ℕ → Type 0
MustStay s t = (has_state (task_at s t) zombie ≡ false) ⊎ OnCpu s t

is_some :
    (current : Option ℕ) (t : ℕ)
    → elim current [ none ↦ false | some u ↦ u == t ] ≡ true
    → current ≡ some t
is_some none t h = cc
is_some (some u) t h = ap some (ground (arith, h))

is_not :
    (current : Option ℕ) (t : ℕ)
    → elim current [ none ↦ false | some u ↦ u == t ] ≡ false
    → current ≢ some t
is_not none t h e = cc
is_not (some u) t h e = ground (arith, h, some_injective u t e)

module _ (s : Scheduler) (t : ℕ) where
  is_current_from-on :
      (cpu rounds : ℕ)
      → is_current_from s t cpu rounds ≡ true
      → (c : ℕ) × (c < cpu + rounds)
        × ((cpu_at s c).online ≡ true)
        × ((cpu_at s c).current ≡ some t)
  unfolding is_current_from
  is_current_from-on cpu zero h = cc
  is_current_from-on cpu (suc rounds) h = elim (Bool-cases (is_current_from s t (cpu + 1) rounds)) [
    | inl k ↦ let (c, lt, on, e) = is_current_from-on (cpu + 1) rounds k in (c, omega arith, on, e)
    | inr k ↦ (
      cpu,
      omega arith,
      ground (arith, h, k),
      is_some (cpu_at s cpu).current t (ground (arith, h, k)),
    )
  ]

  is_current_from-off :
      (cpu rounds : ℕ)
      → is_current_from s t cpu rounds ≡ false
      → (c : ℕ) → cpu ≤ c
      → c < cpu + rounds
      → (cpu_at s c).online ≡ true
      → (cpu_at s c).current ≢ some t
  unfolding is_current_from
  is_current_from-off cpu zero h c lo hi on = absurd (omega arith)
  is_current_from-off cpu (suc rounds) h c lo hi on = elim (ℕ_discrete cpu c) [
    | yes e ↦
        subst (λ w. (cpu_at s w).online ≡ true → (cpu_at s w).current ≢ some t) e
          (λ on. is_not (cpu_at s cpu).current t (ground (arith, h, on))) on
    | no n ↦
        is_current_from-off (cpu + 1) rounds (ground (arith, h)) c (omega (arith, n)) (omega arith)
          on
  ]

-- The task is taken: it was a zombie that ran nowhere. Its slot is free, all else stays.
pub record Taken (s : Scheduler) (t : ℕ) (s' : Scheduler) : Type 0 where
  pub placed : IsPlaced s'
  pub was_zombie : has_state (task_at s t) zombie ≡ true
  pub was_listed : has_kind (task_at s t) zombie_list ≡ true
  pub off : OffCpu s t
  pub fewer : length s'.zombie_tasks + 1 ≡ length s.zombie_tasks
  pub freed : (task_at s' t).list_kind ≡ free_list
  pub others : (u : ℕ) → t ≢ u → task_at s' u ≡ task_at s u
  pub cpus : s'.cpus ≡ s.cpus
  pub count : s'.configured_cpu_count ≡ s.configured_cpu_count

length-without :
    (list : List ℕ) (t : ℕ) → 0 < occurs list t → length (without list t) + 1 ≡ length list
unfolding occurs without
length-without [] t h = absurd (omega (arith, h))
length-without (u ∷ list) t h =
    one_of (λ rest. length rest + 1 ≡ suc (length list)) (u == t) list (u ∷ without list t)
      (λ k. omega arith) (λ k. omega (arith, length-without list t (ground (arith, h, k))))

taken :
    (t : ℕ) (s : Scheduler)
    → IsPlaced s
    → has_state (task_at s t) zombie ≡ true
    → has_kind (task_at s t) zombie_list ≡ true
    → scheduler_task_is_current_on_any_cpu_locked s t ≡ false
    → Taken s t
        (scheduler_release_task_slot t (record s { zombie_tasks = without s.zombie_tasks t }))
unfolding scheduler_release_task_slot scheduler_task_is_current_on_any_cpu_locked
taken t s v state kind idle =
    let known = known_task s.tasks t zombie_list kind refl in
    record {
      placed = released-IsPlaced t s v kind;
      was_zombie = state;
      was_listed = kind;
      off = λ c lt on.
          is_current_from-off s t 0 s.configured_cpu_count idle c (omega arith) (omega arith) on;
      fewer = length-without s.zombie_tasks t (ground (arith, kind, v.listed zombie_list t refl));
      freed = ap (λ (task : Task). task.list_kind) (get_or-set_self s.tasks t _ no_task known);
      others = λ u n. get_or-set_ne s.tasks t u _ no_task n;
      cpus = refl;
      count = refl;
    }

-- A search through a list takes a task, or every task of the list must stay.
unfoldable pub IsDetached : List ℕ → Scheduler → Option (ℕ × ℕ) × Scheduler → Type 0
IsDetached list s (none, s') =
    (s' ≡ s)
    × ((u : ℕ) → 0 < occurs list u → has_kind (task_at s u) zombie_list ≡ true → MustStay s u)
IsDetached list s (some r, s') = (t : ℕ) × Taken s t s'

MustStay-busy :
    (t : ℕ) (s : Scheduler)
    → ((not (has_state (task_at s t) zombie) || not (has_kind (task_at s t) zombie_list))
        || scheduler_task_is_current_on_any_cpu_locked s t)
      ≡ true
    → has_kind (task_at s t) zombie_list ≡ true
    → MustStay s t
unfolding scheduler_task_is_current_on_any_cpu_locked
MustStay-busy t s h kind = elim (Bool-cases (has_state (task_at s t) zombie)) [
  | inr no_zombie ↦ inl no_zombie
  | inl is_zombie ↦
      let (c, lt, on, e) =
        is_current_from-on s t 0 s.configured_cpu_count (ground (arith, h, kind, is_zombie)) in
      inr (c, omega arith, on, e)
]

one_task :
    (t : ℕ) (s : Scheduler)
    → IsPlaced s
    → IsDetached (t ∷ []) s (scheduler_detach_zombie_task_locked t s)
unfolding scheduler_detach_zombie_task_locked IsDetached occurs
one_task t s v =
    one_of (IsDetached (t ∷ []) s)
      ((not (has_state (task_at s t) zombie) || not (has_kind (task_at s t) zombie_list))
        || scheduler_task_is_current_on_any_cpu_locked s t)
      (none, s)
      (
        some ((task_at s t).stack_base, (task_at s t).space),
        scheduler_release_task_slot t (record s { zombie_tasks = without s.zombie_tasks t }),
      )
      (λ h. (
        refl,
        λ u k kind.
            let e : t ≡ u = ground (arith, k) in
            subst (λ w. has_kind (task_at s w) zombie_list ≡ true → MustStay s w) e
              (MustStay-busy t s h) kind,
      ))
      (λ h. (t, taken t s v (ground (arith, h)) (ground (arith, h)) (ground (arith, h))))

pub detach_first-IsDetached :
    (list : List ℕ) (s : Scheduler) → IsPlaced s → IsDetached list s (detach_first list s)
unfolding detach_first IsDetached occurs
detach_first-IsDetached [] s v = (refl, λ u h kind. absurd (omega (arith, h)))
detach_first-IsDetached (t ∷ list) s v =
    found (scheduler_detach_zombie_task_locked t s) (detach_first list s) (one_task t s v)
      (detach_first-IsDetached list s v)
  where
    found :
        (r rest : Option (ℕ × ℕ) × Scheduler)
        → IsDetached (t ∷ []) s r
        → IsDetached list s rest
        → IsDetached
            (t ∷ list)
            s
            (elim r.0 [ some resources ↦ (some resources, r.1) | none ↦ rest ])
    found (none, s') (none, s'') (e, h) (f, k) = (
      f,
      λ u l kind. elim (ℕ_discrete t u) [
        | yes same ↦ h u (ground (arith, same)) kind
        | no other ↦ k u (ground (arith, l, other)) kind
      ],
    )
    found (none, s') (some r, s'') h k = k
    found (some r, s') rest h k = h
