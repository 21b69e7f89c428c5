-- ===== src/Scheduler/Reaping.antt =====
-- `scheduler_reap_zombies` of kernel/kernel/scheduler.c ends, and how many zombies it takes.
use dfos.Base.{
  ℕ, zero, suc, ◌+◌, ◌-◌, ◌≤◌, ◌<◌, true, false, List, [], ltb, ◌==◌, if◌then◌else◌, Option, none,
  some, length, get_or, ◌≡◌, refl, sym, ap, ◌∙◌, subst, one_of, option_cases, arith, ◌⊎◌, inl, inr,
}
use native.Mathlib.Decide.{ℕ_discrete}
use dfos.Scheduler.Select.{uint_max}
use dfos.Scheduler.State.{
  Scheduler, Task, free_list, zombie, zombie_list, no_cpu, task_at, has_state, has_kind, kind_value,
}
use dfos.Scheduler.Waiting.{detach_first, reap_from, scheduler_reap_zombies}
use dfos.Scheduler.Tasks.{Release}
use dfos.Scheduler.Placed.{IsPlaced, occurs}
use dfos.Scheduler.Detached.{OffCpu, MustStay, Taken, IsDetached, detach_first-IsDetached}

-- With `limit` zombies to take at most: how many were taken and which, and why no more.
pub record IsReaped (s : Scheduler) (limit count : ℕ) (s' : Scheduler) : Type 0 where
  pub placed : IsPlaced s'
  pub taken : length s'.zombie_tasks + count ≡ length s.zombie_tasks
  pub most : count ≤ limit
  pub gone :
      (u : ℕ)
      → has_kind (task_at s u) zombie_list ≡ true
      → has_kind (task_at s' u) zombie_list ≡ false
      → (has_state (task_at s u) zombie ≡ true)
        × OffCpu s u
        × ((task_at s' u).list_kind ≡ free_list)
  pub kept :
      (u : ℕ)
      → has_kind (task_at s u) zombie_list ≡ false ⊎ has_kind (task_at s' u) zombie_list ≡ true
      → task_at s' u ≡ task_at s u
  pub cpus : s'.cpus ≡ s.cpus
  pub done :
      (count ≡ limit) ⊎ ((u : ℕ) → has_kind (task_at s' u) zombie_list ≡ true → MustStay s' u)

-- What the first search tells.
found_none :
    (list : List ℕ) (s : Scheduler) (r : Option (ℕ × ℕ) × Scheduler)
    → IsDetached list s r
    → r.0 ≡ none
    → (u : ℕ) → 0 < occurs list u
    → has_kind (task_at s u) zombie_list ≡ true
    → MustStay s u
unfolding IsDetached
found_none list s (none, s') h e = h.1
found_none list s (some x, s') h e = cc

found_some :
    (list : List ℕ) (s : Scheduler) (r : Option (ℕ × ℕ) × Scheduler) (x : ℕ × ℕ)
    → IsDetached list s r
    → r.0 ≡ some x
    → (t : ℕ) × Taken s t r.1
unfolding IsDetached
found_some list s (none, s') x h e = cc
found_some list s (some y, s') x h e = h

-- One taken, and then more.
module _ (s s1 s' : Scheduler) (t limit count : ℕ) (first : Taken s t s1)
    (rest : IsReaped s1 limit count s') where
  freed_kind : has_kind (task_at s1 t) zombie_list ≡ false
  freed_kind = ap (λ kind. kind_value kind == kind_value zombie_list) first.freed

  gone_next :
      (u : ℕ)
      → has_kind (task_at s u) zombie_list ≡ true
      → has_kind (task_at s' u) zombie_list ≡ false
      → (has_state (task_at s u) zombie ≡ true)
        × OffCpu s u
        × ((task_at s' u).list_kind ≡ free_list)
  gone_next u on off = elim (ℕ_discrete t u) [
    | yes e ↦
        subst
          (λ u.
            (has_state (task_at s u) zombie ≡ true)
            × OffCpu s u
            × ((task_at s' u).list_kind ≡ free_list))
          e
          (
            first.was_zombie,
            first.off,
            ap (λ (task : Task). task.list_kind) (rest.kept t (inl freed_kind)) ∙ first.freed,
          )
    | no n ↦
        let same = first.others u n in
        let (state, idle, free) =
          rest.gone u (subst (λ task. has_kind task zombie_list ≡ true) (sym same) on) off in
        (
          subst (λ task. has_state task zombie ≡ true) same state,
          λ c lt online e.
              idle c (omega (arith, lt, first.count))
                (ap (λ cpus. (get_or cpus c no_cpu).online) first.cpus ∙ online)
                (ap (λ cpus. (get_or cpus c no_cpu).current) first.cpus ∙ e),
          free,
        )
  ]

  kept_next :
      (u : ℕ)
      → has_kind (task_at s u) zombie_list ≡ false ⊎ has_kind (task_at s' u) zombie_list ≡ true
      → task_at s' u ≡ task_at s u
  kept_next u h = elim (ℕ_discrete t u) [
    | yes e ↦ absurd (
        never (
          subst
            (λ w.
              has_kind (task_at s w) zombie_list ≡ false
              ⊎ has_kind (task_at s' w) zombie_list ≡ true)
            (sym e) h))
    | no n ↦
        let same = first.others u n in
        rest.kept u (
          subst
            (λ task. has_kind task zombie_list ≡ false ⊎ has_kind (task_at s' u) zombie_list ≡ true)
            (sym same) h)
        ∙ same
  ]
    where
      never :
          has_kind (task_at s t) zombie_list ≡ false ⊎ has_kind (task_at s' t) zombie_list ≡ true
          → ⊥
      never (inl h) = ground (arith, h, first.was_listed)
      never (inr h) = ground (
        arith,
        h,
        freed_kind,
        ap (λ task. has_kind task zombie_list) (rest.kept t (inl freed_kind)),
      )

  IsReaped-next : IsReaped s (limit + 1) (count + 1) s'
  IsReaped-next = record {
    placed = rest.placed;
    taken = omega (arith, rest.taken, first.fewer);
    most = omega (arith, rest.most);
    gone = gone_next;
    kept = kept_next;
    cpus = rest.cpus ∙ first.cpus;
    done = elim rest.done [ inl all ↦ inl (omega (arith, all)) | inr no_more ↦ inr no_more ];
  }

-- The guard of a round.
stops :
    (limit : ℕ) (found : Option (ℕ × ℕ))
    → (if ltb 0 limit then found else none) ≡ none
    → (0 ≡ limit) ⊎ (found ≡ none)
stops zero found e = inl refl
stops (suc limit) found e = inr (
    one_of (λ x. x ≡ none → found ≡ none) (ltb 0 (suc limit)) found none (λ h k. k)
      (λ h. absurd (ground (arith, h))) e)

goes :
    (limit : ℕ) (found : Option (ℕ × ℕ)) (x : ℕ × ℕ)
    → (if ltb 0 limit then found else none) ≡ some x
    → (0 < limit) × (found ≡ some x)
goes limit found x =
    one_of (λ y. y ≡ some x → (0 < limit) × (found ≡ some x)) (ltb 0 limit) found none
      (λ h e. (ground (arith, h), e)) (λ h e. cc)

reap_from-IsReaped :
    (kernel_space limit fuel : ℕ) (s : Scheduler)
    → IsPlaced s
    → length s.zombie_tasks < fuel
    → IsReaped s limit
        (reap_from kernel_space limit fuel s).0
        (reap_from kernel_space limit fuel s).2
unfolding reap_from
reap_from-IsReaped kernel_space limit zero s v enough = absurd (omega (arith, enough))
reap_from-IsReaped kernel_space limit (suc fuel) s v enough =
    let first = detach_first s.zombie_tasks s in
    let h = detach_first-IsDetached s.zombie_tasks s v in
    option_cases (λ (r : ℕ × List Release × Scheduler). IsReaped s limit r.0 r.2)
      (if ltb 0 limit then first.0 else none) (0, [], s) _
      (λ e. record {
        placed = v;
        taken = omega arith;
        most = omega arith;
        gone = λ u on off. absurd (ground (arith, on, off));
        kept = λ u k. refl;
        cpus = refl;
        done = elim (stops limit first.0 e) [
          | inl all ↦ inl all
          | inr no_more ↦ inr (λ u on.
              found_none s.zombie_tasks s first h no_more u
                (ground (arith, on, v.listed zombie_list u refl)) on)
        ];
      })
      (λ x e.
        let (more, some_found) = goes limit first.0 x e in
        let (t, took) = found_some s.zombie_tasks s first x h some_found in
        let rest =
          reap_from-IsReaped kernel_space (limit - 1) fuel first.1 took.placed
            (omega (arith, enough, took.fewer)) in
        subst
          (λ l.
            IsReaped s l ((reap_from kernel_space (limit - 1) fuel first.1).0 + 1)
              (reap_from kernel_space (limit - 1) fuel first.1).2)
          (omega (arith, more)) (IsReaped-next s first.1 _ t (limit - 1) _ took rest))

-- From a state whose lists are right, reaping returns with right lists after at most `max_count`
-- zombies, or 2^32 - 1 if it is 0; their list is shorter by the number it answers. Each task taken
-- off the list was a zombie and the current one of no configured processor online, and its slot is
-- free; every other task and all processors stay as they were. If the answer is less than the limit, every task left on the
-- list is the current one of a processor online or no zombie.
pub scheduler_reap_zombies-IsReaped :
    (kernel_space max_count : ℕ) (s : Scheduler)
    → IsPlaced s
    → IsReaped s
        (if max_count == 0 then uint_max else max_count)
        (scheduler_reap_zombies kernel_space max_count s).0
        (scheduler_reap_zombies kernel_space max_count s).2
unfolding scheduler_reap_zombies
scheduler_reap_zombies-IsReaped kernel_space max_count s v =
    reap_from-IsReaped kernel_space _ (length s.zombie_tasks + 1) s v (omega arith)
