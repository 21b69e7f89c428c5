-- ===== src/Scheduler/Selected.antt =====
-- The choice of a processor (kernel/kernel/scheduler.c).
use dfos.Base.{
  ℕ, ◌<◌, ◌≤◌, bit_and, Bool, true, false, ◌||◌, not, ◌==◌, ◌≡◌, ◌≢◌, refl, sym, ap, ◌∙◌, subst,
  arith, Bool-cases, inl, inr, ◌⊎◌,
}
use dfos.Base.Masks.{has_bit, shifted_one, shifted_one_small, has_bit_zero, has_bit_some}
use dfos.Scheduler.Select.{
  View, scheduler_invalid_cpu_id, scheduler_numa_node_any, normalized_affinity, is_eligible,
  run_pass, scheduler_select_best_cpu_from_view,
}
use dfos.Scheduler.Best.{Beats, online_mask-has_bit, is_online}
use dfos.Scheduler.Passes.{
  load_of, node_of, IsPass, run_pass-IsPass, Allowed, online, normalized-Allowed,
  Allowed-normalized,
}

-- The answer is invalid when no processor is online. Any other is allowed by the mask; it is the
-- best of those on the preferred node, if there are any, and else the best of all.
unfoldable pub IsSelected : View → ℕ → ℕ → ℕ → ℕ → Type 0
IsSelected v mask preferred local_cpu r =
    ((r ≡ scheduler_invalid_cpu_id) × ((c : ℕ) → is_online v c ≡ false))
    ⊎ (Allowed v mask r
        × (((preferred ≢ scheduler_numa_node_any)
              × (node_of v r ≡ preferred)
              × ((c : ℕ)
                  → Allowed v mask c
                  → node_of v c ≡ preferred
                  → Beats (load_of v) local_cpu r (load_of v r) c))
            ⊎ (((c : ℕ)
                  → Allowed v mask c
                  → preferred ≢ scheduler_numa_node_any
                  → node_of v c ≢ preferred)
                × ((c : ℕ) → Allowed v mask c → Beats (load_of v) local_cpu r (load_of v r) c))))

Allowed-lt : (v : View) (mask c : ℕ) → Allowed v mask c → c < v.cpu_count
unfolding Allowed
Allowed-lt v mask c (o, _) = ground (arith, o)

module _ (v : View) (mask preferred local_cpu : ℕ) (small : v.cpu_count ≤ 32) where
  abbrev affinity : ℕ
  affinity = normalized_affinity mask (online v mask)

  same_bit :
      (c : ℕ) → c < v.cpu_count → not (bit_and affinity (shifted_one c) == 0) ≡ has_bit affinity c
  same_bit c h = rw (shifted_one_small c (omega (arith, h, small))) refl

  eligible-Allowed :
      (enforce : Bool) (c : ℕ)
      → c < v.cpu_count
      → is_eligible v affinity enforce preferred c ≡ true
      → Allowed v mask c × (enforce ≡ true → node_of v c ≡ preferred)
  unfolding is_eligible
  eligible-Allowed enforce c lt h = (
    normalized-Allowed v mask small c (sym (same_bit c lt) ∙ ground (arith, h)),
    λ e. ground (arith, h, e),
  )

  Allowed-eligible :
      (enforce : Bool) (c : ℕ)
      → Allowed v mask c
      → (enforce ≡ true → node_of v c ≡ preferred)
      → is_eligible v affinity enforce preferred c ≡ true
  unfolding is_eligible
  Allowed-eligible true c h k =
      ground
        (arith, same_bit c (Allowed-lt v mask c h) ∙ Allowed-normalized v mask small c h, k refl)
  Allowed-eligible false c h k =
      ground (arith, same_bit c (Allowed-lt v mask c h) ∙ Allowed-normalized v mask small c h)

  first_pass :
      (r : ℕ)
      → not (preferred == scheduler_numa_node_any) ≡ true
      → r < v.cpu_count
      → is_eligible v affinity true preferred r ≡ true
      → ((c : ℕ)
          → c < v.cpu_count
          → is_eligible v affinity true preferred c ≡ true
          → Beats (load_of v) local_cpu r (load_of v r) c)
      → IsSelected v mask preferred local_cpu r
  unfolding IsSelected
  first_pass r asked lt ok least =
      let (a, n) = eligible-Allowed true r lt ok in
      inr (
        a,
        inl (
          ground (arith, asked),
          n refl,
          λ c h k. least c (Allowed-lt v mask c h) (Allowed-eligible true c h (λ _. k)),
        ),
      )

  second_pass :
      (r : ℕ)
      → ((c : ℕ) → Allowed v mask c → preferred ≢ scheduler_numa_node_any → node_of v c ≢ preferred)
      → r < v.cpu_count
      → is_eligible v affinity false preferred r ≡ true
      → ((c : ℕ)
          → c < v.cpu_count
          → is_eligible v affinity false preferred c ≡ true
          → Beats (load_of v) local_cpu r (load_of v r) c)
      → IsSelected v mask preferred local_cpu r
  unfolding IsSelected
  second_pass r nobody lt ok least =
      let (a, n) = eligible-Allowed false r lt ok in
      inr (
        a,
        inr (nobody, λ c h. least c (Allowed-lt v mask c h) (Allowed-eligible false c h (λ e. cc))),
      )

  -- Some processor is online, so some processor is allowed.
  some_Allowed : 0 < online v mask → (c : ℕ) × Allowed v mask c
  unfolding normalized_affinity
  some_Allowed pos =
      let (b, e) = has_bit_some affinity (ground arith) in (b, normalized-Allowed v mask small b e)

  abbrev asked : Bool
  asked = not (preferred == scheduler_numa_node_any)

  no_online : (c : ℕ) → (v.cpu_count == 0 || online v mask == 0) ≡ true → is_online v c ≡ true → ⊥
  no_online c t on = elim (Bool-cases (online v mask == 0)) [
    | inl e ↦
        let none_left : online v mask ≡ 0 = ground (arith, e) in
        let bit =
          sym (online_mask-has_bit v c small) ∙ ap (λ m. has_bit m c) none_left ∙ has_bit_zero c in
        ground (arith, bit, on)
    | inr e ↦ ground (arith, t, e, on)
  ]

  by_first :
      (r : ℕ)
      → r < v.cpu_count
      → (asked ≡ true) ⊎ (asked ≡ false)
      → is_eligible v affinity asked preferred r ≡ true
      → ((c : ℕ)
          → c < v.cpu_count
          → is_eligible v affinity asked preferred c ≡ true
          → Beats (load_of v) local_cpu r (load_of v r) c)
      → IsSelected v mask preferred local_cpu r
  by_first r below (inl t) ok least =
      first_pass r t below (subst (λ b. is_eligible v affinity b preferred r ≡ true) t ok)
        (λ c p q. least c p (subst (λ b. is_eligible v affinity b preferred c ≡ true) (sym t) q))
  by_first r below (inr f) ok least =
      second_pass r (λ c h p n. p (ground (arith, f))) below
        (subst (λ b. is_eligible v affinity b preferred r ≡ true) f ok)
        (λ c p q. least c p (subst (λ b. is_eligible v affinity b preferred c ≡ true) (sym f) q))

  -- For at most 32 processors, the choice is a processor that is online and in the affinity
  -- mask, or online if the mask allows none; it is on the preferred node if such a one is, and
  -- none of these has less load, where the local processor and then the lowest number win a tie;
  -- it is the invalid number only if no processor is online.
  pub scheduler_select_best_cpu_from_view-IsSelected :
      IsSelected v mask preferred local_cpu
        (scheduler_select_best_cpu_from_view v mask preferred local_cpu)
  unfolding scheduler_select_best_cpu_from_view IsPass IsSelected
  scheduler_select_best_cpu_from_view-IsSelected =
      let lt : v.cpu_count < 255 = omega (arith, small) in
      let first = run_pass v affinity asked preferred local_cpu in
      elim (Bool-cases (v.cpu_count == 0 || online v mask == 0)) [
        | inl t ↦ rw (t) (
            inl (
              refl,
              λ c. elim (Bool-cases (is_online v c)) [
                | inr off ↦ off
                | inl on ↦ absurd (no_online c t on)
              ],
            ))
        | inr u ↦ elim (run_pass-IsPass v affinity asked preferred local_cpu lt) [
          | inr (below, ok, least) ↦
              let valid : (first == scheduler_invalid_cpu_id) ≡ false = ground (arith, lt, below) in
              rw (u, valid) (by_first first below (Bool-cases asked) ok least)
          | inl (nothing, nobody) ↦
              let invalid : (first == scheduler_invalid_cpu_id) ≡ true = ground (arith, nothing) in
              elim (run_pass-IsPass v affinity false preferred local_cpu lt) [
                | inl (again, no_one) ↦
                    let (c, h) = some_Allowed (ground (arith, u)) in
                    absurd (no_one c (Allowed-lt v mask c h) (Allowed-eligible false c h (λ e. cc)))
                | inr (below, ok, least) ↦
                    rw (u, invalid)
                      (second_pass (run_pass v affinity false preferred local_cpu)
                        (λ c h p n.
                          nobody c (Allowed-lt v mask c h) (Allowed-eligible asked c h (λ _. n)))
                        below ok least)
              ]
        ]
      ]
