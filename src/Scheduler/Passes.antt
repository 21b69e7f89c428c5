-- ===== src/Scheduler/Passes.antt =====
-- The two passes of the choice of a processor (kernel/kernel/scheduler.c).
use dfos.Base.{
  ◌≤◌, ℕ, zero, suc, ◌+◌, ◌<◌, Bool, true, false, ◌&&◌, ◌==◌, ◌≡◌, refl, sym, ap, ◌∙◌, subst,
  get_or, bit_and, arith, Bool-cases, inl, inr, ◌⊎◌,
}
use dfos.Base.Masks.{has_bit, has_bit-bit_and, has_bit_zero, has_bit_some}
use dfos.Scheduler.Select.{
  View, scheduler_invalid_cpu_id, uint_max, online_mask_from, normalized_affinity, is_eligible,
  pass_from, run_pass,
}
use dfos.Scheduler.Best.{
  Beats, IsBest, consider-IsBest, skip-IsBest, online_mask-has_bit, is_online,
}

abbrev pub load_of : View → ℕ → ℕ
load_of v c = get_or v.cpu_load c 0

abbrev pub node_of : View → ℕ → ℕ
node_of v c = get_or v.cpu_to_node c 0

pass_from-IsBest :
    (v : View) (affinity : ℕ) (enforce : Bool) (preferred local_cpu cpu rounds : ℕ) (best : ℕ × ℕ)
    → cpu + rounds < 255
    → IsBest (load_of v) (is_eligible v affinity enforce preferred) local_cpu cpu best
    → IsBest
        (load_of v)
        (is_eligible v affinity enforce preferred)
        local_cpu
        (cpu + rounds)
        (pass_from v affinity enforce preferred local_cpu cpu rounds best)
unfolding pass_from
pass_from-IsBest v affinity enforce preferred local_cpu cpu zero best lt h =
    let e : cpu ≡ cpu + 0 = omega arith in
    subst (λ n. IsBest (load_of v) (is_eligible v affinity enforce preferred) local_cpu n best) e h
pass_from-IsBest v affinity enforce preferred local_cpu cpu (suc rounds) best lt h =
    let eligible = is_eligible v affinity enforce preferred in
    let e : cpu + 1 + rounds ≡ cpu + suc rounds = omega arith in
    subst
      (λ n.
        IsBest (load_of v) eligible local_cpu n
          (pass_from v affinity enforce preferred local_cpu cpu (suc rounds) best))
      e
      (elim (Bool-cases (eligible cpu)) [
        | inl t ↦
            rw (t, pass_from)
              (pass_from-IsBest v affinity enforce preferred local_cpu (cpu + 1) rounds _
                (omega arith)
                (consider-IsBest (load_of v) eligible local_cpu cpu best (omega arith) t h))
        | inr u ↦
            rw (u, pass_from)
              (pass_from-IsBest v affinity enforce preferred local_cpu (cpu + 1) rounds _
                (omega arith) (skip-IsBest (load_of v) eligible local_cpu cpu best u h))
      ])

-- What one pass answers.
unfoldable pub IsPass : View → (ℕ → Bool) → ℕ → ℕ → Type 0
IsPass v eligible local_cpu r =
    ((r ≡ scheduler_invalid_cpu_id) × ((c : ℕ) → c < v.cpu_count → eligible c ≡ true → ⊥))
    ⊎ ((r < v.cpu_count)
        × (eligible r ≡ true)
        × ((c : ℕ)
            → c < v.cpu_count
            → eligible c ≡ true
            → Beats (load_of v) local_cpu r (load_of v r) c))

IsPass-answer :
    (v : View) (eligible : ℕ → Bool) (local_cpu : ℕ) (best : ℕ × ℕ)
    → IsBest (load_of v) eligible local_cpu v.cpu_count best
    → IsPass v eligible local_cpu best.0
unfolding IsBest IsPass
IsPass-answer v eligible local_cpu (best, load) (inl h) = inl h
IsPass-answer v eligible local_cpu (best, load) (inr (lt, ok, same, least)) =
    inr (lt, ok, λ c p q. subst (λ l. Beats (load_of v) local_cpu best l c) same (least c p q))

start_IsBest :
    (v : View) (eligible : ℕ → Bool) (local_cpu : ℕ)
    → IsBest (load_of v) eligible local_cpu 0 (scheduler_invalid_cpu_id, uint_max)
unfolding IsBest
start_IsBest v eligible local_cpu = inl (refl, λ c lt e. absurd (omega arith))

pub run_pass-IsPass :
    (v : View) (affinity : ℕ) (enforce : Bool) (preferred local_cpu : ℕ)
    → v.cpu_count < 255
    → IsPass v
        (is_eligible v affinity enforce preferred)
        local_cpu
        (run_pass v affinity enforce preferred local_cpu)
unfolding run_pass
run_pass-IsPass v affinity enforce preferred local_cpu lt =
    let zero_sum : 0 + v.cpu_count ≡ v.cpu_count = omega arith in
    IsPass-answer v (is_eligible v affinity enforce preferred) local_cpu _ (
      subst
        (λ n. IsBest (load_of v) (is_eligible v affinity enforce preferred) local_cpu n (
          pass_from v affinity enforce preferred local_cpu 0 v.cpu_count
            (scheduler_invalid_cpu_id, uint_max)))
        zero_sum
        (pass_from-IsBest v affinity enforce preferred local_cpu 0 v.cpu_count
          (scheduler_invalid_cpu_id, uint_max) (omega arith)
          (start_IsBest v (is_eligible v affinity enforce preferred) local_cpu)))

-- The processors that the mask allows: those online, by their bits if some bit is online at all.
unfoldable pub Allowed : View → ℕ → ℕ → Type 0
Allowed v mask c =
    (is_online v c ≡ true)
    × ((has_bit mask c ≡ true) ⊎ ((d : ℕ) → is_online v d ≡ true → has_bit mask d ≡ false))

module _ (v : View) (mask : ℕ) where
  abbrev pub online : ℕ
  online = online_mask_from v.cpu_online 0 v.cpu_count 0

  module _ (small : v.cpu_count ≤ 32) where
    bit_of_both : (c : ℕ) → has_bit (bit_and mask online) c ≡ (has_bit mask c && is_online v c)
    bit_of_both c =
        has_bit-bit_and mask online c
        ∙ ap (λ b. has_bit mask c && b) (online_mask-has_bit v c small)

    pub normalized-Allowed :
        (c : ℕ) → has_bit (normalized_affinity mask online) c ≡ true → Allowed v mask c
    unfolding normalized_affinity Allowed
    normalized-Allowed c = elim (Bool-cases (bit_and mask online == 0)) [
      | inl t ↦
          let none_left : bit_and mask online ≡ 0 = ground (arith, t) in
          rw (t) (λ h. (
            sym (online_mask-has_bit v c small) ∙ h,
            inr (λ d o.
                let both = sym (bit_of_both d) ∙ ap (λ m. has_bit m d) none_left ∙ has_bit_zero d in
                ground (arith, both, o)),
          ))
      | inr u ↦ rw (u) (λ h.
          let both = sym (bit_of_both c) ∙ h in (ground (arith, both), inl (ground (arith, both))))
    ]

    pub Allowed-normalized :
        (c : ℕ) → Allowed v mask c → has_bit (normalized_affinity mask online) c ≡ true
    unfolding normalized_affinity Allowed
    Allowed-normalized c (o, h) = elim (Bool-cases (bit_and mask online == 0)) [
      | inl t ↦ rw (t) (online_mask-has_bit v c small ∙ o)
      | inr u ↦
          let (b, e) = has_bit_some (bit_and mask online) (ground (arith, u)) in
          let both = sym (bit_of_both b) ∙ e in
          rw (u) (
            bit_of_both c ∙ elim h [
              | inl bit ↦ ground (arith, bit, o)
              | inr nobody ↦ absurd (clash (nobody b (ground (arith, both))) (ground (arith, both)))
            ])
    ]
      where
        clash : {b : Bool} → b ≡ false → b ≡ true → ⊥
        clash e f = ground (arith, e, f)
