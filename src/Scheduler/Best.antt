-- ===== src/Scheduler/Best.antt =====
-- What the choice of a processor guarantees (kernel/kernel/scheduler.c).
use dfos.Base.{
  ℕ, zero, suc, ◌+◌, ◌≤◌, ◌<◌, Bool, true, false, ◌&&◌, ◌||◌, not, List, ltb, leb, ◌==◌, ◌≡◌, ◌≢◌,
  refl, sym, ap, ◌∙◌, subst, get_or, arith, Bool-cases, inl, inr, ◌⊎◌,
}
use native.Mathlib.Decide.{ℕ_discrete}
use dfos.Base.Masks.{has_bit, shifted_one_small, has_bit-bit_or, has_bit_zero}
use dfos.Scheduler.Select.{View, scheduler_invalid_cpu_id, online_mask_from, consider}

online_mask_from-has_bit :
    (online : List Bool) (cpu rounds mask bit : ℕ)
    → cpu + rounds ≤ 32
    → has_bit (online_mask_from online cpu rounds mask) bit
      ≡ (has_bit mask bit || (leb cpu bit && (ltb bit (cpu + rounds) && get_or online bit false)))
unfolding online_mask_from
online_mask_from-has_bit online cpu zero mask bit small = ground arith
online_mask_from-has_bit online cpu (suc rounds) mask bit small =
    online_mask_from-has_bit online (cpu + 1) rounds _ bit (omega arith)
    ∙ elim (Bool-cases (get_or online cpu false)) [
      | inl t ↦
          rw (t, shifted_one_small cpu (omega arith))
            (ground (arith, has_bit-bit_or mask cpu bit, t, same_online cpu bit))
      | inr u ↦ rw (u) (ground (arith, u, same_online cpu bit))
    ]
  where
    same_online : (cpu bit : ℕ) → cpu ≡ bit → get_or online cpu false ≡ get_or online bit false
    same_online cpu bit e = ap (λ i. get_or online i false) e

-- A processor is among the bits if it is online.
abbrev pub is_online : View → ℕ → Bool
is_online v cpu = ltb cpu v.cpu_count && get_or v.cpu_online cpu false

pub online_mask-has_bit :
    (v : View) (cpu : ℕ)
    → v.cpu_count ≤ 32
    → has_bit (online_mask_from v.cpu_online 0 v.cpu_count 0) cpu ≡ is_online v cpu
online_mask-has_bit v cpu small =
    online_mask_from-has_bit v.cpu_online 0 v.cpu_count 0 cpu (omega arith)
    ∙ ground (arith, has_bit_zero cpu)

-- The processor has least load; of those with least load it is the local one, else the first.
abbrev pub Beats : (ℕ → ℕ) → ℕ → ℕ → ℕ → ℕ → Type 0
Beats load_of local_cpu best load c =
    (load ≤ load_of c)
    × (load_of c ≡ load → c ≡ local_cpu → best ≡ local_cpu)
    × (load_of c ≡ load → best ≢ local_cpu → best ≤ c)

-- The best of the eligible processors among the first `n`, if there is one.
unfoldable pub IsBest : (ℕ → ℕ) → (ℕ → Bool) → ℕ → ℕ → ℕ × ℕ → Type 0
IsBest load_of eligible local_cpu n (best, load) =
    ((best ≡ scheduler_invalid_cpu_id) × ((c : ℕ) → c < n → eligible c ≡ true → ⊥))
    ⊎ ((best < n)
        × (eligible best ≡ true)
        × (load ≡ load_of best)
        × ((c : ℕ) → c < n → eligible c ≡ true → Beats load_of local_cpu best load c))

below_suc : (P : ℕ → Type 0) (n : ℕ) → ((c : ℕ) → c < n → P c) → P n → (c : ℕ) → c < n + 1 → P c
below_suc P n h last c lt = elim (ℕ_discrete n c) [
  | yes e ↦ subst P e last
  | no e ↦ h c (omega arith)
]

-- With the pair by its parts, and the test of the first choice as a Boolean.
module _ (load_of : ℕ → ℕ) (eligible : ℕ → Bool) (local_cpu : ℕ) where
  abbrev Choice : ℕ → ℕ → ℕ → Type 0
  Choice n best load =
      (best < n)
      × (eligible best ≡ true)
      × (load ≡ load_of best)
      × ((c : ℕ) → c < n → eligible c ≡ true → Beats load_of local_cpu best load c)

  -- The processor just looked at takes over.
  take_over :
      (cpu : ℕ)
      → eligible cpu ≡ true
      → ((c : ℕ) → c < cpu → eligible c ≡ true → Beats load_of local_cpu cpu (load_of cpu) c)
      → Choice (cpu + 1) cpu (load_of cpu)
  take_over cpu e h = (
    omega arith,
    e,
    refl,
    below_suc (λ c. eligible c ≡ true → Beats load_of local_cpu cpu (load_of cpu) c) cpu h
        (λ _. (omega arith, λ _ same. same, λ _ _. omega arith)),
  )

  stay :
      (cpu best load : ℕ)
      → Choice cpu best load
      → Beats load_of local_cpu best load cpu
      → Choice (cpu + 1) best load
  stay cpu best load (lt, ok, same, least) last = (
    omega arith,
    ok,
    same,
    below_suc (λ c. eligible c ≡ true → Beats load_of local_cpu best load c) cpu least (λ _. last),
  )

  consider-Choice :
      (cpu best load : ℕ)
      → cpu < 255
      → eligible cpu ≡ true
      → Choice cpu best load
      → IsBest load_of eligible local_cpu
          (cpu + 1)
          (consider local_cpu (load_of cpu) cpu (best, load))
  unfolding IsBest consider
  consider-Choice cpu best load lt e (below, ok, same, least) =
      let new = load_of cpu in
      let tie =
        (cpu == local_cpu && not (best == local_cpu))
        || (not (best == local_cpu) && ltb cpu best) in
      elim (Bool-cases (best == scheduler_invalid_cpu_id || ltb new load)) [
        | inl t ↦ rw (t) (inr (take_over cpu e (λ c lc ec. ground (arith, t, least c lc ec))))
        | inr u ↦ elim (Bool-cases (new == load)) [
          | inr other ↦
              rw (u, other)
                (inr (stay cpu best load (below, ok, same, least) (ground (arith, u, other))))
          | inl equal ↦ elim (Bool-cases tie) [
            | inl w ↦
                let e' : load ≡ load_of cpu = ground (arith, equal) in
                rw (u, equal, w)
                  (inr (
                    subst (Choice (cpu + 1) cpu) (sym e')
                      (take_over cpu e (λ c lc ec. ground (arith, e', w, least c lc ec)))))
            | inr x ↦
                rw (u, equal, x)
                  (inr (stay cpu best load (below, ok, same, least) (ground (arith, x, equal))))
          ]
        ]
      ]

  pub consider-IsBest :
      (cpu : ℕ) (best : ℕ × ℕ)
      → cpu < 255
      → eligible cpu ≡ true
      → IsBest load_of eligible local_cpu cpu best
      → IsBest load_of eligible local_cpu (cpu + 1) (consider local_cpu (load_of cpu) cpu best)
  unfolding IsBest consider
  consider-IsBest cpu (best, load) lt e (inl (nobody, no_one)) =
      let t : (best == scheduler_invalid_cpu_id || ltb (load_of cpu) load) ≡ true = ground arith in
      rw (t) (inr (take_over cpu e (λ c lc ec. absurd (no_one c lc ec))))
  consider-IsBest cpu (best, load) lt e (inr h) = consider-Choice cpu best load lt e h

  pub skip-IsBest :
      (cpu : ℕ) (best : ℕ × ℕ)
      → eligible cpu ≡ false
      → IsBest load_of eligible local_cpu cpu best
      → IsBest load_of eligible local_cpu (cpu + 1) best
  unfolding IsBest
  skip-IsBest cpu (best, load) e (inl (nobody, no_one)) =
      inl (nobody, below_suc (λ c. eligible c ≡ true → ⊥) cpu no_one (λ f. cc))
  skip-IsBest cpu (best, load) e (inr (lt, ok, same, least)) = inr (
    omega arith,
    ok,
    same,
    below_suc (λ c. eligible c ≡ true → Beats load_of local_cpu best load c) cpu least (λ f. cc),
  )
