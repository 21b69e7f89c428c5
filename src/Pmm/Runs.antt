-- ===== src/Pmm/Runs.antt =====
-- The search for a run of free frames (kernel/kernel/pmm.c).
use dfos.Base.{
  ℕ, zero, suc, ◌+◌, ◌-◌, ◌≤◌, ◌<◌, Bool, true, false, ◌||◌, ◌≡◌, refl, List, Option, none, some,
  arith, inl, inr, subst, sym, ltb, leb, ◌==◌, if◌then◌else◌, Bool-cases, ◌⊎◌,
}
use native.Mathlib.Decide.{ℕ_discrete}
use dfos.Pmm.Bitmap.{bitmap_test}
use dfos.Pmm.Search.{find_run, pmm_find_contiguous_free_linear_locked}

-- All frames of the run are free.
unfoldable pub IsRun : List ℕ → ℕ → ℕ → Type 0
IsRun bitmap frame_count start =
    (frame : ℕ) → start ≤ frame → frame < start + frame_count → bitmap_test bitmap frame ≡ false

-- The answer is the first run between the bounds, and `none` if there is none.
unfoldable pub FirstRun : List ℕ → ℕ → ℕ → ℕ → Option ℕ → Type 0
FirstRun bitmap frame_count start end none =
    (run : ℕ) → start ≤ run → run + frame_count ≤ end → IsRun bitmap frame_count run → ⊥
FirstRun bitmap frame_count start end (some found) =
    (start ≤ found)
    × (found + frame_count ≤ end)
    × IsRun bitmap frame_count found
    × ((run : ℕ) → start ≤ run → IsRun bitmap frame_count run → found ≤ run)

-- What the loop knows before it looks at `frame`: the last `length` frames are free, and no run
-- begins before them.
unfoldable Streak : List ℕ → ℕ → ℕ → ℕ → ℕ → Type 0
Streak bitmap frame_count start frame length =
    (start + length ≤ frame)
    × (length < frame_count)
    × ((f : ℕ) → frame ≤ f + length → f < frame → bitmap_test bitmap f ≡ false)
    × ((run : ℕ) → start ≤ run → IsRun bitmap frame_count run → frame ≤ run + length)

module _ (bitmap : List ℕ) (frame_count start : ℕ) where
  Streak-cut :
      (frame length : ℕ)
      → bitmap_test bitmap frame ≡ true
      → Streak bitmap frame_count start frame length
      → Streak bitmap frame_count start (frame + 1) 0
  unfolding Streak IsRun
  Streak-cut frame length t (lo, lt, free, first) = (
    omega arith,
    omega arith,
    λ f a b. absurd (omega arith),
    λ run p h. elim (Bool-cases (leb (frame + 1) run)) [
      | inl q ↦ ground (arith, q)
      | inr q ↦ absurd (no_run (h frame (ground (arith, q)) (omega (arith, first run p h))) t)
    ],
  )
    where
      no_run : {b : Bool} → b ≡ false → b ≡ true → ⊥
      no_run e f = ground arith

  Streak-grow :
      (frame length : ℕ)
      → bitmap_test bitmap frame ≡ false
      → Streak bitmap frame_count start frame length
      → length + 1 < frame_count
      → Streak bitmap frame_count start (frame + 1) (length + 1)
  unfolding Streak
  Streak-grow frame length u (lo, lt, free, first) lt' = (
    omega arith,
    lt',
    λ f a b. elim (ℕ_discrete f frame) [
      | yes e ↦ subst (λ v. bitmap_test bitmap v ≡ false) (sym e) u
      | no e ↦ free f (omega arith) (omega arith)
    ],
    λ run p h. omega (arith, first run p h),
  )

  Streak-full :
      (frame length run end : ℕ)
      → bitmap_test bitmap frame ≡ false
      → Streak bitmap frame_count start frame length
      → length + 1 ≡ frame_count
      → run + length ≡ frame
      → frame < end
      → FirstRun bitmap frame_count start end (some run)
  unfolding Streak IsRun FirstRun
  Streak-full frame length run end u (lo, lt, free, first) e f g = (
    omega arith,
    omega arith,
    λ v a b. elim (ℕ_discrete v frame) [
      | yes same ↦ subst (λ w. bitmap_test bitmap w ≡ false) (sym same) u
      | no other ↦ free v (omega arith) (omega arith)
    ],
    λ other p h. omega (arith, first other p h),
  )

  Streak-none :
      (frame length end : ℕ)
      → Streak bitmap frame_count start frame length
      → frame ≡ end
      → FirstRun bitmap frame_count start end none
  unfolding Streak FirstRun
  Streak-none frame length end (lo, lt, free, first) e =
      λ other p q h. omega (arith, first other p h)

  Streak-short :
      (frame length : ℕ)
      → Streak bitmap frame_count start frame length
      → (length + 1 == frame_count) ≡ false
      → length + 1 < frame_count
  unfolding Streak
  Streak-short frame length (lo, lt, free, first) e = ground (arith, lt, e)

  find_run-FirstRun :
      (frame rounds run length end : ℕ)
      → Streak bitmap frame_count start frame length
      → (length ≡ 0) ⊎ (run + length ≡ frame)
      → frame + rounds ≡ end
      → FirstRun bitmap frame_count start end (find_run bitmap frame_count frame rounds run length)
  unfolding find_run
  find_run-FirstRun frame zero run length end s r e = Streak-none frame length end s (omega arith)
  find_run-FirstRun frame (suc rounds) run length end s r e =
      elim (Bool-cases (bitmap_test bitmap frame)) [
        | inl t ↦
            rw (t, find_run)
              (find_run-FirstRun (frame + 1) rounds run 0 end (Streak-cut frame length t s)
                (inl refl) (omega arith))
        | inr u ↦
            let begin = if length == 0 then frame else run in
            let at : begin + length ≡ frame = ground arith in
            elim (Bool-cases (length + 1 == frame_count)) [
              | inl full ↦
                  rw (u, full, find_run)
                    (Streak-full frame length begin end u s (ground (arith, full)) at (omega arith))
              | inr short ↦
                  rw (u, short, find_run)
                    (find_run-FirstRun (frame + 1) rounds begin (length + 1) end
                      (Streak-grow frame length u s (Streak-short frame length s short))
                      (inr (omega arith)) (omega arith))
            ]
      ]

  -- For a positive length, the linear search returns the first run of free frames between its
  -- bounds, and fails only if there is none.
  pub linear-FirstRun :
      (end : ℕ)
      → 0 < frame_count
      → FirstRun bitmap frame_count start end
          (pmm_find_contiguous_free_linear_locked bitmap start end frame_count)
  unfolding pmm_find_contiguous_free_linear_locked FirstRun Streak
  linear-FirstRun end pos =
      elim (Bool-cases ((leb end start || frame_count == 0) || ltb (end - start) frame_count)) [
        | inl t ↦ rw (t) (λ run p q h. ground (arith, t))
        | inr u ↦ rw (u) (
            find_run-FirstRun start (end - start) 0 0 end
              (omega arith, pos, λ f a b. absurd (omega arith), λ run p h. omega arith) (inl refl)
              (ground (arith, u)))
      ]
