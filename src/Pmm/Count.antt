-- ===== src/Pmm/Count.antt =====
-- How the count of free frames in a range follows one bit (kernel/kernel/pmm.c).
use dfos.Base.{
  ℕ, zero, suc, ◌+◌, ◌-◌, ◌≤◌, ◌<◌, true, false, ◌≡◌, refl, List, arith, ◌⊎◌, subst, sym,
}
use dfos.Pmm.Bitmap.{
  bitmap_set, bitmap_clear, bitmap_test, IsBitmap, bitmap_test-set, bitmap_test-clear,
}
use dfos.Pmm.State.{count_free}
use native.Mathlib.Decide.{ℕ_discrete}

-- A frame outside the range does not matter.
pub count_free-set_outside :
    (bitmap : List ℕ) (frames frame : ℕ)
    → IsBitmap bitmap frames
    → frame < frames
    → (start rounds : ℕ) → (frame < start) ⊎ (start + rounds ≤ frame)
    → count_free (bitmap_set bitmap frame) start rounds ≡ count_free bitmap start rounds
unfolding count_free
count_free-set_outside bitmap frames frame b h start zero out = refl
count_free-set_outside bitmap frames frame b h start (suc rounds) out = ground (
  arith,
  bitmap_test-set bitmap frames frame b h start,
  count_free-set_outside bitmap frames frame b h (start + 1) rounds,
)

pub count_free-clear_outside :
    (bitmap : List ℕ) (frames frame : ℕ)
    → IsBitmap bitmap frames
    → frame < frames
    → (start rounds : ℕ) → (frame < start) ⊎ (start + rounds ≤ frame)
    → count_free (bitmap_clear bitmap frame) start rounds ≡ count_free bitmap start rounds
unfolding count_free
count_free-clear_outside bitmap frames frame b h start zero out = refl
count_free-clear_outside bitmap frames frame b h start (suc rounds) out = ground (
  arith,
  bitmap_test-clear bitmap frames frame b h start,
  count_free-clear_outside bitmap frames frame b h (start + 1) rounds,
)

-- Taking a free frame of the range lowers the count by one.
pub count_free-set :
    (bitmap : List ℕ) (frames frame : ℕ)
    → IsBitmap bitmap frames
    → frame < frames
    → bitmap_test bitmap frame ≡ false
    → (start rounds : ℕ) → start ≤ frame
    → frame < start + rounds
    → count_free (bitmap_set bitmap frame) start rounds + 1 ≡ count_free bitmap start rounds
unfolding count_free
count_free-set bitmap frames frame b h free start zero lo hi = absurd (omega arith)
count_free-set bitmap frames frame b h free start (suc rounds) lo hi = ground (
  arith,
  bitmap_test-set bitmap frames frame b h start,
  count_free-set bitmap frames frame b h free (start + 1) rounds,
  count_free-set_outside bitmap frames frame b h (start + 1) rounds,
)

-- Giving one back raises it by one.
pub count_free-clear :
    (bitmap : List ℕ) (frames frame : ℕ)
    → IsBitmap bitmap frames
    → frame < frames
    → bitmap_test bitmap frame ≡ true
    → (start rounds : ℕ) → start ≤ frame
    → frame < start + rounds
    → count_free (bitmap_clear bitmap frame) start rounds ≡ count_free bitmap start rounds + 1
unfolding count_free
count_free-clear bitmap frames frame b h used start zero lo hi = absurd (omega arith)
count_free-clear bitmap frames frame b h used start (suc rounds) lo hi = ground (
  arith,
  bitmap_test-clear bitmap frames frame b h start,
  count_free-clear bitmap frames frame b h used (start + 1) rounds,
  count_free-clear_outside bitmap frames frame b h (start + 1) rounds,
)

pub count_free-append :
    (bitmap : List ℕ) (start first second : ℕ)
    → count_free bitmap start (first + second)
      ≡ count_free bitmap start first + count_free bitmap (start + first) second
unfolding count_free
count_free-append bitmap start zero second =
    let to : second ≡ 0 + second = omega arith in
    let at : start ≡ start + 0 = omega arith in
    let e : count_free bitmap start second ≡ 0 + count_free bitmap start second = omega arith in
    subst (λ u. count_free bitmap start u ≡ 0 + count_free bitmap (start + 0) second) to
      (subst (λ u. count_free bitmap start second ≡ 0 + count_free bitmap u second) at e)
count_free-append bitmap start (suc first) second =
    let shift : start + 1 + first ≡ start + suc first = omega arith in
    let rest = count_free-append bitmap (start + 1) first second in
    let rest' =
      subst
        (λ u.
          count_free bitmap (start + 1) (first + second)
          ≡ count_free bitmap (start + 1) first + count_free bitmap u second)
        shift rest in
    let sum : suc (first + second) ≡ suc first + second = omega arith in
    subst
      (λ u.
        count_free bitmap start u
        ≡ count_free bitmap start (suc first) + count_free bitmap (start + suc first) second)
      sum (omega (arith, rest'))

-- A range holds at most as many free frames as it has frames, and a used frame keeps it below.
pub count_free_le : (bitmap : List ℕ) (start rounds : ℕ) → count_free bitmap start rounds ≤ rounds
unfolding count_free
count_free_le bitmap start zero = omega arith
count_free_le bitmap start (suc rounds) = ground (arith, count_free_le bitmap (start + 1) rounds)

-- A range with free frames has one.
pub count_free_pos :
    (bitmap : List ℕ) (start rounds : ℕ) (frame : ℕ)
    → start ≤ frame
    → frame < start + rounds
    → bitmap_test bitmap frame ≡ false
    → 0 < count_free bitmap start rounds
unfolding count_free
count_free_pos bitmap start zero frame lo hi e = absurd (omega arith)
count_free_pos bitmap start (suc rounds) frame lo hi e = elim (ℕ_discrete start frame) [
  | yes p ↦ let e' = subst (λ u. bitmap_test bitmap u ≡ false) (sym p) e in ground (arith, e')
  | no p ↦
      ground (arith, count_free_pos bitmap (start + 1) rounds frame (omega arith) (omega arith) e)
]

-- A range without free frames counts none.
pub count_free_none :
    (bitmap : List ℕ) (start rounds : ℕ)
    → ((frame : ℕ) → start ≤ frame → frame < start + rounds → bitmap_test bitmap frame ≡ true)
    → count_free bitmap start rounds ≡ 0
unfolding count_free
count_free_none bitmap start zero h = refl
count_free_none bitmap start (suc rounds) h =
    rw
      (
        h start (omega arith) (omega arith),
        count_free_none bitmap (start + 1) rounds
            (λ frame lo hi. h frame (omega arith) (omega arith)),
      )
      refl

-- A range whose frames are all free counts every one.
pub count_free_all :
    (bitmap : List ℕ) (start rounds : ℕ)
    → ((frame : ℕ) → start ≤ frame → frame < start + rounds → bitmap_test bitmap frame ≡ false)
    → count_free bitmap start rounds ≡ rounds
unfolding count_free
count_free_all bitmap start zero h = refl
count_free_all bitmap start (suc rounds) h = rw (h start (omega arith) (omega arith)) (
    omega (
      arith,
      count_free_all bitmap (start + 1) rounds (λ frame lo hi. h frame (omega arith) (omega arith)),
    ))

-- A part counts no more than the whole.
pub count_free_part :
    (bitmap : List ℕ) (start rounds total : ℕ)
    → start + rounds ≤ total
    → count_free bitmap start rounds ≤ count_free bitmap 0 total
count_free_part bitmap start rounds total h =
    let after = total - start - rounds in
    let whole : start + (rounds + after) ≡ total = omega arith in
    let from : 0 + start ≡ start = omega arith in
    let first = count_free-append bitmap 0 start (rounds + after) in
    let first' =
      subst
        (λ u.
          count_free bitmap 0 (start + (rounds + after))
          ≡ count_free bitmap 0 start + count_free bitmap u (rounds + after))
        from first in
    let first'' =
      subst
        (λ u.
          count_free bitmap 0 u
          ≡ count_free bitmap 0 start + count_free bitmap start (rounds + after))
        whole first' in
    omega (arith, first'', count_free-append bitmap start rounds after)
