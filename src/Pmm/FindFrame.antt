-- ===== src/Pmm/FindFrame.antt =====
-- The scan of frames for one that can be taken (kernel/kernel/pmm.c).
use dfos.Base.{
  ℕ, zero, suc, ◌+◌, ◌≤◌, ◌<◌, Bool, true, false, ◌||◌, ◌≡◌, Option, none, some, arith, inl, inr,
  subst, ◌==◌, Bool-cases,
}
use native.Mathlib.Decide.{ℕ_discrete}
use dfos.Pmm.State.{Pmm, reserve_frame_locked}
use dfos.Pmm.Search.{scan_frames}
use dfos.Pmm.Frames.{is_used, IsReserved, reserve_frame_locked_lem}
use dfos.Pmm.Valid.{IsValid}

-- One free frame was taken: its bit is set, the counter follows, and nothing else is seen.
unfoldable pub IsAllocated : Pmm → ℕ → Pmm → Type 0
IsAllocated s frame s' =
    (frame < s.total_frames)
    × (is_used s frame ≡ false)
    × ((other : ℕ) → is_used s' other ≡ (frame == other || is_used s other))
    × (s'.free_frames + 1 ≡ s.free_frames)
    × (s'.total_frames ≡ s.total_frames)
    × IsValid s'

unfoldable pub IsScan : Pmm → ℕ → ℕ → Option (ℕ × Pmm) → Type 0
IsScan s start rounds none =
    (frame : ℕ)
    → start ≤ frame
    → frame < start + rounds
    → frame < s.total_frames
    → is_used s frame ≡ true
IsScan s start rounds (some (frame, s')) =
    (start ≤ frame) × (frame < start + rounds) × IsAllocated s frame s'

reserve_used :
    (s : Pmm) (frame : ℕ) (r : Bool × Pmm)
    → IsReserved s frame r
    → is_used s frame ≡ false
    → r.0 ≡ true
    → IsAllocated s frame r.1
unfolding IsReserved IsAllocated
reserve_used s frame (done, s') (d, bits, free, total, v) unused e =
    (ground arith, unused, λ other. ground (arith, bits other), ground arith, total, v)

reserve_false :
    (s : Pmm) (frame : ℕ) (r : Bool × Pmm)
    → IsReserved s frame r
    → r.0 ≡ false
    → frame < s.total_frames
    → is_used s frame ≡ true
unfolding IsReserved
reserve_false s frame (done, s') (d, _, _, _, _) e h = ground arith

IsScan-later :
    (s : Pmm) (start rounds : ℕ) (o : Option (ℕ × Pmm))
    → (start < s.total_frames → is_used s start ≡ true)
    → IsScan s (start + 1) rounds o
    → IsScan s start (suc rounds) o
unfolding IsScan
IsScan-later s start rounds none used h = λ frame lo hi t. elim (ℕ_discrete start frame) [
  | yes p ↦ subst (λ u. is_used s u ≡ true) p (used (omega arith))
  | no p ↦ h frame (omega arith) (omega arith) t
]
IsScan-later s start rounds (some (frame, s')) used (lo, hi, a) = (omega arith, omega arith, a)

pub scan_frames-IsScan :
    (s : Pmm) (start rounds : ℕ) → IsValid s → IsScan s start rounds (scan_frames s start rounds)
unfolding scan_frames IsScan
scan_frames-IsScan s start zero v = λ frame lo hi t. absurd (omega arith)
scan_frames-IsScan s start (suc rounds) v =
    let later = IsScan-later s start rounds (scan_frames s (start + 1) rounds) in
    let ih = scan_frames-IsScan s (start + 1) rounds v in
    let r = reserve_frame_locked_lem s start v in
    elim (Bool-cases (is_used s start)) [
      | inl t ↦ rw (t) (later (λ _. t) ih)
      | inr u ↦ elim (Bool-cases (reserve_frame_locked s start).0) [
        | inl d ↦
            rw (u, d)
              (omega arith, omega arith, reserve_used s start (reserve_frame_locked s start) r u d)
        | inr n ↦ rw (u, n) (later (reserve_false s start (reserve_frame_locked s start) r n) ih)
      ]
    ]
