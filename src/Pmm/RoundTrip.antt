-- ===== src/Pmm/RoundTrip.antt =====
-- Giving back what was allocated (kernel/kernel/pmm.c).
use dfos.Base.{
  ℕ, zero, suc, ◌+◌, ◌/◌, ◌≤◌, ◌<◌, Bool, true, false, ◌&&◌, ◌≡◌, refl, some, arith, subst, ltb,
  leb, not,
}
use native.Mathlib.Decide.{ℕ_discrete}
use dfos.Base.Words.{add32}
use dfos.Pmm.State.{Pmm, page_size, release_frame_locked}
use dfos.Pmm.Alloc.{
  pmm_alloc_frame_on_node, pmm_alloc_frames_on_node, pmm_free_frame, pmm_free_frames,
  release_frames,
}
use dfos.Pmm.Frames.{is_used, IsReleased, release_frame_locked_lem}
use dfos.Pmm.FindFrame.{IsAllocated}
use dfos.Pmm.AllocFrame.{IsFrameAnswer, pmm_alloc_frame_on_node-IsFrameAnswer}
use dfos.Pmm.AllocFrames.{IsRunAnswer, pmm_alloc_frames_on_node-IsRunAnswer}
use dfos.Pmm.Contiguous.{IsTaken}
use dfos.Pmm.Runs.{IsRun}
use dfos.Pmm.Valid.{IsValid}

-- The same frames are in use, with the same count of free ones.
unfoldable pub SameFrames : Pmm → Pmm → Type 0
SameFrames s s' =
    ((other : ℕ) → is_used s' other ≡ is_used s other)
    × (s'.free_frames ≡ s.free_frames)
    × (s'.total_frames ≡ s.total_frames)
    × IsValid s'

undo_frame :
    (s s' : Pmm) (frame : ℕ) (r : Bool × Pmm)
    → IsAllocated s frame s'
    → IsReleased s' frame r
    → SameFrames s r.1
unfolding IsAllocated IsReleased SameFrames
undo_frame s s' frame (done, t) (lt, unused, bits, free, total, v) (d, bits', free', total', v') =
    let was : done ≡ true = ground (arith, d, bits frame, total, lt) in
    (
      λ other. elim (ℕ_discrete frame other) [
        | yes e ↦ ground (arith, was, bits' other, e, subst (λ u. is_used s u ≡ false) e unused)
        | no e ↦ ground (arith, bits' other, bits other, e)
      ],
      ground (arith, was, free, free'),
      omega arith,
      v',
    )

allocated-IsValid : (s s' : Pmm) (frame : ℕ) → IsAllocated s frame s' → IsValid s'
unfolding IsAllocated
allocated-IsValid s s' frame (_, _, _, _, _, v) = v

-- In a valid state, giving back a frame that was allocated leaves the same frames in use and the
-- same count of free ones, in a valid state.
pub pmm_free_frame-alloc_frame_on_node :
    (s : Pmm) (preferred address : ℕ) (s' : Pmm)
    → IsValid s
    → pmm_alloc_frame_on_node s preferred ≡ some (address, s')
    → SameFrames s (pmm_free_frame s' address)
unfolding pmm_free_frame IsFrameAnswer
pmm_free_frame-alloc_frame_on_node s preferred address s' v e =
    let (_, _, allocated) =
      subst (IsFrameAnswer s) e (pmm_alloc_frame_on_node-IsFrameAnswer s preferred v) in
    undo_frame s s' (address / page_size) (release_frame_locked s' (address / page_size)) allocated
      (release_frame_locked_lem s' (address / page_size)
        (allocated-IsValid s s' (address / page_size) allocated))

-- Giving back a run of frames in use.
unfoldable pub IsGiven : Pmm → ℕ → ℕ → Pmm → Type 0
IsGiven s first count s' =
    ((other : ℕ)
      → is_used s' other ≡ (not (leb first other && ltb other (first + count)) && is_used s other))
    × (s'.free_frames ≡ s.free_frames + count)
    × (s'.total_frames ≡ s.total_frames)
    × IsValid s'

IsGiven-next :
    (s : Pmm) (first count : ℕ) (r : Bool × Pmm) (t : Pmm)
    → first < s.total_frames
    → is_used s first ≡ true
    → IsReleased s first r
    → IsGiven r.1 (first + 1) count t
    → IsGiven s first (suc count) t
unfolding IsReleased IsGiven
IsGiven-next s first count (done, s') t lt used (d, bits, free, total, v)
      (bits', free', total', v') =
    let was : done ≡ true = ground (arith, d, lt, used) in
    (
      λ other. ground (arith, was, bits other, bits' other),
      ground (arith, was, free, free'),
      omega arith,
      v',
    )

released :
    (s : Pmm) (first : ℕ) (r : Bool × Pmm)
    → IsReleased s first r
    → IsValid r.1
      × (r.1.total_frames ≡ s.total_frames)
      × ((other : ℕ) → is_used s other ≡ true → first < other → is_used r.1 other ≡ true)
unfolding IsReleased
released s first (done, s') (d, bits, free, total, v) =
    (v, total, λ other u lt. ground (arith, bits other, u, lt))

IsGiven-none : (s : Pmm) (first : ℕ) → IsValid s → IsGiven s first 0 s
unfolding IsGiven
IsGiven-none s first v = (λ other. ground arith, omega arith, refl, v)

pub release_frames-IsGiven :
    (s : Pmm) (first count : ℕ)
    → IsValid s
    → first + count ≤ s.total_frames
    → ((frame : ℕ) → first ≤ frame → frame < first + count → is_used s frame ≡ true)
    → IsGiven s first count (release_frames s first count)
unfolding release_frames
release_frames-IsGiven s first zero v fits used = IsGiven-none s first v
release_frames-IsGiven s first (suc count) v fits used =
    let r = release_frame_locked s first in
    let h = release_frame_locked_lem s first v in
    let (v', total, keep) = released s first r h in
    let next : first + 1 ≡ add32 first 1 = omega (arith, v.fits) in
    IsGiven-next s first count r (release_frames r.1 (add32 first 1) count) (omega arith)
      (used first (omega arith) (omega arith)) h
      (subst (λ u. IsGiven r.1 (first + 1) count (release_frames r.1 u count)) next
        (release_frames-IsGiven r.1 (first + 1) count v' (omega arith)
          (λ frame lo hi. keep frame (used frame (omega arith) (omega arith)) (omega arith))))

undo_run :
    (s s' t : Pmm) (first count : ℕ)
    → IsRun s.frame_bitmap count first
    → IsTaken s first count s'
    → IsGiven s' first count t
    → SameFrames s t
unfolding IsRun IsTaken IsGiven SameFrames
undo_run s s' t first count run (bits, free, total, v) (bits', free', total', v') =
    (λ other. ground (arith, bits other, bits' other, run other), omega arith, omega arith, v')

taken_used :
    (s s' : Pmm) (first count : ℕ)
    → IsTaken s first count s'
    → ((frame : ℕ) → first ≤ frame → frame < first + count → is_used s' frame ≡ true)
      × IsValid s'
      × (s'.total_frames ≡ s.total_frames)
unfolding IsTaken
taken_used s s' first count (bits, free, total, v) =
    (λ frame lo hi. ground (arith, bits frame, lo, hi), v, total)

-- In a valid state, giving back a run that was allocated leaves the same frames in use and the
-- same count of free ones, in a valid state.
pub pmm_free_frames-alloc_frames_on_node :
    (s : Pmm) (frame_count preferred address : ℕ) (s' : Pmm)
    → IsValid s
    → pmm_alloc_frames_on_node s frame_count preferred ≡ (some address, s')
    → SameFrames s (pmm_free_frames s' address frame_count)
unfolding pmm_free_frames IsRunAnswer
pmm_free_frames-alloc_frames_on_node s frame_count preferred address s' v e =
    let run = address / page_size in
    let (_, fits, free, taken) =
      subst (IsRunAnswer s frame_count) e
        (pmm_alloc_frames_on_node-IsRunAnswer s frame_count preferred v) in
    let (used, v', total) = taken_used s s' run frame_count taken in
    undo_run s s' (release_frames s' run frame_count) run frame_count free taken
      (release_frames-IsGiven s' run frame_count v' (omega arith) used)
