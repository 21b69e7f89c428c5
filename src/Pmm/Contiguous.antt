-- ===== src/Pmm/Contiguous.antt =====
-- Taking a run of frames (kernel/kernel/pmm.c).
use dfos.Base.{
  ℕ, zero, suc, ◌+◌, ◌≤◌, ◌<◌, Bool, true, false, ◌&&◌, ◌||◌, ◌≡◌, refl, Option, none, some, arith,
  inl, inr, subst, ltb, leb, ◌==◌, Bool-cases, Option-cases,
}
use dfos.Base.Words.{add32}
use dfos.Pmm.State.{Pmm, node_at, active_numa_node_count, reserve_frame_locked}
use dfos.Pmm.Search.{
  pmm_reserve_contiguous_locked, pmm_find_contiguous_in_node_locked,
  pmm_find_contiguous_free_wrapped_locked, scan_cursor, set_next_scan,
}
use dfos.Pmm.Frames.{is_used, IsReserved, reserve_frame_locked_lem}
use dfos.Pmm.Nodes.{IsNode, IsValid-node_at, set_next_scan-IsValid}
use dfos.Pmm.Valid.{IsValid}
use dfos.Pmm.Runs.{IsRun}
use dfos.Pmm.Wrapped.{WrappedRun, wrapped-WrappedRun}

-- The frames of a run were taken, and no others.
unfoldable pub IsTaken : Pmm → ℕ → ℕ → Pmm → Type 0
IsTaken s first count s' =
    ((other : ℕ)
      → is_used s' other ≡ ((leb first other && ltb other (first + count)) || is_used s other))
    × (s'.free_frames + count ≡ s.free_frames)
    × (s'.total_frames ≡ s.total_frames)
    × IsValid s'

unfoldable pub Takes : Pmm → ℕ → ℕ → Bool × Pmm → Type 0
Takes s first count (done, s') = (done ≡ true) × IsTaken s first count s'

reserve_free :
    (s : Pmm) (frame : ℕ) (r : Bool × Pmm)
    → frame < s.total_frames
    → is_used s frame ≡ false
    → IsReserved s frame r
    → (r.0 ≡ true) × IsTaken s frame 1 r.1
unfolding IsReserved IsTaken
reserve_free s frame (done, s') lt free (d, bits, count, total, v) =
    let yes : done ≡ true = ground (arith, d, lt, free) in
    (yes, (λ other. ground (arith, bits other), ground (arith, count), total, v))

taken_next :
    (s s' : Pmm) (first count : ℕ) (r : Bool × Pmm)
    → IsTaken s first 1 s'
    → Takes s' (first + 1) count r
    → Takes s first (suc count) r
unfolding IsTaken Takes
taken_next s s' first count (done, t) (bits, free, total, v) (d, (bits', free', total', v')) =
    (d, (λ other. ground (arith, bits other, bits' other), omega arith, omega arith, v'))

IsRun-next :
    (s s' : Pmm) (first count : ℕ)
    → IsTaken s first 1 s'
    → IsRun s.frame_bitmap (suc count) first
    → IsRun s'.frame_bitmap count (first + 1)
unfolding IsTaken IsRun
IsRun-next s s' first count (bits, _, _, _) run =
    λ frame lo hi. ground (arith, bits frame, run frame (omega arith) (omega arith))

taken_total :
    (s s' : Pmm) (first count : ℕ)
    → IsTaken s first count s'
    → (s'.total_frames ≡ s.total_frames) × IsValid s'
unfolding IsTaken
taken_total s s' first count (_, _, total, v) = (total, v)

Takes-none : (s : Pmm) (first : ℕ) → IsValid s → Takes s first 0 (true, s)
unfolding Takes IsTaken
Takes-none s first v = (refl, (λ other. ground arith, omega arith, refl, v))

pub reserve_contiguous-Takes :
    (s : Pmm) (first count : ℕ)
    → IsValid s
    → first + count ≤ s.total_frames
    → IsRun s.frame_bitmap count first
    → Takes s first count (pmm_reserve_contiguous_locked s first count)
unfolding pmm_reserve_contiguous_locked IsRun
reserve_contiguous-Takes s first zero v fits run = Takes-none s first v
reserve_contiguous-Takes s first (suc count) v fits run =
    let r = reserve_frame_locked s first in
    let (done, one) =
      reserve_free s first r (omega arith) (run first (omega arith) (omega arith))
        (reserve_frame_locked_lem s first v) in
    let (total, v') = taken_total s r.1 first 1 one in
    rw (done) (
      taken_next s r.1 first count (pmm_reserve_contiguous_locked r.1 (first + 1) count) one (
        reserve_contiguous-Takes r.1 (first + 1) count v' (omega arith)
          (IsRun-next s r.1 first count one run)))

-- A run of free frames was found and taken, or the state is as it was.
unfoldable pub FindsRun : Pmm → ℕ → Option ℕ × Pmm → Type 0
FindsRun s count (none, s') = s' ≡ s
FindsRun s count (some run, s') =
    (run + count ≤ s.total_frames) × IsRun s.frame_bitmap count run × IsTaken s run count s'

pub reserve_contiguous-IsTaken :
    (s : Pmm) (first count : ℕ)
    → IsValid s
    → first + count ≤ s.total_frames
    → IsRun s.frame_bitmap count first
    → ((pmm_reserve_contiguous_locked s first count).0 ≡ true)
      × IsTaken s first count (pmm_reserve_contiguous_locked s first count).1
unfolding Takes
reserve_contiguous-IsTaken s first count v fits run =
    reserve_contiguous-Takes s first count v fits run

pub wrapped_some :
    (s : Pmm) (count start end from run : ℕ)
    → 0 < count
    → pmm_find_contiguous_free_wrapped_locked s.frame_bitmap start end count from ≡ some run
    → (start ≤ run) × (run + count ≤ end) × IsRun s.frame_bitmap count run
unfolding WrappedRun
wrapped_some s count start end from run pos e =
    subst (WrappedRun s.frame_bitmap count start end _) e
      (wrapped-WrappedRun s.frame_bitmap count start end from pos)

set_next_scan-IsTaken :
    (s t : Pmm) (run count id next : ℕ)
    → IsTaken s run count t
    → IsTaken s run count (set_next_scan t id next)
unfolding IsTaken set_next_scan
set_next_scan-IsTaken s t run count id next (bits, free, total, v) =
    (bits, free, total, set_next_scan-IsValid t id next v)

node_end :
    (s : Pmm) (id : ℕ)
    → IsValid s
    → id < active_numa_node_count s
    → add32 (node_at s id).first_frame (node_at s id).frame_count ≤ s.total_frames
unfolding IsNode
node_end s id v p = omega (arith, v.fits, IsValid-node_at s id v p)

pub find_in_node-FindsRun :
    (s : Pmm) (id count : ℕ)
    → IsValid s
    → FindsRun s count (pmm_find_contiguous_in_node_locked s id count)
unfolding pmm_find_contiguous_in_node_locked FindsRun
find_in_node-FindsRun s id count v =
    let node = node_at s id in
    let end = add32 node.first_frame node.frame_count in
    elim (Bool-cases (
      (leb (active_numa_node_count s) id || count == 0)
      || (ltb node.frame_count count || ltb node.free_frames count))) [
        | inl t ↦ rw (t) refl
        | inr u ↦
            elim (Option-cases (
              pmm_find_contiguous_free_wrapped_locked s.frame_bitmap node.first_frame end count
                (scan_cursor node))) [
                  | inl e ↦ rw (u, e) refl
                  | inr (run, e) ↦
                      let (lo, hi, free) =
                        wrapped_some s count node.first_frame end (scan_cursor node) run
                          (ground (arith, u)) e in
                      let fits : run + count ≤ s.total_frames =
                        omega (arith, node_end s id v (ground (arith, u))) in
                      let (done, taken) = reserve_contiguous-IsTaken s run count v fits free in
                      rw (u, e, done) (fits, free, set_next_scan-IsTaken s _ run count id _ taken)
                ]
      ]
