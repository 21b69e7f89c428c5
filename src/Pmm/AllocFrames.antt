-- ===== src/Pmm/AllocFrames.antt =====
-- The allocation of a run of frames (kernel/kernel/pmm.c).
use mathlib.Core.Option
use dfos.Base.{
  ℕ, ◌+◌, ◌*◌, ◌/◌, ◌%◌, ◌≤◌, ◌<◌, ◌^◌, true, ◌||◌, ◌≡◌, refl, Option, none, some, arith, inl, inr,
  subst, ltb, ◌==◌, not, Bool-cases, ◌∙◌,
}
use dfos.Pmm.State.{Pmm, active_numa_node_count, page_size}
use dfos.Pmm.Alloc.{find_frames, pmm_alloc_frames_on_node}
use dfos.Pmm.Count.{count_free_all, count_free_part}
use dfos.Pmm.Nodes.{total_free_none, free_frames-total_free}
use dfos.Pmm.Valid.{IsValid}
use dfos.Pmm.Runs.{IsRun}
use dfos.Pmm.Contiguous.{IsTaken}
use dfos.Pmm.RunSearch.{OnlyAcross, RunSearch, find_frames-RunSearch}

-- Fewer free frames than asked for make no run.
run_counts :
    (s : Pmm) (count run : ℕ)
    → IsValid s
    → run + count ≤ s.total_frames
    → IsRun s.frame_bitmap count run
    → count ≤ s.free_frames
unfolding IsRun
run_counts s count run v fits h = omega (
  arith,
  v.counted,
  count_free_all s.frame_bitmap run count h,
  count_free_part s.frame_bitmap run count s.total_frames fits,
)

-- The answer of an allocation of a run. If it fails, nothing has changed, and the manager was not
-- initialized, no frame was asked for, or every run has the place inside where the search starts.
unfoldable pub IsRunAnswer : Pmm → ℕ → Option ℕ × Pmm → Type 0
IsRunAnswer s count (none, s') =
    (s' ≡ s) × ((s.initialized ≡ true) → 0 < count → OnlyAcross s count)
IsRunAnswer s count (some address, s') =
    let run = address / page_size in
    (address % page_size ≡ 0)
    × (run + count ≤ s.total_frames)
    × IsRun s.frame_bitmap count run
    × IsTaken s run count s'

answer-IsRunAnswer :
    (s : Pmm) (count : ℕ) (r : Option ℕ × Pmm)
    → IsValid s
    → 0 < count
    → RunSearch s count r
    → IsRunAnswer s count (Option.map (λ run_start. run_start * page_size % 2 ^ 32) r.0, r.1)
unfolding RunSearch IsRunAnswer
answer-IsRunAnswer s count (none, s') v pos (same, across) = (same, λ _ _. across)
answer-IsRunAnswer s count (some run, s') v pos (fits, free, taken) =
    let e : run ≡ run * page_size % 2 ^ 32 / page_size = omega (arith, v.fits) in
    (
      omega arith,
      subst (λ u. u + count ≤ s.total_frames) e fits,
      subst (λ u. IsRun s.frame_bitmap count u) e free,
      subst (λ u. IsTaken s u count s') e taken,
    )

-- In a valid state the allocation of a run answers the address of a run of free managed frames
-- and takes exactly these; if it fails, nothing has changed, and if the manager is initialized
-- and a frame was asked for, every such run has the search cursor inside.
pub pmm_alloc_frames_on_node-IsRunAnswer :
    (s : Pmm) (frame_count preferred : ℕ)
    → IsValid s
    → IsRunAnswer s frame_count (pmm_alloc_frames_on_node s frame_count preferred)
unfolding pmm_alloc_frames_on_node IsRunAnswer OnlyAcross
pmm_alloc_frames_on_node-IsRunAnswer s frame_count preferred v =
    let empty : active_numa_node_count s ≡ 0 → s.free_frames ≡ 0 = λ e.
      free_frames-total_free s v ∙ total_free_none s.numa_nodes (λ id p. absurd (omega arith)) in
    elim (Bool-cases (frame_count == 0)) [
      | inl t ↦ rw (t) (refl, λ _ pos. ground (arith, t))
      | inr u ↦
          elim (Bool-cases (
            (not s.initialized || active_numa_node_count s == 0)
            || ltb s.free_frames frame_count)) [
              | inl t ↦
                  rw (u, t)
                    (
                      refl,
                      λ i pos run fits h.
                          absurd
                            (ground (arith, t, i, empty, run_counts s frame_count run v fits h)),
                    )
              | inr w ↦
                  rw (u, w)
                    (answer-IsRunAnswer s frame_count (find_frames s frame_count preferred) v
                      (ground (arith, u))
                      (find_frames-RunSearch s frame_count preferred v (ground (arith, u))))
            ]
    ]
