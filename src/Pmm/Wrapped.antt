-- ===== src/Pmm/Wrapped.antt =====
-- The search for a run that wraps round (kernel/kernel/pmm.c).
use dfos.Base.{
  ℕ, ◌+◌, ◌-◌, ◌≤◌, ◌<◌, ◌||◌, ◌≡◌, List, Option, none, some, arith, inl, inr, subst, ltb, leb,
  ◌==◌, if◌then◌else◌, Bool-cases, Option-cases,
}
use dfos.Pmm.Search.{
  pmm_find_contiguous_free_linear_locked, pmm_find_contiguous_free_wrapped_locked,
}
use dfos.Pmm.Runs.{IsRun, FirstRun, linear-FirstRun}

-- A search that starts in the middle and wraps round finds a run if one lies on one side of
-- where it starts.
unfoldable pub WrappedRun : List ℕ → ℕ → ℕ → ℕ → ℕ → Option ℕ → Type 0
WrappedRun bitmap frame_count start end from none =
    (run : ℕ)
    → start ≤ run
    → run + frame_count ≤ end
    → IsRun bitmap frame_count run
    → (run < from) × (from < run + frame_count)
WrappedRun bitmap frame_count start end from (some found) =
    (start ≤ found) × (found + frame_count ≤ end) × IsRun bitmap frame_count found

linear_none :
    (bitmap : List ℕ) (frame_count start end : ℕ)
    → 0 < frame_count
    → pmm_find_contiguous_free_linear_locked bitmap start end frame_count ≡ none
    → (run : ℕ) → start ≤ run
    → run + frame_count ≤ end
    → IsRun bitmap frame_count run
    → ⊥
unfolding FirstRun
linear_none bitmap frame_count start end pos e =
    subst (FirstRun bitmap frame_count start end) e
      (linear-FirstRun bitmap frame_count start end pos)

linear_some :
    (bitmap : List ℕ) (frame_count start end found : ℕ)
    → 0 < frame_count
    → pmm_find_contiguous_free_linear_locked bitmap start end frame_count ≡ some found
    → (start ≤ found) × (found + frame_count ≤ end) × IsRun bitmap frame_count found
unfolding FirstRun
linear_some bitmap frame_count start end found pos e =
    let (lo, hi, run, _) =
      subst (FirstRun bitmap frame_count start end) e
        (linear-FirstRun bitmap frame_count start end pos) in
    (lo, hi, run)

pub wrapped-WrappedRun :
    (bitmap : List ℕ) (frame_count start end search_start : ℕ)
    → 0 < frame_count
    → let from = if ltb search_start start || leb end search_start then start else search_start in
      WrappedRun bitmap frame_count start end from
        (pmm_find_contiguous_free_wrapped_locked bitmap start end frame_count search_start)
unfolding pmm_find_contiguous_free_wrapped_locked WrappedRun
wrapped-WrappedRun bitmap frame_count start end search_start pos =
    let from = if ltb search_start start || leb end search_start then start else search_start in
    let after : start ≤ from = ground arith in
    let before : start < end → from < end = ground arith in
    elim (Bool-cases ((leb end start || frame_count == 0) || ltb (end - start) frame_count)) [
      | inl t ↦ rw (t) (λ run p q h. absurd (ground (arith, t)))
      | inr u ↦
          elim (Option-cases (pmm_find_contiguous_free_linear_locked bitmap from end frame_count)) [
            | inr (r, e) ↦
                let (lo, hi, run) = linear_some bitmap frame_count from end r pos e in
                rw (u, e) (omega arith, hi, run)
            | inl above ↦ elim (Bool-cases (from == start)) [
              | inl same ↦
                  rw (u, above, same)
                    (λ run p q h. absurd (
                      linear_none bitmap frame_count from end pos above run (ground (arith, same)) q
                        h))
              | inr other ↦
                  elim (Option-cases
                    (pmm_find_contiguous_free_linear_locked bitmap start from frame_count)) [
                      | inr (r, e) ↦
                          let (lo, hi, run) = linear_some bitmap frame_count start from r pos e in
                          rw (u, above, other, e) (lo, ground (arith, u, hi), run)
                      | inl below ↦
                          rw (u, above, other, below)
                            (λ run p q h. (
                              elim (Bool-cases (ltb run from)) [
                                | inl w ↦ ground (arith, w)
                                | inr w ↦ absurd (
                                    linear_none bitmap frame_count from end pos above run
                                      (ground (arith, w)) q h)
                              ],
                              elim (Bool-cases (ltb from (run + frame_count))) [
                                | inl w ↦ ground (arith, w)
                                | inr w ↦ absurd (
                                    linear_none bitmap frame_count start from pos below run p
                                      (ground (arith, w)) h)
                              ],
                            ))
                    ]
            ]
          ]
    ]
