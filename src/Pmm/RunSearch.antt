-- ===== src/Pmm/RunSearch.antt =====
-- The searches of all nodes, and then of all frames, for a run (kernel/kernel/pmm.c).
use dfos.Base.{
  ℕ, zero, suc, ◌+◌, ◌%◌, ◌≤◌, ◌<◌, Bool, true, false, ◌&&◌, ◌||◌, ◌≡◌, refl, Option, none, some,
  arith, inl, inr, subst, sym, ltb, leb, ◌==◌, if◌then◌else◌, Bool-cases, Option-cases,
}
use dfos.Pmm.State.{Pmm, active_numa_node_count, pmm_node_index_for_frame}
use dfos.Pmm.Search.{pmm_find_contiguous_in_node_locked, pmm_find_contiguous_free_wrapped_locked}
use dfos.Pmm.Alloc.{
  is_preferred, run_round_robin, run_anywhere, next_node, after_run, finish_run, or_anywhere,
  select_run, find_frames, prefer_run,
}
use dfos.Pmm.Nodes.{next_node-IsValid}
use dfos.Pmm.Valid.{IsValid}
use dfos.Pmm.Runs.{IsRun}
use dfos.Pmm.Wrapped.{WrappedRun, wrapped-WrappedRun}
use dfos.Pmm.Contiguous.{
  IsTaken, FindsRun, find_in_node-FindsRun, wrapped_some, reserve_contiguous-IsTaken,
}

finds_none : (s : Pmm) (count : ℕ) (r : Option ℕ × Pmm) → FindsRun s count r → r.0 ≡ none → r.1 ≡ s
unfolding FindsRun
finds_none s count (none, s') h e = h
finds_none s count (some run, s') h e = cc

next_node-IsTaken :
    (s t : Pmm) (run count node : ℕ)
    → IsTaken s run count t
    → IsTaken s run count (next_node t node)
unfolding IsTaken next_node
next_node-IsTaken s t run count node (bits, free, total, v) =
    (bits, free, total, next_node-IsValid t node v)

finds_next :
    (s : Pmm) (count node run : ℕ) (r : Option ℕ × Pmm)
    → FindsRun s count r
    → r.0 ≡ some run
    → FindsRun s count (some run, next_node r.1 node)
unfolding FindsRun
finds_next s count node run (none, s') h e = cc
finds_next s count node run (some run', s') (fits, free, taken) e =
    subst (λ o. FindsRun s count (o, next_node s' node)) e
      (fits, free, next_node-IsTaken s s' run' count node taken)

run_round_robin-FindsRun :
    (s : Pmm) (count preferred start i rounds : ℕ)
    → IsValid s
    → FindsRun s count (run_round_robin s count preferred start i rounds)
unfolding run_round_robin FindsRun
run_round_robin-FindsRun s count preferred start i zero v = refl
run_round_robin-FindsRun s count preferred start i (suc rounds) v =
    let node = (start + i) % active_numa_node_count s in
    let r = pmm_find_contiguous_in_node_locked s node count in
    let h = find_in_node-FindsRun s node count v in
    elim (Bool-cases (is_preferred s preferred && node == preferred)) [
      | inl t ↦ rw (t) (run_round_robin-FindsRun s count preferred start (i + 1) rounds v)
      | inr u ↦ elim (Option-cases r.0) [
        | inl e ↦
            let same = finds_none s count r h e in
            rw (u, e)
              (subst
                (λ w. FindsRun w count (run_round_robin r.1 count preferred start (i + 1) rounds))
                same
                (run_round_robin-FindsRun r.1 count preferred start (i + 1) rounds
                  (subst (λ w. IsValid w) (sym same) v)))
        | inr (run, e) ↦ rw (u, e) (finds_next s count node run r h e)
      ]
    ]

-- Where the search across the nodes starts.
abbrev pub run_cursor : Pmm → ℕ
run_cursor s =
    if ltb s.global_next_scan_frame 0 || leb s.total_frames s.global_next_scan_frame
    then 0
    else s.global_next_scan_frame

-- Every run of free frames has `run_cursor` inside.
unfoldable pub OnlyAcross : Pmm → ℕ → Type 0
OnlyAcross s count =
    (run : ℕ)
    → run + count ≤ s.total_frames
    → IsRun s.frame_bitmap count run
    → (run < run_cursor s) × (run_cursor s < run + count)

unfoldable pub RunSearch : Pmm → ℕ → Option ℕ × Pmm → Type 0
RunSearch s count (none, s') = (s' ≡ s) × OnlyAcross s count
RunSearch s count (some run, s') =
    (run + count ≤ s.total_frames) × IsRun s.frame_bitmap count run × IsTaken s run count s'

run_anywhere-RunSearch :
    (s : Pmm) (count : ℕ) → IsValid s → 0 < count → RunSearch s count (run_anywhere s count)
unfolding run_anywhere RunSearch OnlyAcross WrappedRun
run_anywhere-RunSearch s count v pos =
    elim (Option-cases (
      pmm_find_contiguous_free_wrapped_locked s.frame_bitmap 0 s.total_frames count
        s.global_next_scan_frame)) [
          | inl e ↦
              let missed =
                subst (WrappedRun s.frame_bitmap count 0 s.total_frames (run_cursor s)) e (
                  wrapped-WrappedRun s.frame_bitmap count 0 s.total_frames s.global_next_scan_frame
                    pos) in
              rw (e, run_anywhere) (refl, λ run fits h. missed run (omega arith) fits h)
          | inr (run, e) ↦
              let (lo, fits, free) =
                wrapped_some s count 0 s.total_frames s.global_next_scan_frame run pos e in
              let (done, taken) = reserve_contiguous-IsTaken s run count v fits free in
              rw (e, done, run_anywhere) (fits, free, taken)
        ]

or_anywhere-RunSearch :
    (s : Pmm) (count : ℕ) (r : Option ℕ × Pmm)
    → IsValid s
    → 0 < count
    → FindsRun s count r
    → RunSearch s count (or_anywhere count r)
unfolding FindsRun RunSearch
or_anywhere-RunSearch s count (none, s') v pos h =
    subst (λ w. RunSearch s count (run_anywhere w count)) (sym h)
      (run_anywhere-RunSearch s count v pos)
or_anywhere-RunSearch s count (some run, s') v pos h = h

global_next-IsTaken :
    (s t : Pmm) (run count next : ℕ)
    → IsTaken s run count t
    → IsTaken s run count (record t { global_next_scan_frame = next })
unfolding IsTaken
global_next-IsTaken s t run count next (bits, free, total, v) = (
  bits,
  free,
  total,
  record { is_bitmap = v.is_bitmap; fits = v.fits; nodes = v.nodes; counted = v.counted },
)

either-IsTaken :
    (s t u : Pmm) (run count : ℕ) (test : Bool)
    → IsTaken s run count t
    → IsTaken s run count u
    → IsTaken s run count (if test then t else u)
either-IsTaken s t u run count true h k = h
either-IsTaken s t u run count false h k = k

after_run-IsTaken :
    (s t : Pmm) (run count : ℕ)
    → IsTaken s run count t
    → IsTaken s run count (after_run t run count)
unfolding after_run
after_run-IsTaken s t run count h =
    let moved = global_next-IsTaken s t run count _ h in
    either-IsTaken s _ _ run count _
      (next_node-IsTaken s _ run count (pmm_node_index_for_frame t run) moved) moved

finish_run-RunSearch :
    (s : Pmm) (count : ℕ) (r : Option ℕ × Pmm)
    → RunSearch s count r
    → RunSearch s count (finish_run count r)
unfolding finish_run RunSearch
finish_run-RunSearch s count (none, s') h = h
finish_run-RunSearch s count (some run, s') (fits, free, taken) =
    (fits, free, after_run-IsTaken s s' run count taken)

select_run-RunSearch :
    (s : Pmm) (count preferred : ℕ)
    → IsValid s
    → 0 < count
    → RunSearch s count (select_run s count preferred)
unfolding select_run
select_run-RunSearch s count preferred v pos =
    let start = s.round_robin_numa_node % active_numa_node_count s in
    let r = run_round_robin s count preferred start 0 (active_numa_node_count s) in
    finish_run-RunSearch s count (or_anywhere count r) (
      or_anywhere-RunSearch s count r v pos
        (run_round_robin-FindsRun s count preferred start 0 (active_numa_node_count s) v))

prefer_run-RunSearch :
    (s : Pmm) (count preferred : ℕ) (r : Option ℕ × Pmm)
    → IsValid s
    → 0 < count
    → FindsRun s count r
    → RunSearch s count (prefer_run count preferred r)
unfolding FindsRun RunSearch
prefer_run-RunSearch s count preferred (none, s') v pos h =
    subst (λ w. RunSearch s count (select_run w count preferred)) (sym h)
      (select_run-RunSearch s count preferred v pos)
prefer_run-RunSearch s count preferred (some run, s') v pos (fits, free, taken) =
    (fits, free, next_node-IsTaken s s' run count preferred taken)

pub find_frames-RunSearch :
    (s : Pmm) (count preferred : ℕ)
    → IsValid s
    → 0 < count
    → RunSearch s count (find_frames s count preferred)
unfolding find_frames
find_frames-RunSearch s count preferred v pos = elim (Bool-cases (is_preferred s preferred)) [
  | inl t ↦
      rw (t, find_frames)
        (prefer_run-RunSearch s count preferred _ v pos (find_in_node-FindsRun s preferred count v))
  | inr u ↦ rw (u, find_frames) (select_run-RunSearch s count preferred v pos)
]
