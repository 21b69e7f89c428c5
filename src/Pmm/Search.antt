-- ===== src/Pmm/Search.antt =====
-- The searches of kernel/kernel/pmm.c for a free frame and for a run of free frames.
use dfos.Base.{
  ℕ, zero, suc, ◌+◌, ◌-◌, Bool, true, false, ◌||◌, List, Option, none, some, ltb, leb, ◌==◌,
  if◌then◌else◌, set,
}
use dfos.Base.Words.{add32}
use dfos.Pmm.Bitmap.{bitmap_test}
use dfos.Pmm.State.{
  Pmm, NumaNode, active_numa_node_count, node_at, pmm_node_contains_frame, reserve_frame_locked,
}

-- Where the scan of a node starts.
unfoldable pub scan_cursor : NumaNode → ℕ
scan_cursor node =
    if pmm_node_contains_frame node node.next_scan_frame
    then node.next_scan_frame
    else node.first_frame

unfoldable pub set_next_scan : Pmm → ℕ → ℕ → Pmm
set_next_scan s id frame = record s {
  numa_nodes = set s.numa_nodes id (record (node_at s id) { next_scan_frame = frame });
}

-- The first of `rounds` frames from `frame` on that can be reserved, reserved.
unfoldable pub scan_frames : Pmm → ℕ → ℕ → Option (ℕ × Pmm)
scan_frames s frame zero = none
scan_frames s frame (suc rounds) =
    let rest = scan_frames s (frame + 1) rounds in
    let (reserved, s') = reserve_frame_locked s frame in
    if bitmap_test s.frame_bitmap frame then rest else if reserved then some (frame, s') else rest

-- The end of `pmm_find_free_frame_in_node_locked`, with the outcome of a scan.
unfoldable pub advance_scan : ℕ → ℕ → ℕ → ℕ × Pmm → ℕ × Pmm
advance_scan id start end (frame, s) =
    (frame, set_next_scan s id (if ltb (frame + 1) end then frame + 1 else start))

unfoldable pub pmm_find_free_frame_in_node_locked : Pmm → ℕ → Option (ℕ × Pmm)
pmm_find_free_frame_in_node_locked s id =
    let node = node_at s id in
    let start = node.first_frame in
    let end = add32 start node.frame_count in
    let cursor = scan_cursor node in
    if leb (active_numa_node_count s) id || (node.frame_count == 0 || node.free_frames == 0)
    then none
    else elim (scan_frames s cursor (end - cursor)) [
      | some found ↦ some (advance_scan id start end found)
      | none ↦ elim (scan_frames s start (cursor - start)) [
        | some found ↦ some (advance_scan id start end found)
        | none ↦ none
      ]
    ]

-- The loop over `rounds` frames from `frame` on.
unfoldable pub find_run : List ℕ → ℕ → ℕ → ℕ → ℕ → ℕ → Option ℕ
find_run bitmap frame_count frame zero run_start run_length = none
find_run bitmap frame_count frame (suc rounds) run_start run_length =
    elim (bitmap_test bitmap frame) [
      | true ↦ find_run bitmap frame_count (frame + 1) rounds run_start 0
      | false ↦
          let start = if run_length == 0 then frame else run_start in
          elim (run_length + 1 == frame_count) [
            | true ↦ some start
            | false ↦ find_run bitmap frame_count (frame + 1) rounds start (run_length + 1)
          ]
    ]

unfoldable pub pmm_find_contiguous_free_linear_locked : List ℕ → ℕ → ℕ → ℕ → Option ℕ
pmm_find_contiguous_free_linear_locked bitmap start end frame_count =
    if (leb end start || frame_count == 0) || ltb (end - start) frame_count
    then none
    else find_run bitmap frame_count start (end - start) 0 0

unfoldable pub pmm_find_contiguous_free_wrapped_locked : List ℕ → ℕ → ℕ → ℕ → ℕ → Option ℕ
pmm_find_contiguous_free_wrapped_locked bitmap start end frame_count search_start =
    let from = if ltb search_start start || leb end search_start then start else search_start in
    if (leb end start || frame_count == 0) || ltb (end - start) frame_count
    then none
    else elim (pmm_find_contiguous_free_linear_locked bitmap from end frame_count) [
      | some run ↦ some run
      | none ↦
          if from == start
          then none
          else pmm_find_contiguous_free_linear_locked bitmap start from frame_count
    ]

-- The loop stops at the first frame that cannot be reserved.
unfoldable pub pmm_reserve_contiguous_locked : Pmm → ℕ → ℕ → Bool × Pmm
pmm_reserve_contiguous_locked s frame zero = (true, s)
pmm_reserve_contiguous_locked s frame (suc rounds) =
    let (reserved, s') = reserve_frame_locked s frame in
    let rest = pmm_reserve_contiguous_locked s' (frame + 1) rounds in
    if reserved then rest else (false, s')

unfoldable pub pmm_find_contiguous_in_node_locked : Pmm → ℕ → ℕ → Option ℕ × Pmm
pmm_find_contiguous_in_node_locked s id frame_count =
    let node = node_at s id in
    let start = node.first_frame in
    let end = add32 start node.frame_count in
    if (leb (active_numa_node_count s) id || frame_count == 0)
      || (ltb node.frame_count frame_count || ltb node.free_frames frame_count)
    then (none, s)
    else elim (pmm_find_contiguous_free_wrapped_locked s.frame_bitmap start end frame_count
        (scan_cursor node)) [
          | none ↦ (none, s)
          | some run_start ↦
              let (reserved, s') = pmm_reserve_contiguous_locked s run_start frame_count in
              let next = add32 run_start frame_count in
              if reserved
              then (some run_start, set_next_scan s' id (if leb end next then start else next))
              else (none, s')
        ]
