-- ===== src/Pmm/Alloc.antt =====
-- The operations of kernel/kernel/pmm.c that the rest of the kernel calls. `none` is the answer
-- `false`, when nothing is written to the out-parameter.
use mathlib.Core.Option
use dfos.Base.{
  ℕ, zero, suc, ◌+◌, ◌-◌, ◌*◌, ◌/◌, ◌%◌, ◌^◌, Bool, true, false, ◌&&◌, ◌||◌, not, Option, none,
  some, ltb, leb, ◌==◌, if◌then◌else◌,
}
use dfos.Base.Words.{add32}
use dfos.Pmm.State.{
  Pmm, page_size, pmm_numa_node_any, pmm_max_numa_nodes, active_numa_node_count,
  reserve_frame_locked, release_frame_locked, pmm_node_index_for_frame, pmm_numa_reset_layout,
  pmm_recount_numa_free_frames_locked,
}
use dfos.Pmm.Search.{
  pmm_find_free_frame_in_node_locked, pmm_find_contiguous_in_node_locked,
  pmm_find_contiguous_free_wrapped_locked, pmm_reserve_contiguous_locked,
}

-- Whether the caller asked for a node that exists.
abbrev pub is_preferred : Pmm → ℕ → Bool
is_preferred s preferred =
    not (preferred == pmm_numa_node_any) && ltb preferred (active_numa_node_count s)

unfoldable pub next_node : Pmm → ℕ → Pmm
next_node s node = record s { round_robin_numa_node = (node + 1) % active_numa_node_count s }

-- The loop of `pmm_alloc_frame_on_node`, from round `i` on.
unfoldable pub alloc_round_robin : Pmm → ℕ → ℕ → ℕ → ℕ → Option (ℕ × Pmm)
alloc_round_robin s preferred start_node i zero = none
alloc_round_robin s preferred start_node i (suc rounds) =
    let node = (start_node + i) % active_numa_node_count s in
    let rest = alloc_round_robin s preferred start_node (i + 1) rounds in
    if is_preferred s preferred && node == preferred
    then rest
    else elim (pmm_find_free_frame_in_node_locked s node) [
      | none ↦ rest
      | some (frame, s') ↦ some (frame, next_node s' node)
    ]

unfoldable pub preferred_frame : Pmm → ℕ → Option (ℕ × Pmm)
preferred_frame s preferred =
    if is_preferred s preferred then pmm_find_free_frame_in_node_locked s preferred else none

-- The frame that is selected, with the new state.
unfoldable pub select_frame : Pmm → ℕ → Option (ℕ × Pmm)
select_frame s preferred = elim (preferred_frame s preferred) [
  | some (frame, s') ↦ some (frame, next_node s' preferred)
  | none ↦
      alloc_round_robin s preferred (s.round_robin_numa_node % active_numa_node_count s) 0
        (active_numa_node_count s)
]

unfoldable pub to_address : ℕ × Pmm → ℕ × Pmm
to_address (frame, s) = (frame * page_size % 2 ^ 32, s)

unfoldable pub pmm_alloc_frame_on_node : Pmm → ℕ → Option (ℕ × Pmm)
pmm_alloc_frame_on_node s preferred =
    if (not s.initialized || active_numa_node_count s == 0) || s.free_frames == 0
    then none
    else Option.map to_address (select_frame s preferred)

unfoldable pub pmm_alloc_frame : Pmm → Option (ℕ × Pmm)
pmm_alloc_frame s = pmm_alloc_frame_on_node s pmm_numa_node_any

unfoldable pub pmm_free_frame : Pmm → ℕ → Pmm
pmm_free_frame s physical_addr = (release_frame_locked s (physical_addr / page_size)).1

-- The loop of `pmm_free_frames` and of `pmm_mark_available_range`.
unfoldable pub release_frames : Pmm → ℕ → ℕ → Pmm
release_frames s frame zero = s
release_frames s frame (suc rounds) =
    release_frames (release_frame_locked s frame).1 (add32 frame 1) rounds

unfoldable pub pmm_free_frames : Pmm → ℕ → ℕ → Pmm
pmm_free_frames s physical_addr frame_count =
    release_frames s (physical_addr / page_size) frame_count

-- The loop of `pmm_reserve_range`.
unfoldable pub reserve_frames : Pmm → ℕ → ℕ → Pmm
reserve_frames s frame zero = s
reserve_frames s frame (suc rounds) =
    reserve_frames (reserve_frame_locked s frame).1 (frame + 1) rounds

-- The frames of a range of bytes that lie below `total_frames`, from `start_frame` on.
abbrev frames_below : Pmm → ℕ → ℕ → ℕ
frames_below s start_frame end_frame =
    (if ltb s.total_frames end_frame then s.total_frames else end_frame) - start_frame

unfoldable pub pmm_mark_available_range : Pmm → ℕ → ℕ → Pmm
pmm_mark_available_range s base size =
    let start_frame = base / page_size in
    let end_frame = (base + size) / page_size in
    release_frames s start_frame (frames_below s start_frame end_frame)

-- `align_up_u64` to a page: the sum has 33 bits at most.
unfoldable pub align_up_page : ℕ → ℕ
align_up_page value = (value + page_size - 1) / page_size * page_size

unfoldable pub pmm_reserve_range : Pmm → ℕ → ℕ → Pmm
pmm_reserve_range s base size =
    let start_frame = base / page_size in
    let end_frame = align_up_page (base + size) / page_size in
    reserve_frames s start_frame (frames_below s start_frame end_frame)

-- The loop of `pmm_alloc_frames_on_node`, from round `i` on.
unfoldable pub run_round_robin : Pmm → ℕ → ℕ → ℕ → ℕ → ℕ → Option ℕ × Pmm
run_round_robin s frame_count preferred start_node i zero = (none, s)
run_round_robin s frame_count preferred start_node i (suc rounds) =
    let node = (start_node + i) % active_numa_node_count s in
    let (found, s') = pmm_find_contiguous_in_node_locked s node frame_count in
    let skipped = run_round_robin s frame_count preferred start_node (i + 1) rounds in
    let rest = run_round_robin s' frame_count preferred start_node (i + 1) rounds in
    if is_preferred s preferred && node == preferred
    then skipped
    else elim found [ none ↦ rest | some run_start ↦ (some run_start, next_node s' node) ]

-- The search across the nodes, when no node has the run.
unfoldable pub run_anywhere : Pmm → ℕ → Option ℕ × Pmm
run_anywhere s frame_count =
    elim (pmm_find_contiguous_free_wrapped_locked s.frame_bitmap 0 s.total_frames frame_count
      s.global_next_scan_frame) [
        | none ↦ (none, s)
        | some run_start ↦
            let (reserved, s') = pmm_reserve_contiguous_locked s run_start frame_count in
            if reserved then (some run_start, s') else (none, s')
      ]

-- The bookkeeping after a run was found by the round robin or across the nodes.
unfoldable pub after_run : Pmm → ℕ → ℕ → Pmm
after_run s run_start frame_count =
    let next = add32 run_start frame_count in
    let node = pmm_node_index_for_frame s run_start in
    let s' = record s {
      global_next_scan_frame = if leb s.total_frames next then next % s.total_frames else next;
    } in
    if not (node == pmm_numa_node_any) && ltb 0 (active_numa_node_count s)
    then next_node s' node
    else s'

unfoldable pub finish_run : ℕ → Option ℕ × Pmm → Option ℕ × Pmm
finish_run frame_count (none, s) = (none, s)
finish_run frame_count (some run_start, s) = (some run_start, after_run s run_start frame_count)

abbrev pub or_anywhere : ℕ → Option ℕ × Pmm → Option ℕ × Pmm
or_anywhere frame_count (none, s) = run_anywhere s frame_count
or_anywhere frame_count (some run_start, s) = (some run_start, s)

unfoldable pub select_run : Pmm → ℕ → ℕ → Option ℕ × Pmm
select_run s frame_count preferred = finish_run frame_count (
    or_anywhere frame_count (
      run_round_robin s frame_count preferred (s.round_robin_numa_node % active_numa_node_count s) 0
        (active_numa_node_count s)))

-- The preferred node first, whose search the state already went through.
abbrev pub prefer_run : ℕ → ℕ → Option ℕ × Pmm → Option ℕ × Pmm
prefer_run frame_count preferred (some run_start, s) = (some run_start, next_node s preferred)
prefer_run frame_count preferred (none, s) = select_run s frame_count preferred

unfoldable pub find_frames : Pmm → ℕ → ℕ → Option ℕ × Pmm
find_frames s frame_count preferred =
    if is_preferred s preferred
    then prefer_run frame_count preferred
        (pmm_find_contiguous_in_node_locked s preferred frame_count)
    else select_run s frame_count preferred

unfoldable pub pmm_alloc_frames_on_node : Pmm → ℕ → ℕ → Option ℕ × Pmm
pmm_alloc_frames_on_node s frame_count preferred =
    let (run, t) = find_frames s frame_count preferred in
    if frame_count == 0
    then (none, s)
    else if (not s.initialized || active_numa_node_count s == 0) || ltb s.free_frames frame_count
    then (none, s)
    else (Option.map (λ run_start. run_start * page_size % 2 ^ 32) run, t)

unfoldable pub pmm_alloc_frames : Pmm → ℕ → Option ℕ × Pmm
pmm_alloc_frames s frame_count = pmm_alloc_frames_on_node s frame_count pmm_numa_node_any

-- The recount runs if the bitmap is there and some frame is managed.
unfoldable pub pmm_configure_numa_topology : Pmm → ℕ → Bool × Pmm
pmm_configure_numa_topology s node_count =
    if node_count == 0 || ltb pmm_max_numa_nodes node_count
    then (false, s)
    else (let t = pmm_numa_reset_layout s node_count in
        (true, if ltb 0 t.total_frames then pmm_recount_numa_free_frames_locked t else t))

unfoldable pub pmm_numa_node_for_physical : Pmm → ℕ → ℕ
pmm_numa_node_for_physical s physical_addr =
    let frame = physical_addr / page_size in
    if leb s.total_frames frame then pmm_numa_node_any else pmm_node_index_for_frame s frame

unfoldable pub pmm_free_memory_kib : Pmm → ℕ
pmm_free_memory_kib s = s.free_frames * 4 % 2 ^ 32
