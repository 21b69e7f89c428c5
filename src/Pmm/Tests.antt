-- ===== src/Pmm/Tests.antt =====
-- Concrete states of kernel/kernel/pmm.c.
use dfos.Base.{true, ◌≡◌, refl, [], ◌∷◌, none, some, arith}
use dfos.Pmm.Bitmap.{bitmap_set, bitmap_test}
use dfos.Pmm.State.{
  Pmm, index_from, change_node, take_frame, reserve_frame_locked, release_frame_locked,
  pmm_node_contains_frame, count_free, pmm_node_index_for_frame, pmm_numa_node_any,
}
use dfos.Pmm.Search.{
  scan_frames, scan_cursor, advance_scan, set_next_scan, pmm_find_free_frame_in_node_locked,
  find_run, pmm_find_contiguous_free_linear_locked, pmm_find_contiguous_free_wrapped_locked,
  pmm_reserve_contiguous_locked, pmm_find_contiguous_in_node_locked,
}
use dfos.Pmm.Alloc.{
  next_node, preferred_frame, select_frame, to_address, pmm_alloc_frame_on_node,
  pmm_alloc_frames_on_node, pmm_free_frame, pmm_free_frames, find_frames, select_run, finish_run,
  run_round_robin, run_anywhere, after_run, pmm_configure_numa_topology,
}
use dfos.Pmm.Valid.{IsValid, NodesFrom}
use dfos.Pmm.Frames.{IsReserved, IsReleased, reserve_frame_locked_lem, release_frame_locked_lem}
use dfos.Pmm.Runs.{FirstRun, linear-FirstRun}
use dfos.Pmm.AllocFrame.{IsFrameAnswer, pmm_alloc_frame_on_node-IsFrameAnswer}
use dfos.Pmm.AllocFrames.{IsRunAnswer, pmm_alloc_frames_on_node-IsRunAnswer}
use dfos.Pmm.RoundTrip.{
  SameFrames, pmm_free_frame-alloc_frame_on_node, pmm_free_frames-alloc_frames_on_node,
}
use dfos.Pmm.Layout.{IsConfigured, pmm_configure_numa_topology-IsConfigured}

-- Ten frames, of which 0, 1 and 5 are in use, in two nodes of five.
abbrev ten : Pmm
ten = record {
  frame_bitmap = 0x23 ∷ 0 ∷ [];
  total_frames = 10;
  free_frames = 7;
  initialized = true;
  numa_nodes =
      record { first_frame = 0; frame_count = 5; free_frames = 3; next_scan_frame = 4 }
      ∷ record { first_frame = 5; frame_count = 5; free_frames = 4; next_scan_frame = 5 }
      ∷ [];
  round_robin_numa_node = 1;
  global_next_scan_frame = 3;
}

ten-IsValid : IsValid ten
unfolding NodesFrom count_free bitmap_test
ten-IsValid = record {
  is_bitmap = ((omega arith, (omega arith, tt)), omega arith);
  fits = omega arith;
  nodes = (refl, refl, omega arith, (refl, refl, omega arith, refl));
  counted = refl;
}

reserve_frame_locked_example : IsReserved ten 3 (reserve_frame_locked ten 3)
reserve_frame_locked_example = reserve_frame_locked_lem ten 3 ten-IsValid

release_frame_locked_example : IsReleased ten 5 (release_frame_locked ten 5)
release_frame_locked_example = release_frame_locked_lem ten 5 ten-IsValid

linear-FirstRun_example :
    FirstRun ten.frame_bitmap 3 0 10
      (pmm_find_contiguous_free_linear_locked ten.frame_bitmap 0 10 3)
linear-FirstRun_example = linear-FirstRun ten.frame_bitmap 3 0 10 (omega arith)

pmm_alloc_frame_on_node-IsFrameAnswer_example : IsFrameAnswer ten (pmm_alloc_frame_on_node ten 0)
pmm_alloc_frame_on_node-IsFrameAnswer_example =
    pmm_alloc_frame_on_node-IsFrameAnswer ten 0 ten-IsValid

pmm_alloc_frames_on_node-IsRunAnswer_example :
    IsRunAnswer ten 3 (pmm_alloc_frames_on_node ten 3 pmm_numa_node_any)
pmm_alloc_frames_on_node-IsRunAnswer_example =
    pmm_alloc_frames_on_node-IsRunAnswer ten 3 pmm_numa_node_any ten-IsValid

pmm_configure_numa_topology-IsConfigured_example :
    IsConfigured ten 3 (pmm_configure_numa_topology ten 3)
pmm_configure_numa_topology-IsConfigured_example =
    pmm_configure_numa_topology-IsConfigured ten 3 ten-IsValid (omega arith)

-- The state after frame 4 is taken from the preferred node 0.
abbrev ten_after : Pmm
ten_after = record ten {
  frame_bitmap = 0x33 ∷ 0 ∷ [];
  free_frames = 6;
  numa_nodes =
      record { first_frame = 0; frame_count = 5; free_frames = 2; next_scan_frame = 0 }
      ∷ record { first_frame = 5; frame_count = 5; free_frames = 4; next_scan_frame = 5 }
      ∷ [];
}

takes_frame_four : pmm_alloc_frame_on_node ten 0 ≡ some (0x4000, ten_after)
unfolding pmm_alloc_frame_on_node select_frame preferred_frame next_node to_address
    pmm_find_free_frame_in_node_locked scan_frames scan_cursor advance_scan set_next_scan
    reserve_frame_locked bitmap_set bitmap_test index_from change_node take_frame
    pmm_node_contains_frame
takes_frame_four = refl

pmm_free_frame-alloc_frame_on_node_example : SameFrames ten (pmm_free_frame ten_after 0x4000)
pmm_free_frame-alloc_frame_on_node_example =
    pmm_free_frame-alloc_frame_on_node ten 0 0x4000 ten_after ten-IsValid takes_frame_four

-- The state after frames 6 to 9 are taken from node 1.
abbrev ten_run : Pmm
ten_run = record ten {
  frame_bitmap = 0xe3 ∷ 3 ∷ [];
  free_frames = 3;
  numa_nodes =
      record { first_frame = 0; frame_count = 5; free_frames = 3; next_scan_frame = 4 }
      ∷ record { first_frame = 5; frame_count = 5; free_frames = 0; next_scan_frame = 5 }
      ∷ [];
  round_robin_numa_node = 0;
  global_next_scan_frame = 0;
}

takes_frames_six : pmm_alloc_frames_on_node ten 4 pmm_numa_node_any ≡ (some 0x6000, ten_run)
unfolding pmm_alloc_frames_on_node find_frames select_run finish_run run_round_robin after_run
    next_node run_anywhere pmm_find_contiguous_in_node_locked scan_cursor set_next_scan
    pmm_reserve_contiguous_locked reserve_frame_locked bitmap_set
    pmm_find_contiguous_free_wrapped_locked pmm_find_contiguous_free_linear_locked find_run
    pmm_node_index_for_frame bitmap_test index_from change_node take_frame pmm_node_contains_frame
takes_frames_six = refl

pmm_free_frames-alloc_frames_on_node_example : SameFrames ten (pmm_free_frames ten_run 0x6000 4)
pmm_free_frames-alloc_frames_on_node_example =
    pmm_free_frames-alloc_frames_on_node ten 4 pmm_numa_node_any 0x6000 ten_run ten-IsValid
      takes_frames_six

-- Ten free frames in one node, with both cursors at 5.
abbrev all_free : Pmm
all_free = record {
  frame_bitmap = 0 ∷ 0 ∷ [];
  total_frames = 10;
  free_frames = 10;
  initialized = true;
  numa_nodes =
      record { first_frame = 0; frame_count = 10; free_frames = 10; next_scan_frame = 5 } ∷ [];
  round_robin_numa_node = 0;
  global_next_scan_frame = 5;
}

-- Six frames in a row are free, but neither half of the search sees them.
misses_run : pmm_alloc_frames_on_node all_free 6 pmm_numa_node_any ≡ (none, all_free)
unfolding pmm_alloc_frames_on_node find_frames select_run finish_run run_round_robin run_anywhere
    pmm_find_contiguous_in_node_locked scan_cursor pmm_find_contiguous_free_wrapped_locked
    pmm_find_contiguous_free_linear_locked find_run bitmap_test pmm_node_contains_frame
misses_run = refl
