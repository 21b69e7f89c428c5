-- ===== src/Pmm/State.antt =====
-- The state of kernel/kernel/pmm.c and the primitives that run under its lock. The lock with
-- interrupts off makes each operation one step, so it has no place in the state. `numa_nodes` holds
-- the active entries of the array; the others are zero and never read.
use mathlib.Core.Option
use dfos.Base.{
  ℕ, zero, suc, ◌+◌, ◌-◌, ◌/◌, ◌%◌, ◌^◌, Bool, true, false, ◌&&◌, ◌||◌, not, List, [], ◌∷◌, Option,
  none, some, ltb, leb, ◌==◌, if◌then◌else◌, length, set, get_or,
}
use dfos.Base.Words.{add32}
use dfos.Pmm.Bitmap.{bitmap_set, bitmap_clear, bitmap_test}

abbrev pub pmm_max_numa_nodes : ℕ
pmm_max_numa_nodes = 8

abbrev pub pmm_numa_node_any : ℕ
pmm_numa_node_any = 0xff

abbrev pub page_size : ℕ
page_size = 4096

pub record NumaNode : Type 0 where
  pub first_frame : ℕ
  pub frame_count : ℕ
  pub free_frames : ℕ
  pub next_scan_frame : ℕ

pub record Pmm : Type 0 where
  pub frame_bitmap : List ℕ
  pub total_frames : ℕ
  pub free_frames : ℕ
  pub initialized : Bool
  pub numa_nodes : List NumaNode
  pub round_robin_numa_node : ℕ
  pub global_next_scan_frame : ℕ

abbrev pub active_numa_node_count : Pmm → ℕ
active_numa_node_count s = length s.numa_nodes

abbrev pub empty_node : NumaNode
empty_node = record { first_frame = 0; frame_count = 0; free_frames = 0; next_scan_frame = 0 }

-- `numa_nodes[id]`
abbrev pub node_at : Pmm → ℕ → NumaNode
node_at s id = get_or s.numa_nodes id empty_node

unfoldable pub pmm_node_contains_frame : NumaNode → ℕ → Bool
pmm_node_contains_frame node frame =
    if node.frame_count == 0
    then false
    else leb node.first_frame frame && ltb frame (add32 node.first_frame node.frame_count)

-- The index of the first node that contains the frame.
unfoldable pub index_from : List NumaNode → ℕ → Option ℕ
index_from [] frame = none
index_from (node ∷ nodes) frame =
    let rest = Option.map suc (index_from nodes frame) in
    if pmm_node_contains_frame node frame then some 0 else rest

unfoldable pub pmm_node_index_for_frame : Pmm → ℕ → ℕ
pmm_node_index_for_frame s frame = elim (index_from s.numa_nodes frame) [
  | none ↦ pmm_numa_node_any
  | some node ↦ node
]

-- The nodes from index `node_count - left` on, `remainder` of them with one frame more.
unfoldable pub layout_from : ℕ → ℕ → ℕ → ℕ → List NumaNode
layout_from base remainder cursor zero = []
layout_from base remainder cursor (suc left) =
    let frames = base + (if ltb 0 remainder then 1 else 0) in
    record { first_frame = cursor; frame_count = frames; free_frames = 0; next_scan_frame = cursor }
    ∷ layout_from base (remainder - 1) (add32 cursor frames) left

unfoldable pub clamp_node_count : ℕ → ℕ
clamp_node_count node_count =
    let n = if node_count == 0 then 1 else node_count in
    if ltb pmm_max_numa_nodes n then pmm_max_numa_nodes else n

unfoldable pub pmm_numa_reset_layout : Pmm → ℕ → Pmm
pmm_numa_reset_layout s node_count =
    let n = clamp_node_count node_count in
    record s {
      numa_nodes = layout_from (s.total_frames / n) (s.total_frames % n) 0 n;
      round_robin_numa_node = if leb n s.round_robin_numa_node then 0 else s.round_robin_numa_node;
      global_next_scan_frame =
          if leb s.total_frames s.global_next_scan_frame then 0 else s.global_next_scan_frame;
    }

-- The free frames among `rounds` frames from `frame` on.
unfoldable pub count_free : List ℕ → ℕ → ℕ → ℕ
count_free bitmap frame zero = 0
count_free bitmap frame (suc rounds) =
    (if bitmap_test bitmap frame then 0 else 1) + count_free bitmap (frame + 1) rounds

unfoldable pub recount_node : List ℕ → NumaNode → NumaNode
recount_node bitmap node = record node {
  free_frames =
      count_free bitmap node.first_frame
        (add32 node.first_frame node.frame_count - node.first_frame);
  next_scan_frame =
      if pmm_node_contains_frame node node.next_scan_frame
      then node.next_scan_frame
      else node.first_frame;
}

unfoldable pub recount_nodes : List ℕ → List NumaNode → List NumaNode
recount_nodes bitmap [] = []
recount_nodes bitmap (node ∷ nodes) = recount_node bitmap node ∷ recount_nodes bitmap nodes

unfoldable pub total_free : List NumaNode → ℕ
total_free [] = 0
total_free (node ∷ nodes) = node.free_frames + total_free nodes

unfoldable pub pmm_recount_numa_free_frames_locked : Pmm → Pmm
pmm_recount_numa_free_frames_locked s =
    let nodes = recount_nodes s.frame_bitmap s.numa_nodes in
    record s { numa_nodes = nodes; free_frames = total_free nodes % 2 ^ 32 }

-- The node's counter, if the frame has a node.
unfoldable pub change_node : (NumaNode → NumaNode) → List NumaNode → Option ℕ → List NumaNode
change_node f nodes none = nodes
change_node f nodes (some id) = set nodes id (f (get_or nodes id empty_node))

unfoldable pub take_frame : NumaNode → NumaNode
take_frame node =
    if ltb 0 node.free_frames then record node { free_frames = node.free_frames - 1 } else node

unfoldable pub give_frame : NumaNode → NumaNode
give_frame node = record node { free_frames = add32 node.free_frames 1 }

unfoldable pub reserve_frame_locked : Pmm → ℕ → Bool × Pmm
reserve_frame_locked s frame =
    if leb s.total_frames frame || bitmap_test s.frame_bitmap frame then (false, s) else (
      true,
      record s {
        frame_bitmap = bitmap_set s.frame_bitmap frame;
        free_frames = if ltb 0 s.free_frames then s.free_frames - 1 else s.free_frames;
        numa_nodes = change_node take_frame s.numa_nodes (index_from s.numa_nodes frame);
      },
    )

unfoldable pub release_frame_locked : Pmm → ℕ → Bool × Pmm
release_frame_locked s frame =
    if leb s.total_frames frame || not (bitmap_test s.frame_bitmap frame) then (false, s) else (
      true,
      record s {
        frame_bitmap = bitmap_clear s.frame_bitmap frame;
        free_frames = add32 s.free_frames 1;
        numa_nodes = change_node give_frame s.numa_nodes (index_from s.numa_nodes frame);
      },
    )
