-- ===== src/Pmm/NodeSearch.antt =====
-- The search of one node for a free frame, from its cursor and round again (kernel/kernel/pmm.c).
use dfos.Base.{
  ℕ, ◌+◌, ◌-◌, ◌≤◌, ◌<◌, ◌^◌, true, ◌||◌, ◌≡◌, Option, none, some, arith, inl, inr, subst, ◌∙◌, ltb,
  leb, ◌==◌, Bool-cases, Option-cases,
}
use dfos.Base.Words.{add32}
use dfos.Pmm.State.{Pmm, NumaNode, node_at, active_numa_node_count, pmm_node_contains_frame}
use dfos.Pmm.Search.{
  scan_frames, scan_cursor, advance_scan, set_next_scan, pmm_find_free_frame_in_node_locked,
}
use dfos.Pmm.Count.{count_free_none, count_free_le}
use dfos.Pmm.Frames.{is_used}
use dfos.Pmm.FindFrame.{IsAllocated, IsScan, scan_frames-IsScan}
use dfos.Pmm.Nodes.{IsNode, IsValid-node_at, set_next_scan-IsValid}
use dfos.Pmm.Valid.{IsValid}

-- A search that fails does so at a node without a free frame.
unfoldable pub IsSearch : Pmm → ℕ → Option (ℕ × Pmm) → Type 0
IsSearch s id none = id < active_numa_node_count s → (node_at s id).free_frames ≡ 0
IsSearch s id (some (frame, s')) = IsAllocated s frame s'

scan_cursor_bounds :
    (node : NumaNode)
    → node.first_frame + node.frame_count < 2 ^ 32
    → (node.first_frame ≤ scan_cursor node)
      × (scan_cursor node ≤ node.first_frame + node.frame_count)
unfolding scan_cursor pmm_node_contains_frame
scan_cursor_bounds node w = (ground arith, ground arith)

advance_scan-IsSearch :
    (s : Pmm) (id start end : ℕ) (found : ℕ × Pmm)
    → IsAllocated s found.0 found.1
    → IsSearch s id (some (advance_scan id start end found))
unfolding advance_scan IsSearch IsAllocated set_next_scan
advance_scan-IsSearch s id start end (frame, t) (lt, free, bits, count, total, v) =
    (lt, free, bits, count, total, set_next_scan-IsValid t id _ v)

scan_allocates :
    (s : Pmm) (start rounds : ℕ)
    → IsValid s
    → (r : ℕ × Pmm) → scan_frames s start rounds ≡ some r
    → IsAllocated s r.0 r.1
unfolding IsScan
scan_allocates s start rounds v r e =
    let (_, _, allocated) = subst (IsScan s start rounds) e (scan_frames-IsScan s start rounds v) in
    allocated

scan_none :
    (s : Pmm) (start rounds : ℕ)
    → IsValid s
    → scan_frames s start rounds ≡ none
    → (frame : ℕ) → start ≤ frame
    → frame < start + rounds
    → frame < s.total_frames
    → is_used s frame ≡ true
unfolding IsScan
scan_none s start rounds v e = subst (IsScan s start rounds) e (scan_frames-IsScan s start rounds v)

-- When both scans fail, the node has no free frame.
scans_none :
    (s : Pmm) (id : ℕ)
    → IsValid s
    → id < active_numa_node_count s
    → let node = node_at s id in
      let cursor = scan_cursor node in
      scan_frames s cursor (add32 node.first_frame node.frame_count - cursor) ≡ none
      → scan_frames s node.first_frame (cursor - node.first_frame) ≡ none
      → node.free_frames ≡ 0
unfolding IsNode
scans_none s id v p above below =
    let node = node_at s id in
    let (count, le) = IsValid-node_at s id v p in
    let (lo, hi) = scan_cursor_bounds node (omega (arith, v.fits)) in
    count
    ∙ count_free_none s.frame_bitmap node.first_frame node.frame_count (λ frame from to.
      elim (Bool-cases (ltb frame (scan_cursor node))) [
        | inl t ↦
            scan_none s node.first_frame (scan_cursor node - node.first_frame) v below frame from
              (ground (arith, t, lo)) (omega arith)
        | inr u ↦
            scan_none s (scan_cursor node)
              (add32 node.first_frame node.frame_count - scan_cursor node) v above frame
              (ground (arith, u)) (omega (arith, v.fits)) (omega arith)
      ])

pub find_free-IsSearch :
    (s : Pmm) (id : ℕ) → IsValid s → IsSearch s id (pmm_find_free_frame_in_node_locked s id)
unfolding pmm_find_free_frame_in_node_locked IsSearch IsNode
find_free-IsSearch s id v =
    let node = node_at s id in
    let start = node.first_frame in
    let cursor = scan_cursor node in
    let end = add32 start node.frame_count in
    elim (Bool-cases
      (leb (active_numa_node_count s) id || (node.frame_count == 0 || node.free_frames == 0))) [
        | inl t ↦ rw (t) (λ p. ground (
          arith,
          t,
          IsValid-node_at s id v p,
          count_free_le s.frame_bitmap node.first_frame node.frame_count,
        ))
        | inr u ↦ elim (Option-cases (scan_frames s cursor (end - cursor))) [
          | inr (r, e) ↦
              rw (u, e)
                (advance_scan-IsSearch s id start end r
                  (scan_allocates s cursor (end - cursor) v r e))
          | inl above ↦ elim (Option-cases (scan_frames s start (cursor - start))) [
            | inr (r, e) ↦
                rw (u, above, e)
                  (advance_scan-IsSearch s id start end r
                    (scan_allocates s start (cursor - start) v r e))
            | inl below ↦ rw (u, above, below) (λ p. scans_none s id v p above below)
          ]
        ]
      ]
