-- ===== src/Pmm/Layout.antt =====
-- The division of the frames among the nodes (kernel/kernel/pmm.c).
use native.Mathlib.Nat.{mul_comm, suc-mul, mod-lt, mod-add-div'}
use dfos.Base.{
  ℕ, zero, suc, ◌+◌, ◌-◌, ◌*◌, ◌/◌, ◌%◌, ◌≤◌, ◌<◌, ◌^◌, Bool, true, false, ◌&&◌, ◌||◌, ◌≡◌, refl,
  List, [], ◌∷◌, arith, subst, sym, ltb, leb, ◌==◌, if◌then◌else◌, Bool-cases, ◌∙◌, ap, inl, inr,
  length,
}
use dfos.Base.Words.{add32}
use dfos.Pmm.State.{
  Pmm, NumaNode, pmm_max_numa_nodes, active_numa_node_count, count_free, layout_from,
  clamp_node_count, pmm_numa_reset_layout, recount_node, recount_nodes, total_free,
  pmm_recount_numa_free_frames_locked,
}
use dfos.Pmm.Alloc.{pmm_configure_numa_topology}
use dfos.Pmm.Count.{count_free_le}
use dfos.Pmm.Nodes.{total_free-NodesFrom}
use dfos.Pmm.Valid.{IsValid, NodesFrom}

length-layout_from :
    (base remainder cursor left : ℕ) → length (layout_from base remainder cursor left) ≡ left
unfolding layout_from
length-layout_from base remainder cursor zero = refl
length-layout_from base remainder cursor (suc left) =
    ap suc (length-layout_from base (remainder - 1) _ left)

length-recount_nodes :
    (bitmap : List ℕ) (nodes : List NumaNode) → length (recount_nodes bitmap nodes) ≡ length nodes
unfolding recount_nodes
length-recount_nodes bitmap [] = refl
length-recount_nodes bitmap (node ∷ nodes) = ap suc (length-recount_nodes bitmap nodes)

-- Counting the nodes of a layout gives nodes that divide the frames.
recount-layout_from :
    (bitmap : List ℕ) (base remainder cursor left end : ℕ)
    → remainder ≤ left
    → cursor + (left * base + remainder) ≡ end
    → end < 2 ^ 32
    → NodesFrom bitmap (recount_nodes bitmap (layout_from base remainder cursor left)) cursor end
unfolding layout_from recount_nodes recount_node NodesFrom
recount-layout_from bitmap base remainder cursor zero end le e w = omega arith
recount-layout_from bitmap base remainder cursor (suc left) end le e w =
    let frames = base + (if ltb 0 remainder then 1 else 0) in
    let product = suc-mul left base in
    let fits : cursor + frames ≤ end = ground (arith, product, e, le) in
    let next : add32 cursor frames ≡ cursor + frames = omega arith in
    (
      refl,
      ap (count_free bitmap cursor) (omega arith),
      fits,
      subst
          (λ u.
            NodesFrom bitmap (recount_nodes bitmap (layout_from base (remainder - 1) u left))
              (cursor + frames) end)
          (sym next)
          (recount-layout_from bitmap base (remainder - 1) (cursor + frames) left end (omega arith)
            (ground (arith, product, e)) w),
    )

-- The layout of `n` nodes, counted.
abbrev laid_out : Pmm → ℕ → List NumaNode
laid_out s n =
    recount_nodes s.frame_bitmap (layout_from (s.total_frames / n) (s.total_frames % n) 0 n)

laid_out-NodesFrom :
    (s : Pmm) (n : ℕ)
    → 0 < n
    → s.total_frames < 2 ^ 20
    → NodesFrom s.frame_bitmap (laid_out s n) 0 s.total_frames
laid_out-NodesFrom s n pos w =
    let split = mod-add-div' s.total_frames n in
    let product : s.total_frames / n * n ≡ n * (s.total_frames / n) =
      mul_comm (s.total_frames / n) n in
    recount-layout_from s.frame_bitmap (s.total_frames / n) (s.total_frames % n) 0 n s.total_frames
      (omega (arith, mod-lt s.total_frames pos)) (omega (arith, split, product)) (omega arith)

clamp_in : (n : ℕ) → (n == 0 || ltb pmm_max_numa_nodes n) ≡ false → clamp_node_count n ≡ n
unfolding clamp_node_count
clamp_in n u = ground (arith, u)

-- The answer, and what a new topology keeps.
unfoldable pub IsConfigured : Pmm → ℕ → Bool × Pmm → Type 0
IsConfigured s n (done, s') =
    (done ≡ (ltb 0 n && leb n pmm_max_numa_nodes))
    × (active_numa_node_count s' ≡ (if done then n else active_numa_node_count s))
    × (s'.frame_bitmap ≡ s.frame_bitmap)
    × (s'.free_frames ≡ s.free_frames)
    × (s'.total_frames ≡ s.total_frames)
    × IsValid s'

-- In a valid state with a frame, a topology of 1 to 8 nodes is accepted and sets that many nodes,
-- which divide the frames with correct counters; any other is refused; the bitmap and the count
-- of free frames stay.
pub pmm_configure_numa_topology-IsConfigured :
    (s : Pmm) (node_count : ℕ)
    → IsValid s
    → 0 < s.total_frames
    → IsConfigured s node_count (pmm_configure_numa_topology s node_count)
unfolding pmm_configure_numa_topology IsConfigured pmm_numa_reset_layout
    pmm_recount_numa_free_frames_locked
pmm_configure_numa_topology-IsConfigured s n v pos =
    elim (Bool-cases (n == 0 || ltb pmm_max_numa_nodes n)) [
      | inl t ↦ rw (t) (ground (arith, t), refl, refl, refl, refl, v)
      | inr u ↦
          let clamped : clamp_node_count n ≡ n = clamp_in n u in
          let managed : ltb 0 s.total_frames ≡ true = ground arith in
          let nodes = laid_out-NodesFrom s n (ground (arith, u)) v.fits in
          let sum : total_free (laid_out s n) % 2 ^ 32 ≡ s.free_frames = omega (
            arith,
            v.fits,
            v.counted,
            total_free-NodesFrom s.frame_bitmap (laid_out s n) 0 s.total_frames s.total_frames nodes
                (omega arith),
            count_free_le s.frame_bitmap 0 s.total_frames,
          ) in
          rw (u, clamped, managed)
            (
              ground (arith, u),
              length-recount_nodes s.frame_bitmap
                    (layout_from (s.total_frames / n) (s.total_frames % n) 0 n)
                  ∙ length-layout_from _ _ _ n,
              refl,
              sum,
              refl,
              record {
                is_bitmap = v.is_bitmap;
                fits = v.fits;
                nodes = nodes;
                counted = sum ∙ v.counted;
              },
            )
    ]
