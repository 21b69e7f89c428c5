-- ===== src/Pmm/Frames.antt =====
-- Taking and giving back one frame (kernel/kernel/pmm.c).
use dfos.Base.{
  ℕ, ◌+◌, ◌-◌, ◌%◌, ◌<◌, ◌^◌, Bool, true, false, not, ◌&&◌, ◌||◌, ◌≡◌, refl, arith, inl, inr, sym,
  ◌∙◌, ltb, leb, ◌==◌, if◌then◌else◌, Bool-cases,
}
use dfos.Pmm.Bitmap.{
  bitmap_set, bitmap_clear, bitmap_test, bitmap_set-IsBitmap, bitmap_clear-IsBitmap,
  bitmap_test-set, bitmap_test-clear,
}
use dfos.Pmm.State.{
  NumaNode, Pmm, index_from, change_node, take_frame, give_frame, reserve_frame_locked,
  release_frame_locked,
}
use dfos.Pmm.Count.{
  count_free-set, count_free-set_outside, count_free-clear, count_free-clear_outside, count_free_le,
}
use dfos.Pmm.Valid.{IsValid, NodesFrom-change_node}

abbrev pub is_used : Pmm → ℕ → Bool
is_used s frame = bitmap_test s.frame_bitmap frame

take_free : (node : NumaNode) (n : ℕ) → node.free_frames ≡ n + 1 → (take_frame node).free_frames ≡ n
unfolding take_frame
take_free node n e = rw (e) (ground arith)

take_first : (node : NumaNode) → (take_frame node).first_frame ≡ node.first_frame
unfolding take_frame
take_first node = ground arith

take_count : (node : NumaNode) → (take_frame node).frame_count ≡ node.frame_count
unfolding take_frame
take_count node = ground arith

give_free :
    (node : NumaNode) (n m : ℕ)
    → node.free_frames ≡ n
    → m ≡ n + 1
    → m < 2 ^ 32
    → (give_frame node).free_frames ≡ m
unfolding give_frame
give_free node n m e f w = omega arith

-- The state with a free frame taken.
abbrev taken : Pmm → ℕ → Pmm
taken s frame = record s {
  frame_bitmap = bitmap_set s.frame_bitmap frame;
  free_frames = if ltb 0 s.free_frames then s.free_frames - 1 else s.free_frames;
  numa_nodes = change_node take_frame s.numa_nodes (index_from s.numa_nodes frame);
}

abbrev given : Pmm → ℕ → Pmm
given s frame = record s {
  frame_bitmap = bitmap_clear s.frame_bitmap frame;
  free_frames = (s.free_frames + 1) % 2 ^ 32;
  numa_nodes = change_node give_frame s.numa_nodes (index_from s.numa_nodes frame);
}

module _ (s : Pmm) (frame : ℕ) (v : IsValid s) (h : frame < s.total_frames) where
  taken-IsValid : is_used s frame ≡ false → IsValid (taken s frame)
  taken-IsValid free = record {
    is_bitmap = bitmap_set-IsBitmap s.frame_bitmap s.total_frames frame v.is_bitmap h;
    fits = v.fits;
    nodes =
        NodesFrom-change_node s.frame_bitmap (bitmap_set s.frame_bitmap frame) take_frame frame
          (count_free-set_outside s.frame_bitmap s.total_frames frame v.is_bitmap h)
          (λ node lo hi w e. take_free node _ (
            e
            ∙ sym (
                count_free-set s.frame_bitmap s.total_frames frame v.is_bitmap h free
                  node.first_frame node.frame_count lo hi)))
          take_first take_count s.numa_nodes 0 s.total_frames (omega arith) h
          (omega (arith, v.fits)) v.nodes;
    counted = ground (
      arith,
      v.counted,
      count_free-set s.frame_bitmap s.total_frames frame v.is_bitmap h free 0 s.total_frames
          (omega arith) (omega arith),
    );
  }

  given-IsValid : is_used s frame ≡ true → IsValid (given s frame)
  unfolding give_frame
  given-IsValid used =
      let cleared = count_free-clear s.frame_bitmap s.total_frames frame v.is_bitmap h used in
      record {
        is_bitmap = bitmap_clear-IsBitmap s.frame_bitmap s.total_frames frame v.is_bitmap h;
        fits = v.fits;
        nodes =
            NodesFrom-change_node s.frame_bitmap (bitmap_clear s.frame_bitmap frame) give_frame
              frame (count_free-clear_outside s.frame_bitmap s.total_frames frame v.is_bitmap h)
              (λ node lo hi w e.
                give_free node _ _ e (cleared node.first_frame node.frame_count lo hi) (
                  omega (
                    arith,
                    count_free_le (bitmap_clear s.frame_bitmap frame) node.first_frame
                        node.frame_count,
                  )))
              (λ node. refl) (λ node. refl) s.numa_nodes 0 s.total_frames (omega arith) h
              (omega (arith, v.fits)) v.nodes;
        counted = omega (
          arith,
          v.fits,
          v.counted,
          cleared 0 s.total_frames (omega arith) (omega arith),
          count_free_le (bitmap_clear s.frame_bitmap frame) 0 s.total_frames,
        );
      }

-- What a reservation of one frame does: it succeeds exactly at a managed frame that is free.
unfoldable pub IsReserved : Pmm → ℕ → Bool × Pmm → Type 0
IsReserved s frame (done, s') =
    (done ≡ (ltb frame s.total_frames && not (is_used s frame)))
    × ((other : ℕ) → is_used s' other ≡ ((done && frame == other) || is_used s other))
    × (s'.free_frames + (if done then 1 else 0) ≡ s.free_frames)
    × (s'.total_frames ≡ s.total_frames)
    × IsValid s'

-- In a valid state a reservation succeeds exactly at a managed frame that is free; it changes
-- that bit alone, the counters follow, and the state stays valid.
pub reserve_frame_locked_lem :
    (s : Pmm) (frame : ℕ) → IsValid s → IsReserved s frame (reserve_frame_locked s frame)
unfolding reserve_frame_locked IsReserved
reserve_frame_locked_lem s frame v =
    elim (Bool-cases (leb s.total_frames frame || is_used s frame)) [
      | inl t ↦ rw (t) (ground (arith, t), λ other. refl, omega arith, refl, v)
      | inr u ↦
          let h : frame < s.total_frames = ground (arith, u) in
          let free : is_used s frame ≡ false = ground (arith, u) in
          let less =
            count_free-set s.frame_bitmap s.total_frames frame v.is_bitmap h free 0 s.total_frames
              (omega arith) (omega arith) in
          rw (u) (
            ground (arith, h, free),
            λ other.
                ground
                  (arith, bitmap_test-set s.frame_bitmap s.total_frames frame v.is_bitmap h other),
            ground (arith, less, v.counted),
            refl,
            taken-IsValid s frame v h free,
          )
    ]

-- What a release of one frame does: it succeeds exactly at a managed frame in use.
unfoldable pub IsReleased : Pmm → ℕ → Bool × Pmm → Type 0
IsReleased s frame (done, s') =
    (done ≡ (ltb frame s.total_frames && is_used s frame))
    × ((other : ℕ) → is_used s' other ≡ (not (done && frame == other) && is_used s other))
    × (s'.free_frames ≡ s.free_frames + (if done then 1 else 0))
    × (s'.total_frames ≡ s.total_frames)
    × IsValid s'

-- In a valid state a release succeeds exactly at a managed frame in use; it changes that bit
-- alone, the counters follow, and the state stays valid.
pub release_frame_locked_lem :
    (s : Pmm) (frame : ℕ) → IsValid s → IsReleased s frame (release_frame_locked s frame)
unfolding release_frame_locked IsReleased
release_frame_locked_lem s frame v =
    elim (Bool-cases (leb s.total_frames frame || not (is_used s frame))) [
      | inl t ↦ rw (t) (ground (arith, t), λ other. refl, omega arith, refl, v)
      | inr u ↦
          let h : frame < s.total_frames = ground (arith, u) in
          let used : is_used s frame ≡ true = ground (arith, u) in
          let valid = given-IsValid s frame v h used in
          let more =
            count_free-clear s.frame_bitmap s.total_frames frame v.is_bitmap h used 0 s.total_frames
              (omega arith) (omega arith) in
          rw (u) (
            ground (arith, h, used),
            λ other.
                ground (
                  arith,
                  bitmap_test-clear s.frame_bitmap s.total_frames frame v.is_bitmap h other,
                ),
            omega (arith, more, v.counted, valid.counted),
            refl,
            valid,
          )
    ]
