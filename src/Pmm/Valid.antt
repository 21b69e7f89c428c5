-- ===== src/Pmm/Valid.antt =====
-- The well-formed states of kernel/kernel/pmm.c: the nodes divide the managed frames among
-- themselves, in order, and every counter is the number of clear bits it stands for.
use mathlib.Core.Option
use dfos.Base.{
  ℕ, suc, ◌+◌, ◌≤◌, ◌<◌, ◌^◌, true, false, ◌≡◌, refl, List, [], ◌∷◌, Option, none, some, arith, ◌⊎◌,
  inl, inr, subst, sym, ◌∙◌, Bool-cases,
}
use dfos.Pmm.Bitmap.{IsBitmap}
use dfos.Pmm.State.{NumaNode, Pmm, count_free, index_from, change_node, pmm_node_contains_frame}

-- The nodes divide the frames from `start` to `end`.
unfoldable pub NodesFrom : List ℕ → List NumaNode → ℕ → ℕ → Type 0
NodesFrom bitmap [] start end = start ≡ end
NodesFrom bitmap (node ∷ nodes) start end =
    (node.first_frame ≡ start)
    × (node.free_frames ≡ count_free bitmap start node.frame_count)
    × (start + node.frame_count ≤ end)
    × NodesFrom bitmap nodes (start + node.frame_count) end

pub record IsValid (s : Pmm) : Type 0 where
  pub is_bitmap : IsBitmap s.frame_bitmap s.total_frames
  pub fits : s.total_frames < 2 ^ 20
  pub nodes : NodesFrom s.frame_bitmap s.numa_nodes 0 s.total_frames
  pub counted : s.free_frames ≡ count_free s.frame_bitmap 0 s.total_frames

pub NodesFrom-le :
    (bitmap : List ℕ) (nodes : List NumaNode) (start end : ℕ)
    → NodesFrom bitmap nodes start end
    → start ≤ end
unfolding NodesFrom
NodesFrom-le bitmap [] start end h = omega arith
NodesFrom-le bitmap (node ∷ nodes) start end (_, _, le, h) = omega arith

change_node-suc :
    (f : NumaNode → NumaNode) (node : NumaNode) (nodes : List NumaNode) (id : Option ℕ)
    → change_node f (node ∷ nodes) (Option.map suc id) ≡ node ∷ change_node f nodes id
unfolding change_node
change_node-suc f node nodes none = refl
change_node-suc f node nodes (some id) = refl

contains_in :
    (node : NumaNode) (start frame : ℕ)
    → node.first_frame ≡ start
    → start + node.frame_count < 2 ^ 32
    → pmm_node_contains_frame node frame ≡ true
    → (start ≤ frame) × (frame < start + node.frame_count)
unfolding pmm_node_contains_frame
contains_in node start frame e w h = ground arith

contains_out :
    (node : NumaNode) (start frame : ℕ)
    → node.first_frame ≡ start
    → start + node.frame_count < 2 ^ 32
    → start ≤ frame
    → pmm_node_contains_frame node frame ≡ false
    → start + node.frame_count ≤ frame
unfolding pmm_node_contains_frame
contains_out node start frame e w lo h = ground arith

index_from_here :
    (node : NumaNode) (nodes : List NumaNode) (frame : ℕ)
    → pmm_node_contains_frame node frame ≡ true
    → index_from (node ∷ nodes) frame ≡ some 0
unfolding index_from
index_from_here node nodes frame h = rw (h) refl

index_from_later :
    (node : NumaNode) (nodes : List NumaNode) (frame : ℕ)
    → pmm_node_contains_frame node frame ≡ false
    → index_from (node ∷ nodes) frame ≡ Option.map suc (index_from nodes frame)
unfolding index_from
index_from_later node nodes frame h = rw (h) refl

-- A change of the bit of one frame, and what it does to the counter of the node that has it.
module _ (bitmap bitmap' : List ℕ) (f : NumaNode → NumaNode) (frame : ℕ)
    (outside : (start rounds : ℕ)
      → (frame < start) ⊎ (start + rounds ≤ frame)
      → count_free bitmap' start rounds ≡ count_free bitmap start rounds)
    (inside : (node : NumaNode)
      → node.first_frame ≤ frame
      → frame < node.first_frame + node.frame_count
      → node.first_frame + node.frame_count < 2 ^ 32
      → node.free_frames ≡ count_free bitmap node.first_frame node.frame_count
      → (f node).free_frames ≡ count_free bitmap' node.first_frame node.frame_count)
    (first : (node : NumaNode) → (f node).first_frame ≡ node.first_frame)
    (count : (node : NumaNode) → (f node).frame_count ≡ node.frame_count) where
  NodesFrom-above :
      (nodes : List NumaNode) (start end : ℕ)
      → frame < start
      → NodesFrom bitmap nodes start end
      → NodesFrom bitmap' nodes start end
  unfolding NodesFrom
  NodesFrom-above [] start end lt h = h
  NodesFrom-above (node ∷ nodes) start end lt (e, c, le, h) = (
    e,
    c ∙ sym (outside start node.frame_count (inl lt)),
    le,
    NodesFrom-above nodes (start + node.frame_count) end (omega arith) h,
  )

  NodesFrom-changed :
      (node : NumaNode) (nodes : List NumaNode) (start end : ℕ)
      → start ≤ frame
      → frame < start + node.frame_count
      → end < 2 ^ 32
      → NodesFrom bitmap (node ∷ nodes) start end
      → NodesFrom bitmap' (f node ∷ nodes) start end
  unfolding NodesFrom
  NodesFrom-changed node nodes start end lo hi w (e, c, le, h) = (
    first node ∙ e,
    subst (λ u. (f node).free_frames ≡ count_free bitmap' start u) (sym (count node))
        (subst (λ u. (f node).free_frames ≡ count_free bitmap' u node.frame_count) e
          (inside node (omega arith) (omega arith) (omega arith)
            (subst (λ u. node.free_frames ≡ count_free bitmap u node.frame_count) (sym e) c))),
    omega (arith, count node),
    subst (λ u. NodesFrom bitmap' nodes (start + u) end) (sym (count node))
        (NodesFrom-above nodes (start + node.frame_count) end hi h),
  )

  pub NodesFrom-change_node :
      (nodes : List NumaNode) (start end : ℕ)
      → start ≤ frame
      → frame < end
      → end < 2 ^ 32
      → NodesFrom bitmap nodes start end
      → NodesFrom bitmap' (change_node f nodes (index_from nodes frame)) start end
  unfolding NodesFrom change_node
  NodesFrom-change_node [] start end lo hi w h = absurd (omega arith)
  NodesFrom-change_node (node ∷ nodes) start end lo hi w (e, c, le, h) =
      elim (Bool-cases (pmm_node_contains_frame node frame)) [
        | inl t ↦
            let (_, hi') = contains_in node start frame e (omega arith) t in
            rw (index_from_here node nodes frame t)
              (NodesFrom-changed node nodes start end lo hi' w (e, c, le, h))
        | inr u ↦
            let lo' = contains_out node start frame e (omega arith) lo u in
            rw
              (
                index_from_later node nodes frame u,
                change_node-suc f node nodes (index_from nodes frame),
              )
              (
                e,
                c ∙ sym (outside start node.frame_count (inr lo')),
                le,
                NodesFrom-change_node nodes (start + node.frame_count) end lo' hi w h,
              )
      ]
