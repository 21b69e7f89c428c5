-- ===== src/Pmm/Nodes.antt =====
-- One node of a well-formed state of kernel/kernel/pmm.c, and changes of its cursor.
use dfos.Base.{
  ℕ, zero, suc, ◌+◌, ◌-◌, ◌≤◌, ◌<◌, ◌≡◌, refl, List, [], ◌∷◌, arith, subst, sym, ◌∙◌, set, get_or,
  length,
}
use dfos.Pmm.State.{
  NumaNode, Pmm, count_free, empty_node, node_at, active_numa_node_count, total_free,
}
use dfos.Pmm.Count.{count_free-append}
use dfos.Pmm.Valid.{IsValid, NodesFrom, NodesFrom-le}
use dfos.Pmm.Search.{set_next_scan}
use dfos.Pmm.Alloc.{next_node}

-- What the invariant says of one node.
unfoldable pub IsNode : List ℕ → ℕ → NumaNode → Type 0
IsNode bitmap end node =
    (node.free_frames ≡ count_free bitmap node.first_frame node.frame_count)
    × (node.first_frame + node.frame_count ≤ end)

NodesFrom-at :
    (bitmap : List ℕ) (nodes : List NumaNode) (start end id : ℕ)
    → NodesFrom bitmap nodes start end
    → id < length nodes
    → IsNode bitmap end (get_or nodes id empty_node)
unfolding NodesFrom IsNode
NodesFrom-at bitmap [] start end id h p = absurd (omega arith)
NodesFrom-at bitmap (node ∷ nodes) start end zero (e, c, le, h) p =
    (subst (λ u. node.free_frames ≡ count_free bitmap u node.frame_count) (sym e) c, omega arith)
NodesFrom-at bitmap (node ∷ nodes) start end (suc id) (e, c, le, h) p =
    NodesFrom-at bitmap nodes (start + node.frame_count) end id h (omega arith)

pub IsValid-node_at :
    (s : Pmm) (id : ℕ)
    → IsValid s
    → id < active_numa_node_count s
    → IsNode s.frame_bitmap s.total_frames (node_at s id)
IsValid-node_at s id v p = NodesFrom-at s.frame_bitmap s.numa_nodes 0 s.total_frames id v.nodes p

NodesFrom-set :
    (bitmap : List ℕ) (nodes : List NumaNode) (start end id next : ℕ)
    → NodesFrom bitmap nodes start end
    → NodesFrom bitmap
        (set nodes id (record (get_or nodes id empty_node) { next_scan_frame = next }))
        start
        end
unfolding NodesFrom
NodesFrom-set bitmap [] start end id next h = h
NodesFrom-set bitmap (node ∷ nodes) start end zero next h = h
NodesFrom-set bitmap (node ∷ nodes) start end (suc id) next (e, c, le, h) =
    (e, c, le, NodesFrom-set bitmap nodes (start + node.frame_count) end id next h)

pub set_next_scan-IsValid : (s : Pmm) (id next : ℕ) → IsValid s → IsValid (set_next_scan s id next)
unfolding set_next_scan
set_next_scan-IsValid s id next v = record {
  is_bitmap = v.is_bitmap;
  fits = v.fits;
  nodes = NodesFrom-set s.frame_bitmap s.numa_nodes 0 s.total_frames id next v.nodes;
  counted = v.counted;
}

-- The counters of the nodes add up.
pub total_free-NodesFrom :
    (bitmap : List ℕ) (nodes : List NumaNode) (start end size : ℕ)
    → NodesFrom bitmap nodes start end
    → start + size ≡ end
    → total_free nodes ≡ count_free bitmap start size
unfolding NodesFrom total_free count_free
total_free-NodesFrom bitmap [] start end size h e =
    let none : 0 ≡ size = omega arith in subst (λ u. 0 ≡ count_free bitmap start u) none refl
total_free-NodesFrom bitmap (node ∷ nodes) start end size (e, c, le, h) f =
    let rest = size - node.frame_count in
    let split : node.frame_count + rest ≡ size = omega arith in
    let ih =
      total_free-NodesFrom bitmap nodes (start + node.frame_count) end rest h
        (omega (arith, NodesFrom-le bitmap nodes (start + node.frame_count) end h)) in
    subst (λ u. node.free_frames + total_free nodes ≡ count_free bitmap start u) split
      (omega (arith, count_free-append bitmap start node.frame_count rest))

-- If every node's counter is zero, so is their sum.
pub total_free_none :
    (nodes : List NumaNode)
    → ((id : ℕ) → id < length nodes → (get_or nodes id empty_node).free_frames ≡ 0)
    → total_free nodes ≡ 0
unfolding total_free
total_free_none [] h = refl
total_free_none (node ∷ nodes) h =
    omega (arith, h 0 (omega arith), total_free_none nodes (λ id p. h (suc id) (omega arith)))

pub free_frames-total_free : (s : Pmm) → IsValid s → s.free_frames ≡ total_free s.numa_nodes
free_frames-total_free s v =
    v.counted
    ∙ sym (
        total_free-NodesFrom s.frame_bitmap s.numa_nodes 0 s.total_frames s.total_frames v.nodes
          (omega arith))

pub next_node-IsValid : (s : Pmm) (node : ℕ) → IsValid s → IsValid (next_node s node)
unfolding next_node
next_node-IsValid s node v = record {
  is_bitmap = v.is_bitmap;
  fits = v.fits;
  nodes = v.nodes;
  counted = v.counted;
}
