-- ===== src/Vma/Correct.antt =====
-- The operations of kernel/kernel/vma.c meet their specification and keep the invariant.
use dfos.Base.{
  ℕ, ◌+◌, ◌-◌, ◌%◌, ◌^◌, ◌≤◌, ◌<◌, Bool, true, false, ◌≡◌, refl, List, some, arith, length,
  if◌then◌else◌, Returns, Returns-bind, leb, ◌==◌, leb_false→lt, ◌>>=◌, Bool-cases, inl, inr,
}
use dfos.Vma.Node.{Region, Tree, NodePool, node_alloc, node_free, node_insert, node_remove}
use dfos.Vma.Tree.{VmaTree, vma_tree_insert, vma_tree_remove, finish_insert}
use dfos.Vma.InOrder.{to_list}
use dfos.Vma.Balance.{Balanced}
use dfos.Vma.Balance.Insert.{Grown, node_insert-Balanced}
use dfos.Vma.Balance.Remove.{Shrunk, node_remove-Balanced}
use dfos.Vma.Height.{depth-le_fifteen}
use dfos.Vma.Regions.{
  insert_region, insert_region-Within, remove_region, remove_region-Within, length-insert_region,
  length-remove_region,
}
use dfos.Vma.Search.{Search, to_list-Within, Within-Search}
use dfos.Vma.Refine.Insert.{node_insert-insert_region, insert_outcome}
use dfos.Vma.Refine.Remove.{Removes, node_remove-Removes}
use dfos.Vma.Valid.{IsValid, available, view, max_address}
use dfos.Vma.Spec.{insert_spec, remove_spec, or_unchanged}

-- The outcome of an operation: it is as specified, and the invariant holds.
abbrev pub Meets : ℕ → Bool × List Region → Bool × VmaTree × NodePool → Type 0
Meets others spec (ok, t, pool) = ((ok, view t) ≡ spec) × IsValid others t pool

-- A new node is inserted, or goes back to the pool.
insert_node_lem :
    (others : ℕ) (t : VmaTree) (p : NodePool) (x : Region)
    → Search 0 max_address t.root
    → Balanced t.root
    → t.node_count ≡ length (view t)
    → length (view t) + others + p.free_nodes + 1 ≡ 2048
    → p.initialized ≡ true
    → x.start < x.end
    → x.end ≤ max_address
    → Returns
        (node_insert t.root x >>= λ (root, inserted). some (finish_insert t p root inserted))
        (Meets others (or_unchanged (view t) (insert_region x (view t))))
unfolding finish_insert node_free
insert_node_lem others t p x s b c n i lt h =
    let d = depth-le_fifteen t.root b (omega arith) in
    Returns-bind (Grown t.root) (Meets others (or_unchanged (view t) (insert_region x (view t))))
      (node_insert t.root x) _ (node_insert-Balanced t.root x b (omega arith))
      (λ (root, inserted) e g.
        finish root inserted g
          (node_insert-insert_region 0 max_address t.root x root inserted s lt e))
  where
    finish :
        (root : Tree) (inserted : Bool)
        → Grown t.root (root, inserted)
        → insert_region x (view t) ≡ insert_outcome (root, inserted)
        → Meets others
            (or_unchanged (view t) (insert_region x (view t)))
            (finish_insert t p root inserted)
    finish root true g e =
        let w =
          insert_region-Within x 0 max_address (view t) (to_list root)
            (to_list-Within 0 max_address t.root s) (omega arith) lt h e in
        let k = length-insert_region x (view t) (to_list root) e in
        (
          rw e,
          record {
            ordered = Within-Search 0 max_address root w;
            balanced = g.0;
            counted = omega arith;
            conserved = rw i (omega arith);
          },
        )
    finish root false g e = (
      rw (e, g.3 refl),
      record {
        ordered = rw (g.3 refl) s;
        balanced = g.0;
        counted = rw (g.3 refl) c;
        conserved = rw (i, g.3 refl) (omega arith);
      },
    )

abbrev pool_of : ℕ → Bool → NodePool
pool_of free_nodes initialized = record { free_nodes = free_nodes; initialized = initialized }

abbrev pub region : ℕ → ℕ → ℕ → Region
region start end flags = record { start = start; end = end; flags = flags }

insert_bytes_lem :
    (others : ℕ) (t : VmaTree) (free_nodes : ℕ) (initialized : Bool) (start end flags : ℕ)
    → IsValid others t (pool_of free_nodes initialized)
    → end ≤ max_address
    → leb end start ≡ false
    → Returns (vma_tree_insert t (pool_of free_nodes initialized) start end flags) (
        Meets others (
          insert_spec
            (available (pool_of free_nodes initialized))
            (view t)
            (region start end flags)))
unfolding vma_tree_insert insert_spec node_alloc
insert_bytes_lem others t n true start end flags v h bytes = elim (Bool-cases (n == 0)) [
  | inl full ↦ rw (bytes, full, Returns) (refl, v)
  | inr room ↦
      rw (bytes, room, Returns)
        (insert_node_lem others t (pool_of (n - 1) true) (region start end flags) v.ordered
          v.balanced v.counted (ground arith) refl (leb_false→lt _ _ bytes) h)
]
insert_bytes_lem others t n false start end flags v h bytes =
    rw (bytes, Returns)
      (insert_node_lem others t (pool_of 2047 true) (region start end flags) v.ordered v.balanced
        v.counted (omega arith) refl (leb_false→lt _ _ bytes) h)

-- An insertion never faults: it does what the specification says, and keeps the invariant.
pub vma_tree_insert-insert_spec :
    (others : ℕ) (t : VmaTree) (pool : NodePool) (start end flags : ℕ)
    → IsValid others t pool
    → end ≤ max_address
    → Returns
        (vma_tree_insert t pool start end flags)
        (Meets others (insert_spec (available pool) (view t) (region start end flags)))
unfolding vma_tree_insert insert_spec
vma_tree_insert-insert_spec others t pool start end flags v h = elim (Bool-cases (leb end start)) [
  | inl empty ↦ rw (empty, Returns) (refl, v)
  | inr bytes ↦ insert_bytes_lem others t pool.free_nodes pool.initialized start end flags v h bytes
]

-- A removal never faults either.
pub vma_tree_remove-remove_spec :
    (others : ℕ) (t : VmaTree) (pool : NodePool) (start end : ℕ)
    → IsValid others t pool
    → Returns (vma_tree_remove t pool start end) (Meets others (remove_spec (view t) start end))
unfolding vma_tree_remove remove_spec node_free
vma_tree_remove-remove_spec others t pool start end v =
    let d = depth-le_fifteen t.root v.balanced (omega arith) in
    Returns-bind (Shrunk t.root)
      (Meets others (or_unchanged (view t) (remove_region start end (view t))))
      (node_remove t.root start end pool) _
      (node_remove-Balanced t.root start end pool v.balanced (omega arith))
      (λ (root, removed, p) e g.
        finish root removed p g
          (node_remove-Removes 0 max_address start end t.root root pool p removed v.ordered e))
  where
    finish :
        (root : Tree) (removed : Bool) (p : NodePool)
        → Shrunk t.root (root, removed, p)
        → Removes start end t.root pool root removed p
        → Meets others (or_unchanged (view t) (remove_region start end (view t))) (
          removed,
          record {
            root = root;
            node_count = if removed then (t.node_count + 2 ^ 32 - 1) % 2 ^ 32 else t.node_count;
          },
          p,
        )
    finish root true p g r =
        let w =
          remove_region-Within 0 max_address start end (view t) (to_list root)
            (to_list-Within 0 max_address t.root v.ordered) r.outcome in
        let k = length-remove_region start end (view t) (to_list root) r.outcome in
        (
          rw r.outcome,
          record {
            ordered = Within-Search 0 max_address root w;
            balanced = g.0;
            counted = omega arith;
            conserved = rw r.freed (ground arith);
          },
        )
    finish root false p g r =
        let same = r.unchanged refl in
        (
          rw (r.outcome, same),
          record {
            ordered =
                Within-Search 0 max_address root
                  (rw same (to_list-Within 0 max_address t.root v.ordered));
            balanced = g.0;
            counted = rw same v.counted;
            conserved = rw (same, r.freed) v.conserved;
          },
        )
