-- ===== src/Vma/Tests.antt =====
-- Concrete trees of kernel/kernel/vma.c.
use dfos.Base.{true, ◌≡◌, refl, [], ◌∷◌, some, arith, Returns}
use dfos.Base.Int.{pos}
use dfos.Vma.Node.{Region, Tree, null, node, NodePool}
use dfos.Vma.Node
use dfos.Vma.Gap
use dfos.Vma.Tree
use dfos.Vma.Tree.{
  VmaTree, vma_tree_insert, vma_tree_remove, vma_tree_find, vma_tree_first, vma_tree_find_gap,
  vma_tree_clear,
}
use dfos.Base.Int
use dfos.Vma.Regions.{find_region}
use dfos.Vma.Valid.{IsValid, view}
use dfos.Vma.Spec.{insert_spec, remove_spec}
use dfos.Vma.Correct.{Meets, region, vma_tree_insert-insert_spec, vma_tree_remove-remove_spec}
use dfos.Vma.Lookup.{vma_tree_find-find_region, vma_tree_first-head?, vma_tree_clear-IsValid}
use dfos.Vma.FindGap.{FirstGap, vma_tree_find_gap-FirstGap}
use dfos.Vma.Client.{Sees, vma_tree_find-insert, vma_tree_insert-find_gap}
use dfos.Vma.ZeroGap.{vma_tree_find_gap_zero}

abbrev low : Region
low = region 0x1000 0x3000 1

abbrev high : Region
high = region 0x5000 0x6000 2

-- Two regions, the upper one at the root.
abbrev two : VmaTree
two = record { root = node high (pos 2) (node low (pos 1) null null) null; node_count = 2 }

abbrev pool : NodePool
pool = record { free_nodes = 2046; initialized = true }

two-IsValid : IsValid 0 two pool
two-IsValid = record {
  ordered = omega arith;
  balanced = (refl, omega arith, omega arith, (refl, omega arith, omega arith, tt, tt), tt);
  counted = refl;
  conserved = refl;
}

-- The third region goes to the left of the left child: one rotation.
insert_rotates :
    vma_tree_insert two pool 0x800 0x1000 3
    ≡ some (
      true,
      record {
        root =
            node low
              (pos 2)
              (node (region 0x800 0x1000 3) (pos 1) null null)
              (node high (pos 1) null null);
        node_count = 3;
      },
      record { free_nodes = 2045; initialized = true },
    )
unfolding vma_tree_insert Tree.finish_insert Node.node_alloc Node.node_insert Node.rebalance_if
    Node.rebalance Node.refreshed_height Node.node_height Node.max_i32 Node.lower_left
    Node.node_balance_factor Node.rotate_right Node.node_refresh_height Int.ltb_ℤ Int.◌-ℤ◌ Int.◌+ℤ◌
    Int.int8
insert_rotates = refl

first_gap_runs : vma_tree_find_gap two 0x1000 0x8000 0x1800 0x1000 ≡ some 0x3000
unfolding vma_tree_find_gap Gap.align_up_u32 Gap.gap_search_in_order Gap.visit Gap.add_fits_limit
    Tree.finish_gap
first_gap_runs = refl

vma_tree_insert-insert_spec_example :
    Returns
      (vma_tree_insert two pool 0x3000 0x5000 3)
      (Meets 0 (insert_spec 2046 (low ∷ high ∷ []) (region 0x3000 0x5000 3)))
vma_tree_insert-insert_spec_example =
    vma_tree_insert-insert_spec 0 two pool 0x3000 0x5000 3 two-IsValid (omega arith)

vma_tree_remove-remove_spec_example :
    Returns
      (vma_tree_remove two pool 0x5000 0x6000)
      (Meets 0 (remove_spec (low ∷ high ∷ []) 0x5000 0x6000))
vma_tree_remove-remove_spec_example =
    vma_tree_remove-remove_spec 0 two pool 0x5000 0x6000 two-IsValid

vma_tree_find_gap-FirstGap_example :
    FirstGap 0x1000 0x8000 0x1800 0x1000
      (low ∷ high ∷ [])
      (vma_tree_find_gap two 0x1000 0x8000 0x1800 0x1000)
vma_tree_find_gap-FirstGap_example =
    vma_tree_find_gap-FirstGap two 0x1000 0x8000 0x1800 0x1000 two-IsValid.ordered (omega arith)
      (omega arith) (omega arith) (omega arith)

vma_tree_insert-find_gap_example :
    Returns (vma_tree_insert two pool 0x3000 0x4800 0) (λ (ok, _, _). ok ≡ true)
vma_tree_insert-find_gap_example =
    vma_tree_insert-find_gap 0 two pool 0x1000 0x8000 0x1800 0x1000 0 0x3000 two-IsValid
      (omega arith) (omega arith) (omega arith) (omega arith) (omega arith) first_gap_runs

vma_tree_find-insert_example :
    Returns (vma_tree_insert two pool 0x3000 0x5000 3) (Sees two (region 0x3000 0x5000 3))
vma_tree_find-insert_example =
    vma_tree_find-insert 0 two pool 0x3000 0x5000 3 two-IsValid (omega arith)

vma_tree_find-find_region_example : vma_tree_find two 0x2fff ≡ find_region 0x2fff (low ∷ high ∷ [])
vma_tree_find-find_region_example = vma_tree_find-find_region two 0x2fff two-IsValid.ordered

vma_tree_first-head?_example : vma_tree_first two ≡ some low
vma_tree_first-head?_example = vma_tree_first-head? two

vma_tree_clear-IsValid_example :
    let (t, p) = vma_tree_clear two pool in (view t ≡ []) × IsValid 0 t p × (p.free_nodes ≡ 2048)
vma_tree_clear-IsValid_example = vma_tree_clear-IsValid 0 two pool two-IsValid

-- One region, from address 0 to just past half of the address space.
abbrev bottom : Region
bottom = region 0 0x8000_0001 0

abbrev one : VmaTree
one = record { root = node bottom (pos 1) null null; node_count = 1 }

vma_tree_find_gap_zero_example :
    (vma_tree_find_gap one 0 0xffff_ffff 0x1000 0x8000_0000 ≡ some 0)
    × (vma_tree_find one 0 ≡ some bottom)
unfolding Gap.align_up_u32
vma_tree_find_gap_zero_example =
    vma_tree_find_gap_zero one bottom 0xffff_ffff 0x1000 0x8000_0000 (omega arith) refl refl
      (omega arith) (omega arith) refl (omega arith, omega arith, refl) (omega arith)
