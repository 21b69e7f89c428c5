-- ===== src/Vma/Node.antt =====
-- The nodes of kernel/kernel/vma.c. A `vma_node_t*` is a `Tree`; a node that is not in a tree is
-- its `Region`. The free nodes are counted: which of them is handed out is never observed.
-- `none` is a read through a null pointer.
use mathlib.Core.Option
use dfos.Base.{
  ℕ, ◌+◌, ◌-◌, Bool, true, false, Option, none, some, ◌||◌, not, ltb, leb, ◌==◌, if◌then◌else◌,
  ◌>>=◌,
}
use dfos.Base.Int.{ℤ, pos, negsuc, ◌+ℤ◌, ◌-ℤ◌, ltb_ℤ, int8}

abbrev pub vma_max_nodes : ℕ
vma_max_nodes = 2048

-- The address range and the flags of a node.
pub record Region : Type 0 where
  pub start : ℕ
  pub end : ℕ
  pub flags : ℕ

-- The fields of a node: its range, its height, its children.
pub data Tree : Type 0 where
  null : Tree
  node : Region → ℤ → Tree → Tree → Tree

-- `free_nodes` and `pool_initialized`
pub record NodePool : Type 0 where
  pub free_nodes : ℕ
  pub initialized : Bool

unfoldable pub max_i32 : ℤ → ℤ → ℤ
max_i32 a b = if ltb_ℤ b a then a else b

-- The loop puts every node of the array on the free list.
unfoldable pub node_pool_init : NodePool → NodePool
node_pool_init p =
    if p.initialized then p else record { free_nodes = vma_max_nodes; initialized = true }

-- A node as `node_alloc` hands it out.
abbrev pub fresh_node : Region → Tree
fresh_node x = node x (pos 1) null null

unfoldable pub node_alloc : Region → NodePool → Option Region × NodePool
unfolding node_pool_init
node_alloc x pool =
    let p = node_pool_init pool in
    if p.free_nodes == 0 then (none, p) else (some x, record p { free_nodes = p.free_nodes - 1 })

unfoldable pub node_free : NodePool → NodePool
node_free p = record p { free_nodes = p.free_nodes + 1 }

unfoldable pub node_height : Tree → ℤ
node_height null = pos 0
node_height (node x h l r) = h

unfoldable pub refreshed_height : Tree → Tree → ℤ
refreshed_height l r = int8 (pos 1 +ℤ max_i32 (node_height l) (node_height r))

-- The node with this range and these children, its height computed anew.
unfoldable pub node_refresh_height : Region → Tree → Tree → Tree
node_refresh_height x l r = node x (refreshed_height l r) l r

unfoldable pub node_balance_factor : Tree → Option ℤ
node_balance_factor null = none
node_balance_factor (node x h l r) = some (node_height l -ℤ node_height r)

unfoldable pub rotate_right : Tree → Option Tree
rotate_right (node x h (node y k a b) c) =
    some (node_refresh_height y a (node_refresh_height x b c))
rotate_right _ = none

unfoldable pub rotate_left : Tree → Option Tree
rotate_left (node x h a (node y k b c)) = some (node_refresh_height y (node_refresh_height x a b) c)
rotate_left _ = none

-- `rotate_left(t)` if the test passes, and `t` otherwise.
abbrev pub rotate_left_if : Bool → Tree → Option Tree
rotate_left_if true t = rotate_left t
rotate_left_if false t = some t

abbrev pub rotate_right_if : Bool → Tree → Option Tree
rotate_right_if true t = rotate_right t
rotate_right_if false t = some t

-- The branch of `rebalance` for `balance > 1`.
unfoldable pub lower_left : Region → ℤ → Tree → Tree → Option Tree
lower_left x h l r = do
  b ← node_balance_factor l
  l' ← rotate_left_if (ltb_ℤ b (pos 0)) l
  rotate_right (node x h l' r)

-- The branch for `balance < -1`.
unfoldable pub lower_right : Region → ℤ → Tree → Tree → Option Tree
lower_right x h l r = do
  b ← node_balance_factor r
  r' ← rotate_right_if (ltb_ℤ (pos 0) b) r
  rotate_left (node x h l r')

unfoldable pub rebalance : Tree → Option Tree
rebalance null = none
rebalance (node x old l r) =
    let h = refreshed_height l r in
    let balance = node_height l -ℤ node_height r in
    if ltb_ℤ (pos 1) balance
    then lower_left x h l r
    else if ltb_ℤ balance (negsuc 0)
    then lower_right x h l r
    else some (node x h l r)

-- The end of `node_insert`, after the recursive call.
unfoldable pub rebalance_if : Bool → Tree → Option (Tree × Bool)
rebalance_if true t = Option.map (λ t'. (t', true)) (rebalance t)
rebalance_if false t = some (t, false)

-- The Boolean is `*inserted`.
unfoldable pub node_insert : Tree → Region → Option (Tree × Bool)
node_insert null x = some (fresh_node x, true)
node_insert (node y h l r) x = elim (leb x.end y.start) [
  | true ↦ node_insert l x >>= λ (l', inserted). rebalance_if inserted (node y h l' r)
  | false ↦ elim (leb y.end x.start) [
    | true ↦ node_insert r x >>= λ (r', inserted). rebalance_if inserted (node y h l r')
    | false ↦ some (node y h l r, false)
  ]
]

unfoldable pub node_leftmost : Tree → Option Region
node_leftmost null = none
node_leftmost (node x h null r) = some x
node_leftmost (node x h (node y k a b) r) = node_leftmost (node y k a b)

abbrev pub is_null : Tree → Bool
is_null null = true
is_null (node x h l r) = false

-- `rebalance(root)`, with what the removal in a child returned.
unfoldable pub rebalance_after : Tree → Bool × NodePool → Option (Tree × Bool × NodePool)
rebalance_after t (removed, pool) = Option.map (λ t'. (t', removed, pool)) (rebalance t)

-- The end of `node_remove` at the node that is to go; `drop` removes the successor from `r`.
unfoldable pub remove_root :
    ℤ
    → Tree
    → Tree
    → NodePool
    → (Region → Option (Tree × Bool × NodePool))
    → Option (Tree × Bool × NodePool)
remove_root h l r pool drop =
    if is_null l || is_null r
    then some (if not (is_null l) then l else r, true, node_free pool)
    else (node_leftmost r >>= λ successor.
        drop successor >>= λ (r', dropped, p). rebalance_after (node successor h l r') (true, p))

-- The Boolean is `*removed`, false at the call.
unfoldable pub node_remove : Tree → ℕ → ℕ → NodePool → Option (Tree × Bool × NodePool)
node_remove null start end pool = some (null, false, pool)
node_remove (node y h l r) start end pool = elim (ltb start y.start) [
  | true ↦ node_remove l start end pool >>= λ (l', removed, p).
      rebalance_after (node y h l' r) (removed, p)
  | false ↦ elim (ltb y.start start) [
    | true ↦ node_remove r start end pool >>= λ (r', removed, p).
        rebalance_after (node y h l r') (removed, p)
    | false ↦ elim (y.end == end) [
      | false ↦ some (node y h l r, false, pool)
      | true ↦ remove_root h l r pool (λ x. node_remove r x.start x.end pool)
    ]
  ]
]

-- Every node of the subtree goes back to the pool.
unfoldable pub node_release_subtree : Tree → NodePool → NodePool
node_release_subtree null pool = pool
node_release_subtree (node x h l r) pool =
    node_free (node_release_subtree r (node_release_subtree l pool))
