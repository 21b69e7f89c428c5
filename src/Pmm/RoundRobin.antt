-- ===== src/Pmm/RoundRobin.antt =====
-- The search of the nodes in turn for a free frame (kernel/kernel/pmm.c).
use native.Mathlib.Nat.{mod-lt}
use dfos.Base.{
  ℕ, zero, suc, ◌+◌, ◌%◌, ◌≤◌, ◌<◌, false, ◌&&◌, ◌≡◌, Option, none, some, arith, inl, inr, subst,
  ◌==◌, Bool-cases, Option-cases,
}
use native.Mathlib.Decide.{ℕ_discrete}
use dfos.Pmm.State.{Pmm, node_at, active_numa_node_count}
use dfos.Pmm.Search.{pmm_find_free_frame_in_node_locked}
use dfos.Pmm.Alloc.{alloc_round_robin, next_node, is_preferred}
use dfos.Pmm.FindFrame.{IsAllocated}
use dfos.Pmm.NodeSearch.{IsSearch, find_free-IsSearch}
use dfos.Pmm.Nodes.{next_node-IsValid}
use dfos.Pmm.Valid.{IsValid}

-- The loop passes over the preferred node, and fails when every other node it visits is full.
unfoldable pub IsRound : Pmm → ℕ → ℕ → ℕ → ℕ → Option (ℕ × Pmm) → Type 0
IsRound s preferred start i rounds none =
    (j : ℕ)
    → i ≤ j
    → j < i + rounds
    → let node = (start + j) % active_numa_node_count s in
      (is_preferred s preferred && node == preferred) ≡ false → (node_at s node).free_frames ≡ 0
IsRound s preferred start i rounds (some (frame, s')) = IsAllocated s frame s'

IsRound-later :
    (s : Pmm) (preferred start i rounds : ℕ) (o : Option (ℕ × Pmm))
    → (let node = (start + i) % active_numa_node_count s in
        (is_preferred s preferred && node == preferred) ≡ false → (node_at s node).free_frames ≡ 0)
    → IsRound s preferred start (i + 1) rounds o
    → IsRound s preferred start i (suc rounds) o
unfolding IsRound
IsRound-later s preferred start i rounds none here h = λ j lo hi e. elim (ℕ_discrete i j) [
  | yes p ↦
      subst
        (λ u.
          (is_preferred s preferred && (start + u) % active_numa_node_count s == preferred) ≡ false
          → (node_at s ((start + u) % active_numa_node_count s)).free_frames ≡ 0)
        p here e
  | no p ↦ h j (omega arith) (omega arith) e
]
IsRound-later s preferred start i rounds (some r) here h = h

pub next_node-IsAllocated :
    (s : Pmm) (node frame : ℕ) (s' : Pmm)
    → IsAllocated s frame s'
    → IsAllocated s frame (next_node s' node)
unfolding IsAllocated next_node
next_node-IsAllocated s node frame s' (lt, free, bits, count, total, v) =
    (lt, free, bits, count, total, next_node-IsValid s' node v)

pub search_none :
    (s : Pmm) (id : ℕ)
    → IsValid s
    → pmm_find_free_frame_in_node_locked s id ≡ none
    → id < active_numa_node_count s
    → (node_at s id).free_frames ≡ 0
unfolding IsSearch
search_none s id v e = subst (IsSearch s id) e (find_free-IsSearch s id v)

pub search_some :
    (s : Pmm) (id : ℕ)
    → IsValid s
    → (r : ℕ × Pmm) → pmm_find_free_frame_in_node_locked s id ≡ some r
    → IsAllocated s r.0 r.1
unfolding IsSearch
search_some s id v r e = subst (IsSearch s id) e (find_free-IsSearch s id v)

pub alloc_round_robin-IsRound :
    (s : Pmm) (preferred start i rounds : ℕ)
    → IsValid s
    → 0 < active_numa_node_count s
    → IsRound s preferred start i rounds (alloc_round_robin s preferred start i rounds)
unfolding alloc_round_robin IsRound
alloc_round_robin-IsRound s preferred start i zero v pos = λ j lo hi e. absurd (omega arith)
alloc_round_robin-IsRound s preferred start i (suc rounds) v pos =
    let node = (start + i) % active_numa_node_count s in
    let later =
      IsRound-later s preferred start i rounds
        (alloc_round_robin s preferred start (i + 1) rounds) in
    let ih = alloc_round_robin-IsRound s preferred start (i + 1) rounds v pos in
    elim (Bool-cases (is_preferred s preferred && node == preferred)) [
      | inl t ↦ rw (t) (later (λ e. ground (arith, e, t)) ih)
      | inr u ↦ elim (Option-cases (pmm_find_free_frame_in_node_locked s node)) [
        | inl e ↦ rw (u, e) (later (λ _. search_none s node v e (mod-lt (start + i) pos)) ih)
        | inr (r, e) ↦ rw (u, e) (next_node-IsAllocated s node r.0 r.1 (search_some s node v r e))
      ]
    ]
