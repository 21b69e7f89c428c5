-- ===== src/Scheduler/Select.antt =====
-- The choice of a processor in kernel/kernel/scheduler.c. The arrays of the view are lists, which
-- are read below `cpu_count` only.
use dfos.Base.{
  ℕ, zero, suc, ◌+◌, Bool, false, ◌&&◌, ◌||◌, not, List, ltb, ◌==◌, if◌then◌else◌, get_or, bit_and,
  bit_or,
}
use dfos.Base.Masks.{shifted_one}

abbrev pub scheduler_invalid_cpu_id : ℕ
scheduler_invalid_cpu_id = 0xff

abbrev pub scheduler_numa_node_any : ℕ
scheduler_numa_node_any = 0xff

abbrev pub uint_max : ℕ
uint_max = 0xffffffff

-- The loop that collects the bits of the processors online, over `rounds` of them from `cpu` on.
unfoldable pub online_mask_from : List Bool → ℕ → ℕ → ℕ → ℕ
online_mask_from cpu_online cpu zero mask = mask
online_mask_from cpu_online cpu (suc rounds) mask =
    online_mask_from cpu_online (cpu + 1) rounds
      (if get_or cpu_online cpu false then bit_or mask (shifted_one cpu) else mask)

-- What stays of the affinity among the processors online: all of them, if nothing does.
unfoldable pub normalized_affinity : ℕ → ℕ → ℕ
normalized_affinity affinity_mask online_mask =
    let normalized = bit_and affinity_mask online_mask in
    if normalized == 0 then online_mask else normalized

pub record View : Type 0 where
  pub cpu_count : ℕ
  pub cpu_online : List Bool
  pub cpu_to_node : List ℕ
  pub cpu_load : List ℕ

-- Whether a pass looks at the processor at all.
unfoldable pub is_eligible : View → ℕ → Bool → ℕ → ℕ → Bool
is_eligible v affinity enforce_preferred_node preferred_numa_node cpu =
    not (bit_and affinity (shifted_one cpu) == 0)
    && not (enforce_preferred_node && not (get_or v.cpu_to_node cpu 0 == preferred_numa_node))

-- The body of the loop of a pass: the best processor so far, with its load.
unfoldable pub consider : ℕ → ℕ → ℕ → ℕ × ℕ → ℕ × ℕ
consider local_cpu load cpu (best_cpu, best_load) =
    if best_cpu == scheduler_invalid_cpu_id || ltb load best_load
    then (cpu, load)
    else if load == best_load
    then (
      if (cpu == local_cpu && not (best_cpu == local_cpu))
            || (not (best_cpu == local_cpu) && ltb cpu best_cpu)
          then cpu
          else best_cpu,
      best_load,
    )
    else (best_cpu, best_load)

unfoldable pub pass_from : View → ℕ → Bool → ℕ → ℕ → ℕ → ℕ → ℕ × ℕ → ℕ × ℕ
pass_from v affinity enforce preferred local_cpu cpu zero best = best
pass_from v affinity enforce preferred local_cpu cpu (suc rounds) best =
    pass_from v affinity enforce preferred local_cpu (cpu + 1) rounds (
      if is_eligible v affinity enforce preferred cpu
      then consider local_cpu (get_or v.cpu_load cpu 0) cpu best
      else best)

unfoldable pub run_pass : View → ℕ → Bool → ℕ → ℕ → ℕ
run_pass v affinity enforce preferred local_cpu =
    (pass_from v affinity enforce preferred local_cpu 0 v.cpu_count
      (scheduler_invalid_cpu_id, uint_max)).0

unfoldable pub scheduler_select_best_cpu_from_view : View → ℕ → ℕ → ℕ → ℕ
scheduler_select_best_cpu_from_view v affinity_mask preferred_numa_node local_cpu =
    let online_mask = online_mask_from v.cpu_online 0 v.cpu_count 0 in
    let affinity = normalized_affinity affinity_mask online_mask in
    let enforce = not (preferred_numa_node == scheduler_numa_node_any) in
    let first = run_pass v affinity enforce preferred_numa_node local_cpu in
    if v.cpu_count == 0 || online_mask == 0
    then scheduler_invalid_cpu_id
    else if not (first == scheduler_invalid_cpu_id)
    then first
    else run_pass v affinity false preferred_numa_node local_cpu
