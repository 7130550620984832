-- ===== src/Pc/Kill.antt =====
-- `pc_kill`, `pc_kill_syscall` and `alt_kill_mode` of kernel/pc/pc.c.
pub mod Sweep
pub mod Plain
mod Tests
use mini_operating_system.Prelude.{
  ℕ, zero, suc, ◌%◌, Bool, true, false, ◌&&◌, Option, none, some, ◌==◌, if◌then◌else◌, ℤ, pos,
  minus_one, eq_ℤ, is_pos, add32,
}
use mini_operating_system.Pid.{free_pidmap}
use mini_operating_system.Pc.Context.{Cpu}
use mini_operating_system.Pc.State.{Task, Sched, set_task, curr_slot, get_curr_pcb}
use mini_operating_system.Pc.Schedule.{pc_schedule}

-- The loop over the sixteen slots of a queue, from the one behind `cur` round to it, and the loop
-- over the queues `n - 1` to 0, each from behind its own position.
module _ {ℓ} {S : Type ℓ} (visit : ℕ → ℕ → S → S) where
  unfoldable pub sweep_queue : ℕ → ℕ → ℕ → S → S
  sweep_queue q zero cur s = s
  sweep_queue q (suc rounds) cur s =
      let next = add32 cur 1 % 16 in sweep_queue q rounds next (visit q next s)

  unfoldable pub sweep : (ℕ → ℕ) → ℕ → S → S
  sweep curr_proc zero s = s
  sweep curr_proc (suc i) s = sweep curr_proc i (sweep_queue i 16 (curr_proc i) s)

-- The state of the loops of `pc_kill`: the table, and whether the process was found (`flag`).
abbrev pub Search : Type 0
Search = Sched × Bool

-- The process itself: its pid is free again and its slot is empty.
unfoldable pub end_process : ℤ → ℕ → ℕ → Sched → Sched
end_process proc q i s =
    set_task q i (record (s.task_queue q i) { asid = minus_one })
      (record s { pids = free_pidmap proc s.pids })

-- One slot, where the children go to the process "init".
unfoldable pub adopt_visit : ℤ → ℕ → ℕ → Search → Search
adopt_visit proc q i (s, flag) =
    let t = s.task_queue q i in
    if eq_ℤ t.asid proc
    then (end_process proc q i s, true)
    else if eq_ℤ t.ppid proc
    then (set_task q i (record t { ppid = pos 0 }) s, flag)
    else (s, flag)

-- One slot, where the children are killed too. `none`: the recursion has not ended.
unfoldable pub tree_visit :
    (ℤ → Sched → Option (Sched × ℕ)) → ℤ → ℕ → ℕ → Option Search → Option Search
tree_visit kill proc q i none = none
tree_visit kill proc q i (some (s, flag)) =
    let t = s.task_queue q i in
    if eq_ℤ t.asid proc
    then some (end_process proc q i s, true)
    else if is_pos t.asid && eq_ℤ t.ppid proc
    then (elim (kill t.asid s) [ none ↦ none | some (s', _) ↦ some (s', flag) ])
    else some (s, flag)

-- 2 for a process that was found, 3 for none
abbrev pub answer : Option Search → Option (Sched × ℕ)
answer none = none
answer (some (s, flag)) = some (s, if flag then 2 else 3)

-- `pc_kill` with the status that it returns; the fuel bounds the depth of its recursion.
unfoldable pub pc_kill : ℕ → ℤ → Sched → Option (Sched × ℕ)
pc_kill zero proc s = none
pc_kill (suc fuel) proc s =
    if eq_ℤ proc (pos 0)
    then some (s, 0)
    else if eq_ℤ proc (pos 1)
    then some (s, 1)
    else if s.kill_state == 0
    then answer (sweep (tree_visit (pc_kill fuel) proc) s.curr_proc 8 (some (s, false)))
    else answer (some (sweep (adopt_visit proc) s.curr_proc 8 (s, false)))

-- The loops of `pc_kill_syscall` look at the parents alone, also in empty slots.
unfoldable pub adopt_children : ℤ → ℕ → ℕ → Sched → Sched
adopt_children asid q i s =
    let t = s.task_queue q i in
    if eq_ℤ t.ppid asid then set_task q i (record t { ppid = pos 0 }) s else s

unfoldable pub kill_children : ℕ → ℤ → ℕ → ℕ → Option Sched → Option Sched
kill_children fuel asid q i none = none
kill_children fuel asid q i (some s) =
    let t = s.task_queue q i in
    if eq_ℤ t.ppid asid
    then (elim (pc_kill fuel t.asid s) [ none ↦ none | some (s', _) ↦ some s' ])
    else some s

-- The end of a system call that schedules: out of fuel, in the endless loop, or done.
pub data Ended : Type 0 where
  out_of_fuel : Ended
  spins : Ended
  scheduled : Sched → Cpu → Ended

unfoldable pub reschedule : Cpu → Option Sched → Ended
reschedule c none = out_of_fuel
reschedule c (some s) = elim (pc_schedule s c) [ none ↦ spins | some (t, d) ↦ scheduled t d ]

unfoldable pub pc_kill_syscall : ℕ → Sched → Cpu → Ended
pc_kill_syscall fuel s₀ c =
    let asid = (get_curr_pcb s₀).asid in
    let s = record s₀ { pids = free_pidmap asid s₀.pids } in
    let swept =
      if s.kill_state == 0
      then sweep (kill_children fuel asid) s.curr_proc 8 (some s)
      else some (sweep (adopt_children asid) s.curr_proc 8 s) in
    reschedule c (elim swept [
      | none ↦ none
      | some u ↦
          some
            (set_task u.curr_queue (curr_slot u) (record (get_curr_pcb u) { asid = minus_one }) u)
    ])

unfoldable pub alt_kill_mode : Sched → Sched
alt_kill_mode s = record s { kill_state = if s.kill_state == 1 then 0 else 1 }
