-- ===== src/Pc/Schedule.antt =====
-- `pc_schedule` of kernel/pc/pc.c, by its four parts: save, change of queue, choice, load.
pub mod Seek
pub mod Choice
pub mod Census
pub mod Requeue
pub mod Priority
pub mod Theorems
mod Tests
use mini_operating_system.Prelude.{
  ℕ, zero, suc, ◌+◌, ◌-◌, ◌≤◌, Bool, true, false, not, ◌&&◌, Option, none, some, ltb, leb, ◌==◌,
  if◌then◌else◌, update, minus_one,
}
use mini_operating_system.Pc.Context.{Cpu, copy_context}
use mini_operating_system.Pc.State.{
  Task, Sched, put, set_task, curr_slot, get_curr_pcb, is_empty, is_runnable, seek,
}

-- The context and the counter go to the running process; the counter starts anew.
unfoldable pub save : Sched → Cpu → Sched
save s c =
    let running = get_curr_pcb s in
    set_task s.curr_queue (curr_slot s)
      (record running { context = copy_context c.pt_context running.context; time_slice = c.count })
      s

-- What of the process is copied to the slot `dest` of another queue.
unfoldable pub copy_pcb : Cpu → (src dest : Task) → Task
copy_pcb c src dest = record dest {
  context = copy_context c.pt_context dest.context;
  priority = src.priority;
  time_slice = src.time_slice;
  name = src.name;
  asid = src.asid;
  ppid = src.ppid;
  stack = src.stack;
}

-- The process at position `i` of queue `q` goes to the empty slot of queue `to`, and runs there.
unfoldable pub move_pcb : (q i to slot : ℕ) → Cpu → Sched → Sched
move_pcb q i to slot c s =
    let src = s.task_queue q i in
    let copied = set_task to slot (copy_pcb c src (s.task_queue to slot)) s in
    record (set_task q i (record src { asid = minus_one }) copied) { curr_queue = to }

-- The running process moves to an empty slot of queue `to`, if there is one. In any case
-- `curr_proc[to]` has moved on.
unfoldable pub migrate : ℕ → Cpu → Sched → Sched
migrate to c s =
    let (slot, found) = seek is_empty (s.task_queue to) 16 (s.curr_proc to) in
    let s' = record s { curr_proc = update s.curr_proc to slot } in
    if found then move_pcb s'.curr_queue (curr_slot s') to slot c s' else s'

-- Preempted before its time was up: one queue up, from the basic priority on.
unfoldable pub promote : Cpu → Sched → Sched
promote c s =
    if leb 4 s.curr_queue && not (s.curr_queue == 7) then migrate (s.curr_queue + 1) c s else s

-- The time is up: one queue down, but not below the basic priority.
unfoldable pub demote : Cpu → Sched → Sched
demote c s₀ =
    let s =
      set_task s₀.curr_queue (curr_slot s₀) (record (get_curr_pcb s₀) { time_slice = 0 }) s₀ in
    if ltb 4 s.curr_queue then migrate (s.curr_queue - 1) c s else s

unfoldable pub requeue : Cpu → Sched → Sched
requeue c s = if ltb (get_curr_pcb s).time_slice c.compare then promote c s else demote c s

-- The search from queue `n - 1` down for a process to run; `none` when there is none.
unfoldable pub select : ℕ → Sched → Option Sched
select zero s = none
select (suc i) s =
    let (slot, found) = seek is_runnable (s.task_queue i) 16 (s.curr_proc i) in
    let s' = record s { curr_proc = update s.curr_proc i slot } in
    let rest = select i s' in if found then some (record s' { curr_queue = i }) else rest

-- The context of the chosen process goes to the CPU, with its time slice.
unfoldable pub load : Sched → Cpu → Cpu
load s c =
    let chosen = get_curr_pcb s in
    record c {
      pt_context = copy_context chosen.context c.pt_context;
      compare = s.time_slice chosen.priority;
      count = chosen.time_slice;
    }

-- `none` is the endless loop behind the message "PCB[0] is invalid".
unfoldable pub pc_schedule : Sched → Cpu → Option (Sched × Cpu)
unfolding load
pc_schedule s c = elim (select 8 (requeue c (save s c))) [
  | none ↦ none
  | some t ↦ some (t, load t (record c { count = 0 }))
]
