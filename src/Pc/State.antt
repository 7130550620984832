-- ===== src/Pc/State.antt =====
-- The process table of kernel/pc/pc.c and kernel/pc/pc.h.
use mini_operating_system.Prelude.{
  ℕ, zero, suc, ◌%◌, Bool, true, false, ◌&&◌, List, ◌==◌, if◌then◌else◌, ℤ, is_neg, is_pos, add32,
}
use mini_operating_system.Pc.Context.{Context}
use mini_operating_system.Pid.{PidMap}

-- `task_struct`. A name is its characters up to the terminator; `kernel_strcpy` copies those.
pub record Task : Type 0 where
  pub context : Context
  pub asid : ℤ
  pub ppid : ℤ
  pub counter : ℕ
  pub name : List ℕ
  pub start_time : ℕ
  pub time_slice : ℕ
  pub priority : ℕ
  pub stack : ℕ

-- The slots of all queues, by queue and position.
abbrev pub Table : Type 0
Table = ℕ → ℕ → Task

-- The globals of pc.c, and those of pid.c that it works on. `curr_proc` is an `int` that is -1 at
-- first: it stands here as its bit pattern.
pub record Sched : Type 0 where
  pub task_queue : Table
  pub curr_proc : ℕ → ℕ
  pub curr_queue : ℕ
  pub time_slice : ℕ → ℕ
  pub bits_map : ℕ → ℕ
  pub kill_state : ℕ
  pub pids : PidMap

-- `task_queue[q].pcb[i] = t`
abbrev pub put : Table → ℕ → ℕ → Task → Table
put f q i t a b = if (a == q) && (b == i) then t else f a b

abbrev pub set_task : ℕ → ℕ → Task → Sched → Sched
set_task q i t s = record s { task_queue = put s.task_queue q i t }

-- `curr_proc[curr_queue]`, and the process there (`get_curr_pcb`)
abbrev pub curr_slot : Sched → ℕ
curr_slot s = s.curr_proc s.curr_queue

abbrev pub get_curr_pcb : Sched → Task
get_curr_pcb s = s.task_queue s.curr_queue (curr_slot s)

abbrev pub is_empty : Task → Bool
is_empty t = is_neg t.asid

abbrev pub is_runnable : Task → Bool
is_runnable t = is_pos t.asid

-- The loop that five functions have: from a position on, round the queue, to the first slot that
-- passes the test. Also whether it stopped before its rounds were up.
unfoldable pub seek : (Task → Bool) → (ℕ → Task) → ℕ → ℕ → ℕ × Bool
seek test level zero pos = (pos, false)
seek test level (suc rounds) pos =
    let next = add32 pos 1 % 16 in
    let rest = seek test level rounds next in if test (level next) then (next, true) else rest
