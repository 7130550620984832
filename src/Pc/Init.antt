-- ===== src/Pc/Init.antt =====
-- `init_pc` of kernel/pc/pc.c: the empty table with the process "init" in queue 4.
use mini_operating_system.Prelude.{
  ℕ, ◌-◌, ◌*◌, ◌&&◌, List, [], ◌∷◌, ltb, if◌then◌else◌, update, minus_one, word,
}
use mini_operating_system.Pid.{alloc_pidmap}
use mini_operating_system.Pc.Context.{Cpu}
use mini_operating_system.Pc.State.{Sched, put}
use mini_operating_system.Trap.Table.{
  Vectors, register_syscall, register_interrupt_handler, pc_kill_syscall, pc_preempt_syscall,
  do_fork, pc_schedule,
}

abbrev pub proc_default_timeslots : ℕ
proc_default_timeslots = 6

-- "init"
abbrev pub init_name : List ℕ
init_name = b'i' ∷ b'n' ∷ b'i' ∷ b't' ∷ []

-- The loops over the eight queues and their sixteen slots.
unfoldable pub clear_queues : Sched → Sched
clear_queues s = record s {
  task_queue = λ q i.
      if ltb q 8 && ltb i 16
      then record (s.task_queue q i) { asid = minus_one }
      else s.task_queue q i;
  curr_proc = λ q. if ltb q 8 then word - 1 else s.curr_proc q;
  time_slice = λ q. if ltb q 8 then 1000000 * (10 - q) else s.time_slice q;
  bits_map = λ q. if ltb q 8 then 0 else s.bits_map q;
}

-- `reg` is what `register_interrupt_handler` sets in the status register.
unfoldable pub init_pc : (reg : ℕ) → Sched → Vectors → Cpu → Sched × Vectors × Cpu
unfolding clear_queues
init_pc reg s₀ v c =
    let s = clear_queues s₀ in
    let (pid, pids) = alloc_pidmap s.pids in
    let init = record (s.task_queue 4 0) {
      asid = pid;
      ppid = minus_one;
      counter = proc_default_timeslots;
      priority = 4;
      name = init_name;
    } in
    (
      record s {
        task_queue = put s.task_queue 4 0 init;
        curr_proc = update s.curr_proc 4 0;
        curr_queue = 4;
        kill_state = 1;
        pids = pids;
      },
      register_interrupt_handler reg 7 pc_schedule (
          register_syscall 12 do_fork
            (register_syscall 11 pc_preempt_syscall (register_syscall 10 pc_kill_syscall v))),
      record c { count = 0; compare = 10000000 },
    )
