-- ===== src/Pc/Tests.antt =====
-- `init_pc`, `pc_create` and `do_fork` at concrete inputs.
use mini_operating_system.Prelude.{
  ◌≡◌, refl, arith, none, some, pos, minus_one, [], if◌then◌else◌, ◌==◌,
}
use mini_operating_system.Pid.{alloc_pidmap, init_pid, find_next_zero_bit, test_and_set_bit}
use mini_operating_system.Pc.Context.{Cpu}
use mini_operating_system.Pc.State.{Sched, get_curr_pcb}
use mini_operating_system.Pc.Sample.{sample, early}
use mini_operating_system.Pc.Create.{pc_create, CreateEnds, pc_create-CreateEnds}
use mini_operating_system.Pc.Fork.{do_fork}
use mini_operating_system.Pc.Fork.Laws.{
  ForkEnds, do_fork-ForkEnds, RunsChild, RunsOther, do_fork-RunsChild, do_fork-RunsOther,
}
use mini_operating_system.Pc.Init.{init_pc}
use mini_operating_system.Trap.Table.{
  Vectors, pc_kill_syscall, pc_schedule, register_syscall, register_interrupt_handler,
}

pc_create-CreateEnds_example :
    CreateEnds (pos 3) 4096 9000 0 [] 7 sample (pc_create (pos 3) 4096 9000 0 [] 7 sample)
pc_create-CreateEnds_example = pc_create-CreateEnds (pos 3) 4096 9000 0 [] 7 sample refl

do_fork-ForkEnds_example : ForkEnds 20000 sample early (do_fork 20000 sample early)
do_fork-ForkEnds_example = do_fork-ForkEnds 20000 sample early refl

do_fork-RunsChild_example : RunsChild 20000 sample early (do_fork 20000 sample early)
do_fork-RunsChild_example = do_fork-RunsChild 20000 sample early refl refl

-- The shell, promoted to queue 7: its slot 0 of queue 6 is empty.
abbrev promoted : Sched
promoted = record sample {
  task_queue = λ q i. sample.task_queue (if q == 7 then 6 else if q == 6 then 7 else q) i;
  curr_queue = 7;
}

do_fork-RunsOther_example : RunsOther 20000 promoted early (do_fork 20000 promoted early)
do_fork-RunsOther_example = do_fork-RunsOther 20000 promoted early refl (omega arith)

-- `init_pc`
abbrev booted : Sched × Vectors × Cpu
booted =
    init_pc 0 sample (record { syscalls = λ _. none; interrupts = λ _. none; status = 0 }) early

boot_state :
    ((get_curr_pcb booted.0).asid ≡ pos 0)
    × (booted.0.curr_queue ≡ 4)
    × ((booted.0.task_queue 6 0).asid ≡ minus_one)
    × (booted.1.syscalls 10 ≡ some pc_kill_syscall)
    × (booted.1.interrupts 7 ≡ some pc_schedule)
    × (booted.2.compare ≡ 10000000)
unfolding init_pc register_syscall register_interrupt_handler alloc_pidmap init_pid
    find_next_zero_bit test_and_set_bit
boot_state = (refl, refl, refl, refl, refl, refl)
