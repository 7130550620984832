-- ===== src/Pc/Sample.antt =====
-- A small process table for the tests of kernel/pc/pc.c: "Shell" runs in queue 6, "time" waits in
-- queue 5.
use mini_operating_system.Prelude.{ℕ, ◌-◌, ◌*◌, ◌&&◌, [], ◌==◌, if◌then◌else◌, ℤ, pos, minus_one}
use mini_operating_system.Pid.{init_pid}
use mini_operating_system.Pc.Context.{Context, Cpu}
use mini_operating_system.Pc.State.{Task, Table, Sched}

abbrev pub zero_context : Context
zero_context = record {
  epc = 0;
  at = 0;
  v0 = 0;
  v1 = 0;
  a0 = 0;
  a1 = 0;
  a2 = 0;
  a3 = 0;
  t0 = 0;
  t1 = 0;
  t2 = 0;
  t3 = 0;
  t4 = 0;
  t5 = 0;
  t6 = 0;
  t7 = 0;
  s0 = 0;
  s1 = 0;
  s2 = 0;
  s3 = 0;
  s4 = 0;
  s5 = 0;
  s6 = 0;
  s7 = 0;
  t8 = 0;
  t9 = 0;
  hi = 0;
  lo = 0;
  gp = 0;
  sp = 0;
  fp = 0;
  ra = 0;
}

abbrev pub task : ℤ → ℤ → ℕ → Task
task asid ppid priority = record {
  context = zero_context;
  asid = asid;
  ppid = ppid;
  counter = 0;
  name = [];
  start_time = 0;
  time_slice = 0;
  priority = priority;
  stack = 4096;
}

abbrev pub shell : Task
shell = task (pos 1) (pos 0) 6

abbrev pub timer : Task
timer = task (pos 2) (pos 1) 5

abbrev pub sample_table : Table
sample_table q i =
    if (q == 6) && (i == 0)
    then shell
    else if (q == 5) && (i == 0)
    then timer
    else task minus_one minus_one 0

abbrev pub sample : Sched
sample = record {
  task_queue = sample_table;
  curr_proc = λ _. 0;
  curr_queue = 6;
  time_slice = λ q. 1000000 * (10 - q);
  bits_map = λ _. 0;
  kill_state = 1;
  pids = init_pid;
}

-- 100 ticks of the 4000000 of queue 6 have passed.
abbrev pub early : Cpu
early = record {
  pt_context = record zero_context { epc = 64 };
  count = 100;
  compare = 4000000;
  memory = λ _. 0;
}
