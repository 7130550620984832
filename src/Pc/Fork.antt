-- ===== src/Pc/Fork.antt =====
-- `do_fork` of kernel/pc/pc.c. The address of the new stack is what `kmalloc` returns.
pub mod Laws
use mini_operating_system.Prelude.{
  ℕ, ◌-◌, ◌≡◌, Bool, true, false, Option, none, some, if◌then◌else◌, add32, sub32, word, update, ℤ,
  pos, negsuc,
}
use mini_operating_system.Utils.Memory.{kernel_memcpy}
use mini_operating_system.Pid.{alloc_pidmap}
use mini_operating_system.Pc.Context.{Context, Cpu, copy_context}
use mini_operating_system.Pc.State.{Task, Sched, set_task, curr_slot, get_curr_pcb, is_empty, seek}

-- An `int` in a register
abbrev pub to_word : ℤ → ℕ
to_word (pos n) = n
to_word (negsuc n) = word - 1 - n

-- The pid goes to the slot and to `v1`, and the state of the parent is saved.
unfoldable pub fork_parent : (priority slot : ℕ) → Sched → Cpu → Sched × Cpu
fork_parent priority slot s c =
    let (pid, pids) = alloc_pidmap s.pids in
    let s₁ =
      set_task priority slot (record (s.task_queue priority slot) { asid = pid })
        (record s { pids = pids }) in
    let c₁ = record c { pt_context = record c.pt_context { v1 = to_word pid } } in
    let running = get_curr_pcb s₁ in
    (
      set_task s₁.curr_queue (curr_slot s₁)
          (record running { context = copy_context c₁.pt_context running.context }) s₁,
      c₁,
    )

-- The child, with its copy of the stack.
unfoldable pub fork_child : (new_stack priority slot : ℕ) → Sched → Cpu → Sched × Cpu
fork_child new_stack priority slot s c =
    let parent = get_curr_pcb s in
    let child = s.task_queue priority slot in
    let copied = copy_context c.pt_context child.context in
    let offset = sub32 c.pt_context.sp parent.stack in
    (
      set_task priority slot
          (record child {
            context = record copied { v1 = 0; sp = add32 new_stack offset };
            priority = priority;
            time_slice = 0;
            name = parent.name;
            ppid = parent.asid;
            stack = new_stack;
          })
          s,
      record c { memory = kernel_memcpy new_stack parent.stack 8192 c.memory },
    )

-- The child runs next, at the position `slot` of the queue that runs.
unfoldable pub fork_switch : (priority slot : ℕ) → Sched → Cpu → Sched × Cpu
fork_switch priority slot s c =
    let child = s.task_queue priority slot in
    (
      record s { curr_proc = update s.curr_proc s.curr_queue slot },
      record c { pt_context = copy_context child.context c.pt_context },
    )

-- `none` is the endless loop behind "Priority queue is full".
unfoldable pub do_fork : ℕ → Sched → Cpu → Option (Sched × Cpu)
do_fork new_stack s c =
    let priority = (get_curr_pcb s).priority in
    let (slot, found) = seek is_empty (s.task_queue priority) 16 (s.curr_proc priority) in
    let (s₁, c₁) = fork_parent priority slot s c in
    let (s₂, c₂) = fork_child new_stack priority slot s₁ c₁ in
    if found then some (fork_switch priority slot s₂ c₂) else none
