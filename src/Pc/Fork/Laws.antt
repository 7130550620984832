-- ===== src/Pc/Fork/Laws.antt =====
-- What `do_fork` leaves of the parent and of the child.
use mini_operating_system.Prelude.{
  ℕ, ◌<◌, ◌≡◌, refl, sym, subst, ◌≢◌, true, false, ◌&&◌, arith, Option, none, some, if◌then◌else◌,
  ◌==◌, add32, sub32, ℤ, Bool-cases, ==_iff, inl, inr,
}
use mini_operating_system.Utils.Memory.{kernel_memcpy}
use mini_operating_system.Pid.{alloc_pidmap}
use mini_operating_system.Pc.Context.{Context, Cpu, copy_context}
use mini_operating_system.Pc.State.{Task, Sched, curr_slot, get_curr_pcb, is_empty, seek}
use mini_operating_system.Pc.Schedule.Seek.{seek-full}
use mini_operating_system.Pc.Schedule.Requeue.{Full}
use mini_operating_system.Pc.Fork.{to_word, fork_parent, fork_child, fork_switch, do_fork}

module _ (new_stack : ℕ) (s : Sched) (c : Cpu) where
  abbrev pub parent : Task
  parent = get_curr_pcb s

  abbrev pub new_pid : ℤ
  new_pid = (alloc_pidmap s.pids).0

  -- The registers at the system call, with the pid of the child in `v1`.
  abbrev pub at_call : Context
  at_call = record c.pt_context { v1 = to_word new_pid }

  -- The child has the registers of the call but for `v1`, 0, and the stack pointer, which stands in
  -- the new stack where it stood in the old one.
  pub record IsChild (t : Task) : Type 0 where
    pub pid : t.asid ≡ new_pid
    pub ppid : t.ppid ≡ parent.asid
    pub name : t.name ≡ parent.name
    pub priority : t.priority ≡ parent.priority
    pub time_slice : t.time_slice ≡ 0
    pub stack : t.stack ≡ new_stack
    pub context :
        t.context
        ≡ record at_call { v1 = 0; sp = add32 new_stack (sub32 c.pt_context.sp parent.stack) }

  pub record Forked (slot : ℕ) (t : Sched) (d : Cpu) : Type 0 where
    pub slot_in : slot < 16
    pub was_empty : is_empty (s.task_queue parent.priority slot) ≡ true
    pub child : IsChild (t.task_queue parent.priority slot)
    pub saved : t.task_queue s.curr_queue (curr_slot s) ≡ record parent { context = at_call }
    pub others :
        (q i : ℕ)
        → ((q == parent.priority) && (i == slot)) ≡ false
        → ((q == s.curr_queue) && (i == curr_slot s)) ≡ false
        → t.task_queue q i ≡ s.task_queue q i
    pub runs : d.pt_context ≡ (t.task_queue parent.priority slot).context
    pub memory : d.memory ≡ kernel_memcpy new_stack parent.stack 8192 c.memory
    pub position : (t.curr_queue ≡ s.curr_queue) × (curr_slot t ≡ slot)
    pub pids : t.pids ≡ (alloc_pidmap s.pids).1

  pub data ForkEnds : Option (Sched × Cpu) → Type 0 where
    no_room : Full s.task_queue parent.priority → ForkEnds none
    forked : {t : Sched} {d : Cpu} (slot : ℕ) → Forked slot t d → ForkEnds (some (t, d))

  module _ (alive : is_empty parent ≡ false) where
    fork_Forked :
        (slot : ℕ)
        → slot < 16
        → is_empty (s.task_queue parent.priority slot) ≡ true
        → let r₁ = fork_parent parent.priority slot s c in
          let r₂ = fork_child new_stack parent.priority slot r₁.0 r₁.1 in
          let r₃ = fork_switch parent.priority slot r₂.0 r₂.1 in Forked slot r₃.0 r₃.1
    unfolding fork_parent fork_child fork_switch copy_context
    fork_Forked slot lt empty =
        let apart : ((s.curr_queue == parent.priority) && (curr_slot s == slot)) ≡ false =
          ground arith in
        record {
          slot_in = lt;
          was_empty = empty;
          child = record {
            pid = ground arith;
            ppid = ground arith;
            name = ground arith;
            priority = ground arith;
            time_slice = ground arith;
            stack = ground arith;
            context = ground arith;
          };
          saved = ground arith;
          others = λ q i a b. ground arith;
          runs = refl;
          memory = ground arith;
          position = (refl, ground arith);
          pids = refl;
        }

    -- When the running slot is not empty, `do_fork` either spins because the queue of the parent's
    -- priority is full, or puts into an empty slot of it a child with the parent's registers, 0 in
    -- `v1` and the stack pointer moved to the new stack, saves the parent with the child's pid in
    -- `v1`, copies the 8192 bytes of the stack, loads the child's registers and changes no other
    -- slot.
    pub do_fork-ForkEnds : ForkEnds (do_fork new_stack s c)
    unfolding do_fork
    do_fork-ForkEnds =
        let r = seek is_empty (s.task_queue parent.priority) 16 (s.curr_proc parent.priority) in
        let (lt, hit, none_empty) =
          seek-full is_empty (s.task_queue parent.priority) (s.curr_proc parent.priority) in
        elim (Bool-cases r.1) [
          | inl found ↦ rw found (forked r.0 (fork_Forked r.0 lt (hit found)))
          | inr missed ↦ rw missed (no_room (none_empty missed))
        ]

  module _ {slot : ℕ} {t : Sched} {d : Cpu} (f : Forked slot t d) where
    current_slot : get_curr_pcb t ≡ t.task_queue s.curr_queue slot
    current_slot = ground (arith, f.position)

    -- In a parent that runs in the queue of its basic priority, the child is the running process.
    pub running-IsChild : s.curr_queue ≡ parent.priority → IsChild (get_curr_pcb t)
    running-IsChild e = rw current_slot (subst (λ q. IsChild (t.task_queue q slot)) (sym e) f.child)

    running_other :
        s.curr_queue ≢ parent.priority
        → get_curr_pcb t ≡ (
            if slot == curr_slot s
            then record parent { context = at_call }
            else s.task_queue s.curr_queue slot)
    running_other ne = elim (Bool-cases (slot == curr_slot s)) [
      | inl e ↦ rw (current_slot, e, (==_iff slot (curr_slot s)).0 e) f.saved
      | inr e ↦ rw (current_slot, e) (f.others s.curr_queue slot (ground arith) (ground arith))
    ]

  -- After a fork: the child is the running process.
  abbrev pub RunsChild : Option (Sched × Cpu) → Type 0
  RunsChild none = Full s.task_queue parent.priority
  RunsChild (some (t, d)) = IsChild (get_curr_pcb t) × (d.pt_context ≡ (get_curr_pcb t).context)

  -- After a fork: the child stands in a slot of the queue of its priority that was empty, and its
  -- registers are loaded; the slot that runs is that of the same number in the queue that runs, with
  -- what it held before (the parent, if it is its own).
  abbrev pub RunsOther : Option (Sched × Cpu) → Type 0
  RunsOther none = Full s.task_queue parent.priority
  RunsOther (some (t, d)) =
      (slot : ℕ) × (slot < 16)
      × (is_empty (s.task_queue parent.priority slot) ≡ true)
      × IsChild (t.task_queue parent.priority slot)
      × (d.pt_context ≡ (t.task_queue parent.priority slot).context)
      × (t.curr_queue ≡ s.curr_queue)
      × (curr_slot t ≡ slot)
      × (get_curr_pcb t ≡ (
          if slot == curr_slot s
          then record parent { context = at_call }
          else s.task_queue s.curr_queue slot))

  module _ (alive : is_empty parent ≡ false) where
    -- A fork by a process that runs in the queue of its static priority (its slot not empty) ends,
    -- if there is room, with the child as the running process of the table and its registers
    -- loaded.
    pub do_fork-RunsChild : s.curr_queue ≡ parent.priority → RunsChild (do_fork new_stack s c)
    do_fork-RunsChild e = read _ (do_fork-ForkEnds alive)
      where
        read : (r : Option (Sched × Cpu)) → ForkEnds r → RunsChild r
        read _ (no_room full) = full
        read _ (forked {t} {d} slot f) = (
          running-IsChild f e,
          rw (current_slot f)
              (subst (λ q. d.pt_context ≡ (t.task_queue q slot).context) (sym e) f.runs),
        )

    -- A fork by a process that runs in another queue than that of its static priority (its slot not
    -- empty) spins if the queue of that priority is full. Otherwise it puts the child into an empty
    -- slot of that queue and loads its registers, but the queue that runs stays, and `curr_proc` of it
    -- is the number of the child's slot: the running process of the table is not the child but what the
    -- slot of that number in the queue that runs held before the fork (the saved parent, if it is the
    -- parent's own).
    pub do_fork-RunsOther : s.curr_queue ≢ parent.priority → RunsOther (do_fork new_stack s c)
    do_fork-RunsOther ne = read _ (do_fork-ForkEnds alive)
      where
        read : (r : Option (Sched × Cpu)) → ForkEnds r → RunsOther r
        read _ (no_room full) = full
        read _ (forked slot f) = (
          slot,
          f.slot_in,
          f.was_empty,
          f.child,
          f.runs,
          f.position.0,
          f.position.1,
          running_other f ne,
        )
