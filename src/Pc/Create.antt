-- ===== src/Pc/Create.antt =====
-- `pc_peek` and `pc_create` of kernel/pc/pc.c.
use mini_operating_system.Prelude.{
  ℕ, zero, suc, ◌+◌, ◌<◌, ◌≡◌, refl, Bool, true, false, ◌&&◌, List, arith, ltb, ◌==◌, if◌then◌else◌,
  sub32, ℤ, pos, is_pos, minus_one, Bool-cases, inl, inr,
}
use mini_operating_system.Pc.State.{Task, Sched, set_task, curr_slot, get_curr_pcb, is_empty, seek}
use mini_operating_system.Pc.Schedule.Seek.{seek-full}
use mini_operating_system.Pc.Schedule.Requeue.{Full}

-- `pc_peek`: the first empty slot of a queue, -1 when there is none. `rounds` slots are left.
peek_loop : (ℕ → Task) → ℕ → ℕ → ℤ
peek_loop level zero i = minus_one
peek_loop level (suc rounds) i =
    let rest = peek_loop level rounds (i + 1) in if is_empty (level i) then pos i else rest

pub pc_peek : ℕ → Sched → ℤ
unfolding peek_loop
pc_peek priority s = peek_loop (s.task_queue priority) 16 0

pub data Created : Type 0 where
  -- the endless loop behind "Priority queue is full"
  spins : Created
  -- the new state, and whether the preempting system call (11) is made
  created : Sched → Bool → Created

-- The new process in its slot.
unfoldable pub fill_slot :
    ℤ → (func init_sp init_gp : ℕ) → List ℕ → (priority slot : ℕ) → Sched → Sched
fill_slot asid func init_sp init_gp name priority slot s =
    let old = s.task_queue priority slot in
    let new = record old {
      context = record old.context { epc = func; sp = init_sp; gp = init_gp };
      stack = sub32 init_sp 8192;
      priority = priority;
      time_slice = 0;
      name = name;
      asid = asid;
    } in
    let filled = set_task priority slot new s in
    set_task priority slot (record new { ppid = (get_curr_pcb filled).asid }) filled

unfoldable pub pc_create :
    ℤ → (func init_sp init_gp : ℕ) → List ℕ → (priority : ℕ) → Sched → Created
pc_create asid func init_sp init_gp name priority s =
    let (slot, found) = seek is_empty (s.task_queue priority) 16 (s.curr_proc priority) in
    let filled = fill_slot asid func init_sp init_gp name priority slot s in
    if found
    then created filled (is_pos (get_curr_pcb filled).asid && ltb filled.curr_queue priority)
    else spins

module _ (asid : ℤ) (func init_sp init_gp : ℕ) (name : List ℕ) (priority : ℕ) (s : Sched) where
  -- What `pc_create` leaves in the slot.
  pub record IsNew (t : Task) : Type 0 where
    pub asid_set : t.asid ≡ asid
    pub parent : t.ppid ≡ (get_curr_pcb s).asid
    pub starts : t.context.epc ≡ func
    pub stack_top : t.context.sp ≡ init_sp
    pub globals_at : t.context.gp ≡ init_gp
    pub stack_base : t.stack ≡ sub32 init_sp 8192
    pub fresh_slice : t.time_slice ≡ 0
    pub static_priority : t.priority ≡ priority
    pub named : t.name ≡ name

  pub data CreateEnds : Created → Type 0 where
    no_room : Full s.task_queue priority → CreateEnds spins
    made :
        {t : Sched} {preempts : Bool} (slot : ℕ)
        → slot < 16
        → is_empty (s.task_queue priority slot) ≡ true
        → IsNew (t.task_queue priority slot)
        → ((q i : ℕ)
            → ((q == priority) && (i == slot)) ≡ false
            → t.task_queue q i ≡ s.task_queue q i)
        → (t.curr_queue ≡ s.curr_queue) × (t.curr_proc ≡ s.curr_proc) × (t.pids ≡ s.pids)
        → preempts ≡ (is_pos (get_curr_pcb s).asid && ltb s.curr_queue priority)
        → CreateEnds (created t preempts)

  fill_slot-made :
      is_empty (get_curr_pcb s) ≡ false
      → (slot : ℕ) → slot < 16
      → is_empty (s.task_queue priority slot) ≡ true
      → let t = fill_slot asid func init_sp init_gp name priority slot s in
        CreateEnds (created t (is_pos (get_curr_pcb t).asid && ltb t.curr_queue priority))
  unfolding fill_slot
  fill_slot-made alive slot lt empty =
      let apart : ((s.curr_queue == priority) && (curr_slot s == slot)) ≡ false = ground arith in
      made slot lt empty
        (record {
          asid_set = ground arith;
          parent = ground arith;
          starts = ground arith;
          stack_top = ground arith;
          globals_at = ground arith;
          stack_base = ground arith;
          fresh_slice = ground arith;
          static_priority = ground arith;
          named = ground arith;
        })
        (λ q i other. ground arith) (refl, refl, refl) (ground arith)

  -- When the running slot is not empty, `pc_create` either spins because all sixteen slots of the
  -- queue are taken, or fills one empty slot with the given pid, entry, stack, globals pointer,
  -- name and priority and with the running process as the parent, changes no other slot, no
  -- position and no pid, and makes the preempting system call exactly when the running pid is
  -- positive and the new priority is above the queue that runs.
  pub pc_create-CreateEnds :
      is_empty (get_curr_pcb s) ≡ false
      → CreateEnds (pc_create asid func init_sp init_gp name priority s)
  unfolding pc_create
  pc_create-CreateEnds alive =
      let r = seek is_empty (s.task_queue priority) 16 (s.curr_proc priority) in
      let (lt, hit, none_empty) =
        seek-full is_empty (s.task_queue priority) (s.curr_proc priority) in
      elim (Bool-cases r.1) [
        | inl found ↦ rw found (fill_slot-made alive r.0 lt (hit found))
        | inr missed ↦ rw missed (no_room (none_empty missed))
      ]
