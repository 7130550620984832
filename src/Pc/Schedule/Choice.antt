-- ===== src/Pc/Schedule/Choice.antt =====
-- Which process `pc_schedule` runs next.
use mini_operating_system.Prelude.{
  ℕ, zero, suc, ◌<◌, ◌≡◌, refl, inl, inr, Bool, true, false, Option, none, some, arith, Bool-cases,
  ==_iff, ◌==◌, update, if◌then◌else◌,
}
use mini_operating_system.Pc.Context.{Cpu, copy_context-eq}
use mini_operating_system.Pc.State.{Sched, Table, curr_slot, get_curr_pcb, is_runnable, seek}
use mini_operating_system.Pc.Schedule.{save, requeue, select, load, pc_schedule}
use mini_operating_system.Pc.Schedule.Seek.{
  visited, NoneIn, Sought, hit, miss, seek-Sought, NoneIn-all,
}

-- No process of queue `q` can run.
abbrev pub Idle : Table → ℕ → Type 0
Idle f q = (i : ℕ) → i < 16 → is_runnable (f q i) ≡ false

-- What the search has found: the first process that can run, of the highest queue that has one,
-- behind the position where that queue's last search ended. Nothing but the positions and
-- `curr_queue` has changed.
pub record Chosen (n : ℕ) (s t : Sched) : Type 0 where
  pub queue : t.curr_queue < n
  pub slot : curr_slot t < 16
  pub runs : is_runnable (get_curr_pcb t) ≡ true
  pub highest : (q : ℕ) → t.curr_queue < q → q < n → Idle s.task_queue q
  pub turn : ℕ
  pub turn_slot : curr_slot t ≡ visited (s.curr_proc t.curr_queue) turn
  pub first : NoneIn is_runnable (s.task_queue t.curr_queue) (s.curr_proc t.curr_queue) turn
  pub same_tasks : t.task_queue ≡ s.task_queue
  pub same_rest : (t.time_slice ≡ s.time_slice) × (t.kill_state ≡ s.kill_state) × (t.pids ≡ s.pids)

pub data Choice (n : ℕ) (s : Sched) : Option Sched → Type 0 where
  nobody : ((q : ℕ) → q < n → Idle s.task_queue q) → Choice n s none
  chosen : {t : Sched} → Chosen n s t → Choice n s (some t)

module _ (i : ℕ) (s : Sched) where
  -- Queue `i` has a process.
  choose :
      {slot : ℕ} (j : ℕ)
      → j < 16
      → slot ≡ visited (s.curr_proc i) j
      → is_runnable (s.task_queue i slot) ≡ true
      → NoneIn is_runnable (s.task_queue i) (s.curr_proc i) j
      → Chosen (suc i) s (record s { curr_proc = update s.curr_proc i slot; curr_queue = i })
  choose {slot} j l e t before =
      let at_i : update s.curr_proc i slot i ≡ slot = ground arith in
      record {
        queue = omega arith;
        slot = rw at_i (omega arith);
        runs = rw (at_i, get_curr_pcb) t;
        highest = λ q a b. absurd (omega arith);
        turn = j;
        turn_slot = rw at_i e;
        first = before;
        same_tasks = refl;
        same_rest = (refl, refl, refl);
      }

  -- It has none, and the search went on below.
  pass :
      (slot : ℕ)
      → Idle s.task_queue i
      → (r : Option Sched) → Choice i (record s { curr_proc = update s.curr_proc i slot }) r
      → Choice (suc i) s r
  pass slot idle _ (nobody none_below) = nobody λ q h. elim (Bool-cases (q == i)) [
    | inl e ↦ rw ((==_iff q i).0 e) idle
    | inr e ↦ none_below q (ground arith)
  ]
  pass slot idle _ (chosen {t} c) =
      let other : update s.curr_proc i slot t.curr_queue ≡ s.curr_proc t.curr_queue =
        ground (arith, c.queue) in
      chosen (record {
        queue = omega (arith, c.queue);
        slot = c.slot;
        runs = c.runs;
        highest = λ q a b. elim (Bool-cases (q == i)) [
          | inl e ↦ rw ((==_iff q i).0 e) idle
          | inr e ↦ c.highest q a (ground arith)
        ];
        turn = c.turn;
        turn_slot = rw (← other) c.turn_slot;
        first = rw (← other) c.first;
        same_tasks = c.same_tasks;
        same_rest = c.same_rest;
      })

decide :
    (i : ℕ) (s : Sched) (r : ℕ × Bool)
    → Sought is_runnable (s.task_queue i) (s.curr_proc i) 16 r
    → let s' = record s { curr_proc = update s.curr_proc i r.0 } in
      Choice i s' (select i s')
      → Choice (suc i) s (if r.1 then some (record s' { curr_queue = i }) else select i s')
decide i s _ (hit j l e t before) below = chosen (choose i s j l e t before)
decide i s (slot, _) (miss before _ _) below =
    pass i s slot (NoneIn-all is_runnable (s.task_queue i) (s.curr_proc i) before) _ below

pub select-Choice : (n : ℕ) (s : Sched) → Choice n s (select n s)
unfolding select
select-Choice zero s = nobody λ q h. absurd (omega arith)
select-Choice (suc i) s =
    let r = seek is_runnable (s.task_queue i) 16 (s.curr_proc i) in
    decide i s r (seek-Sought _ _ 16 (s.curr_proc i))
      (select-Choice i (record s { curr_proc = update s.curr_proc i r.0 }))

-- The state from which `pc_schedule` chooses: the running process is saved and may have changed
-- its queue.
abbrev pub before_choice : Sched → Cpu → Sched
before_choice s c = requeue c (save s c)

-- What `pc_schedule` ends with.
pub data Scheduled (s : Sched) (c : Cpu) : Option (Sched × Cpu) → Type 0 where
  halted : ((q : ℕ) → q < 8 → Idle (before_choice s c).task_queue q) → Scheduled s c none
  running :
      {t : Sched} {d : Cpu}
      → Chosen 8 (before_choice s c) t
      → d.pt_context ≡ (get_curr_pcb t).context
      → d.count ≡ (get_curr_pcb t).time_slice
      → d.compare ≡ t.time_slice (get_curr_pcb t).priority
      → d.memory ≡ c.memory
      → Scheduled s c (some (t, d))

-- From the state in which the running process has been saved and perhaps moved, `pc_schedule` spins
-- exactly on the way where no slot of the eight queues holds a positive pid; otherwise it runs the
-- first process with a positive pid of the highest queue that has one, searching cyclically from
-- behind the position of that queue, changes nothing else in the table, the time slices, the kill
-- state or the pid map, and loads the context of the process, its time slice as the counter and the
-- time slice of its static priority as the limit.
pub pc_schedule-Scheduled : (s : Sched) (c : Cpu) → Scheduled s c (pc_schedule s c)
unfolding pc_schedule
pc_schedule-Scheduled s c = finish _ (select-Choice 8 (before_choice s c))
  where
    finish :
        (r : Option Sched)
        → Choice 8 (before_choice s c) r
        → Scheduled s c
            (elim r [ none ↦ none | some t ↦ some (t, load t (record c { count = 0 })) ])
    finish _ (nobody idle) = halted idle
    finish _ (chosen {t} ch) =
        running ch (copy_context-eq (get_curr_pcb t).context c.pt_context) refl refl refl
