-- ===== src/Pc/Schedule/Requeue.antt =====
-- The running process on its way through `pc_schedule`: saved, and perhaps moved to another queue.
use mini_operating_system.Prelude.{
  ℕ, ◌+◌, ◌<◌, ◌≡◌, refl, inl, inr, ◌⊎◌, ◌≢◌, true, false, arith, Bool-cases, ◌==◌, update,
  if◌then◌else◌, ℤ, pos, negsuc, eq_ℤ, is_neg,
}
use mini_operating_system.Pc.Context.{Cpu, copy_context, copy_context-eq}
use mini_operating_system.Pc.State.{
  Task, Sched, Table, put, curr_slot, get_curr_pcb, is_empty, seek,
}
use mini_operating_system.Pc.Schedule.{save, copy_pcb, move_pcb, migrate}
use mini_operating_system.Pc.Schedule.Seek.{seek-full}
use mini_operating_system.Pc.Schedule.Census.{weight, count_table, table_put}

-- The running process stands in one of the slots.
pub record IsPlaced (s : Sched) : Type 0 where
  pub queue : s.curr_queue < 8
  pub slot : curr_slot s < 16

-- `t` is the same process as `u`, saved with the context and the time slice given.
pub record SavedAs (u t : Task) (c : Cpu) (slice : ℕ) : Type 0 where
  pub asid : t.asid ≡ u.asid
  pub ppid : t.ppid ≡ u.ppid
  pub name : t.name ≡ u.name
  pub stack : t.stack ≡ u.stack
  pub priority : t.priority ≡ u.priority
  pub context : t.context ≡ c.pt_context
  pub time_slice : t.time_slice ≡ slice

-- From `s` to `t` the running process has been carried along, and no process has been lost.
pub record Carried (c : Cpu) (slice : ℕ) (s t : Sched) : Type 0 where
  pub placed : IsPlaced t
  pub saved : SavedAs (get_curr_pcb s) (get_curr_pcb t) c slice
  pub census : (n : ℕ) → count_table (pos n) t.task_queue 8 ≡ count_table (pos n) s.task_queue 8
  pub globals : (t.time_slice ≡ s.time_slice) × (t.kill_state ≡ s.kill_state) × (t.pids ≡ s.pids)

-- `t` differs from `s` in the slot of the running process only.
abbrev pub SameElsewhere : Sched → Sched → Type 0
SameElsewhere s t =
    (t.curr_queue ≡ s.curr_queue)
    × ((q i : ℕ) → q ≢ s.curr_queue → t.task_queue q i ≡ s.task_queue q i)

module _ (s : Sched) (c : Cpu) (v : IsPlaced s) where
  pub get_save : get_curr_pcb (save s c) ≡ record (get_curr_pcb s) {
    context = copy_context c.pt_context (get_curr_pcb s).context;
    time_slice = c.count;
  }
  unfolding save
  get_save = ground arith

  pub save-Carried : Carried c c.count s (save s c)
  unfolding save
  save-Carried = record {
    placed = record { queue = v.queue; slot = v.slot };
    saved = rw (get_save) (record {
      asid = refl;
      ppid = refl;
      name = refl;
      stack = refl;
      priority = refl;
      context = copy_context-eq c.pt_context (get_curr_pcb s).context;
      time_slice = refl;
    });
    census = λ n.
        let e =
          table_put (pos n) s.task_queue s.curr_queue (curr_slot s)
            (record (get_curr_pcb s) {
              context = copy_context c.pt_context (get_curr_pcb s).context;
              time_slice = c.count;
            })
            8 v.queue v.slot in
        omega (arith, e);
    globals = (refl, refl, refl);
  }

-- Queue `q` has no empty slot.
abbrev pub Full : Table → ℕ → Type 0
Full f q = (i : ℕ) → i < 16 → is_empty (f q i) ≡ false

-- Queue `q` has one.
abbrev pub HasRoom : Table → ℕ → Type 0
HasRoom f q = (i : ℕ) × (i < 16) × (is_empty (f q i) ≡ true)

not_weighed : (n : ℕ) (t : Task) → is_empty t ≡ true → weight (pos n) t ≡ 0
not_weighed n t h = by_sign t.asid h
  where
    by_sign : (z : ℤ) → is_neg z ≡ true → ◌≡◌ {A = ℕ} (if eq_ℤ z (pos n) then 1 else 0) 0
    by_sign (pos m) h = cc
    by_sign (negsuc m) h = refl

-- A process that goes from one slot to an empty one of another queue.
module _ (f : Table) (q i to slot : ℕ) (there left : Task) (other : (to == q) ≡ false) where
  moved_there : put (put f to slot there) q i left to slot ≡ there
  moved_there = rw other (ground arith)

  moved_census :
      q < 8
      → i < 16
      → to < 8
      → slot < 16
      → is_empty (f to slot) ≡ true
      → is_empty left ≡ true
      → there.asid ≡ (f q i).asid
      → (n : ℕ)
      → count_table (pos n) (put (put f to slot there) q i left) 8 ≡ count_table (pos n) f 8
  moved_census hq hi ht hs e l same n =
      let first = table_put (pos n) f to slot there 8 ht hs in
      let second = table_put (pos n) (put f to slot there) q i left 8 hq hi in
      let source : put f to slot there q i ≡ f q i = ground arith in
      let weights : weight (pos n) there ≡ weight (pos n) (f q i) = rw same in
      omega (
        arith,
        first,
        (let x : count_table (pos n) (put (put f to slot there) q i left) 8 + weight (pos n) (f q i)
                ≡ count_table (pos n) (put f to slot there) 8 + weight (pos n) left =
              rw source at second in
            x),
        weights,
        not_weighed n (f to slot) e,
        not_weighed n left l,
      )

-- From `s` to `t` the running process, which was `u`, moves to queue `to` if that has an empty
-- slot, and stays where it is if not.
pub record Migrated (to : ℕ) (c : Cpu) (s : Sched) (u : Task) (slice : ℕ) (t : Sched) : Type 0 where
  pub placed : IsPlaced t
  pub saved_on : SavedAs u (get_curr_pcb t) c slice
  pub census : (n : ℕ) → count_table (pos n) t.task_queue 8 ≡ count_table (pos n) s.task_queue 8
  pub globals : (t.time_slice ≡ s.time_slice) × (t.kill_state ≡ s.kill_state) × (t.pids ≡ s.pids)
  pub place :
      ((t.curr_queue ≡ to) × HasRoom s.task_queue to)
      ⊎ ((t.curr_queue ≡ s.curr_queue) × Full s.task_queue to)

module _ (to : ℕ) (c : Cpu) (s : Sched) (v : IsPlaced s) (to_queue : to < 8)
    (other : (to == s.curr_queue) ≡ false) (u : Task) (slice : ℕ)
    (saved : SavedAs u (get_curr_pcb s) c slice) where
  stay :
      (slot : ℕ)
      → Full s.task_queue to
      → Migrated to c s u slice (record s { curr_proc = update s.curr_proc to slot })
  stay slot full =
      let same : update s.curr_proc to slot s.curr_queue ≡ curr_slot s = ground arith in
      record {
        placed = record { queue = v.queue; slot = rw same v.slot };
        saved_on = rw (same, get_curr_pcb) saved;
        census = λ n. refl;
        globals = (refl, refl, refl);
        place = inr (refl, full);
      }

  move :
      (slot i : ℕ)
      → slot < 16
      → is_empty (s.task_queue to slot) ≡ true
      → i ≡ curr_slot s
      → Migrated to c s u slice
          (move_pcb s.curr_queue i to slot c (record s { curr_proc = update s.curr_proc to slot }))
  unfolding move_pcb copy_pcb
  move slot i lt empty e =
      let here : update s.curr_proc to slot to ≡ slot = ground arith in
      rw e (record {
        placed = record { queue = to_queue; slot = rw here lt };
        saved_on =
            rw (here, moved_there s.task_queue s.curr_queue (curr_slot s) to slot _ _ other)
              (record {
                asid = saved.asid;
                ppid = saved.ppid;
                name = saved.name;
                stack = saved.stack;
                priority = saved.priority;
                context = copy_context-eq c.pt_context (s.task_queue to slot).context;
                time_slice = saved.time_slice;
              });
        census =
            moved_census s.task_queue s.curr_queue (curr_slot s) to slot _ _ other v.queue v.slot
              to_queue lt empty refl refl;
        globals = (refl, refl, refl);
        place = inl (refl, (slot, lt, empty));
      })

  pub migrate-Migrated : Migrated to c s u slice (migrate to c s)
  unfolding migrate
  migrate-Migrated =
      let r = seek is_empty (s.task_queue to) 16 (s.curr_proc to) in
      let (lt, hit, none_empty) = seek-full is_empty (s.task_queue to) (s.curr_proc to) in
      elim (Bool-cases r.1) [
        | inl found ↦ rw found (move r.0 _ lt (hit found) (ground arith))
        | inr full ↦ rw full (stay r.0 (none_empty full))
      ]
