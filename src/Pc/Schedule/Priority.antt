-- ===== src/Pc/Schedule/Priority.antt =====
-- How `pc_schedule` changes the priority of the running process, and that it loses none.
use mini_operating_system.Prelude.{
  ℕ, ◌+◌, ◌-◌, ◌≤◌, ◌<◌, ◌≡◌, refl, subst, ◌∙◌, inl, inr, ◌⊎◌, ◌≢◌, true, false, arith, Bool-cases,
  ◌==◌, ltb, leb, not, ◌&&◌, if◌then◌else◌, pos,
}
use mini_operating_system.Pc.Context.{Cpu}
use mini_operating_system.Pc.State.{Sched, put, set_task, curr_slot, get_curr_pcb, is_empty}
use mini_operating_system.Pc.Schedule.{save, migrate, promote, demote, requeue}
use mini_operating_system.Pc.Schedule.Census.{table_put}
use mini_operating_system.Pc.Schedule.Choice.{before_choice}
use mini_operating_system.Pc.Schedule.Requeue.{
  SameElsewhere, IsPlaced, Carried, Full, HasRoom, migrate-Migrated, get_save, save-Carried,
}

-- One queue up after a preemption, one down when the time was up; within the queues 4 to 7, and
-- if the other queue has room; none if it is full.
abbrev pub Moves : Sched → Cpu → Sched → Type 0
Moves s c t =
    (c.count < c.compare
      → ((4 ≤ s.curr_queue)
          × (s.curr_queue < 7)
          × (t.curr_queue ≡ s.curr_queue + 1)
          × HasRoom s.task_queue (s.curr_queue + 1))
        ⊎ ((t.curr_queue ≡ s.curr_queue)
            × ((s.curr_queue < 4) ⊎ ((s.curr_queue ≡ 7) ⊎ Full s.task_queue (s.curr_queue + 1)))))
    × (c.compare ≤ c.count
        → ((4 < s.curr_queue)
            × (t.curr_queue + 1 ≡ s.curr_queue)
            × HasRoom s.task_queue (s.curr_queue - 1))
          ⊎ ((t.curr_queue ≡ s.curr_queue)
              × ((s.curr_queue ≤ 4) ⊎ Full s.task_queue (s.curr_queue - 1))))

-- The time slice that is kept for the process.
abbrev pub kept_slice : Cpu → ℕ
kept_slice c = if ltb c.count c.compare then c.count else 0

-- `t` is the state from which the next process is chosen.
pub record Requeued (s : Sched) (c : Cpu) (t : Sched) : Type 0 where
  pub carried : Carried c (kept_slice c) s t
  pub moves : Moves s c t

module _ (s : Sched) (c : Cpu) (v : IsPlaced s) where
  save-SameElsewhere : SameElsewhere s (save s c)
  unfolding save
  save-SameElsewhere = (refl, λ q i other. ground arith)

  -- The saved state with the time slice set to 0.
  zeroed : Sched
  zeroed =
      let b = save s c in
      set_task b.curr_queue (curr_slot b) (record (get_curr_pcb b) { time_slice = 0 }) b

  zeroed-Carried : Carried c 0 s zeroed
  unfolding zeroed
  zeroed-Carried =
      let b = save s c in
      let was = save-Carried s c v in
      let at : put b.task_queue b.curr_queue (curr_slot b)
            (record (get_curr_pcb b) { time_slice = 0 }) b.curr_queue (curr_slot b)
          ≡ record (get_curr_pcb b) { time_slice = 0 } =
        ground arith in
      record {
        placed = record { queue = was.placed.queue; slot = was.placed.slot };
        saved = rw at (record {
          asid = was.saved.asid;
          ppid = was.saved.ppid;
          name = was.saved.name;
          stack = was.saved.stack;
          priority = was.saved.priority;
          context = was.saved.context;
          time_slice = refl;
        });
        census = λ n. omega (
          arith,
          was.census n,
          table_put (pos n) b.task_queue b.curr_queue (curr_slot b)
              (record (get_curr_pcb b) { time_slice = 0 }) 8 was.placed.queue was.placed.slot,
        );
        globals = was.globals;
      }

  zeroed-SameElsewhere : SameElsewhere s zeroed
  unfolding zeroed
  zeroed-SameElsewhere =
      let (same_queue, same_tasks) = save-SameElsewhere in
      (same_queue, λ q i other. ground (arith, same_queue, same_tasks q i other))

  module _ (slice : ℕ) (b : Sched) (was : Carried c slice s b) (same : SameElsewhere s b) where
    carry-Migrated :
        (to : ℕ)
        → to < 8
        → to ≢ s.curr_queue
        → let t = migrate to c b in
          Carried c slice s t
          × (((t.curr_queue ≡ to) × HasRoom s.task_queue to)
              ⊎ ((t.curr_queue ≡ s.curr_queue) × Full s.task_queue to))
    carry-Migrated to lt other =
        let apart : (to == b.curr_queue) ≡ false = ground (arith, same.0) in
        let m = migrate-Migrated to c b was.placed lt apart (get_curr_pcb s) slice was.saved in
        (
          record {
            placed = m.placed;
            saved = m.saved_on;
            census = λ n. m.census n ∙ was.census n;
            globals = (
              m.globals.0 ∙ was.globals.0,
              m.globals.1 ∙ was.globals.1,
              m.globals.2 ∙ was.globals.2,
            );
          },
          placed_at (migrate to c b) m.place,
        )
      where
        placed_at :
            (t : Sched)
            → ((t.curr_queue ≡ to) × HasRoom b.task_queue to)
              ⊎ ((t.curr_queue ≡ b.curr_queue) × Full b.task_queue to)
            → ((t.curr_queue ≡ to) × HasRoom s.task_queue to)
              ⊎ ((t.curr_queue ≡ s.curr_queue) × Full s.task_queue to)
        placed_at t (inl (e, (i, h, free))) =
            inl (e, (i, h, subst (λ t. is_empty t ≡ true) (same.1 to i other) free))
        placed_at t (inr (e, full)) =
            inr (e ∙ same.0, λ i h. subst (λ t. is_empty t ≡ false) (same.1 to i other) (full i h))

  promote-Requeued : c.count < c.compare → Requeued s c (promote c (save s c))
  unfolding promote
  promote-Requeued early =
      let q = (save s c).curr_queue in
      let slice : kept_slice c ≡ c.count = ground arith in
      let same = save-SameElsewhere in
      elim (Bool-cases (leb 4 q && not (q == 7))) [
        | inl up ↦
            let (carried, place) =
              carry-Migrated c.count (save s c) (save-Carried s c v) same (q + 1)
                (ground (arith, v.queue, same.0)) (omega (arith, same.0)) in
            rw up (record {
              carried = rw slice carried;
              moves = (
                λ _. climb q same.0 up (migrate (q + 1) c (save s c)) place,
                λ late. absurd (omega arith),
              );
            })
        | inr stays ↦ rw stays (record {
          carried = rw slice (save-Carried s c v);
          moves =
              (λ _. inr (same.0, ground (arith, v.queue, same.0)), λ late. absurd (omega arith));
        })
      ]
    where
      climb :
          (q : ℕ)
          → q ≡ s.curr_queue
          → (leb 4 q && not (q == 7)) ≡ true
          → (t : Sched)
          → ((t.curr_queue ≡ q + 1) × HasRoom s.task_queue (q + 1))
            ⊎ ((t.curr_queue ≡ s.curr_queue) × Full s.task_queue (q + 1))
          → ((4 ≤ s.curr_queue)
              × (s.curr_queue < 7)
              × (t.curr_queue ≡ s.curr_queue + 1)
              × HasRoom s.task_queue (s.curr_queue + 1))
            ⊎ ((t.curr_queue ≡ s.curr_queue)
                × ((s.curr_queue < 4)
                    ⊎ ((s.curr_queue ≡ 7) ⊎ Full s.task_queue (s.curr_queue + 1))))
      climb q e up t (inl (moved, room)) = inl (
        ground arith,
        ground (arith, v.queue),
        omega (arith, moved, e),
        subst (λ p. HasRoom s.task_queue (p + 1)) e room,
      )
      climb q e up t (inr (stayed, full)) =
          inr (stayed, inr (inr (subst (λ p. Full s.task_queue (p + 1)) e full)))

  demote-Requeued : c.compare ≤ c.count → Requeued s c (demote c (save s c))
  unfolding demote zeroed
  demote-Requeued late =
      let q = (save s c).curr_queue in
      let slice : kept_slice c ≡ 0 = ground arith in
      let same = save-SameElsewhere in
      elim (Bool-cases (ltb 4 q)) [
        | inl down ↦
            let (carried, place) =
              carry-Migrated 0 zeroed zeroed-Carried zeroed-SameElsewhere (q - 1)
                (omega (arith, v.queue, same.0)) (ground (arith, same.0)) in
            rw down (record {
              carried = rw slice carried;
              moves = (
                λ early. absurd (omega arith),
                λ _. sink q same.0 down (migrate (q - 1) c zeroed) place,
              );
            })
        | inr stays ↦ rw stays (record {
          carried = rw slice zeroed-Carried;
          moves = (λ early. absurd (omega arith), λ _. inr (same.0, ground (arith, same.0)));
        })
      ]
    where
      sink :
          (q : ℕ)
          → q ≡ s.curr_queue
          → ltb 4 q ≡ true
          → (t : Sched)
          → ((t.curr_queue ≡ q - 1) × HasRoom s.task_queue (q - 1))
            ⊎ ((t.curr_queue ≡ s.curr_queue) × Full s.task_queue (q - 1))
          → ((4 < s.curr_queue)
              × (t.curr_queue + 1 ≡ s.curr_queue)
              × HasRoom s.task_queue (s.curr_queue - 1))
            ⊎ ((t.curr_queue ≡ s.curr_queue)
                × ((s.curr_queue ≤ 4) ⊎ Full s.task_queue (s.curr_queue - 1)))
      sink q e down t (inl (moved, room)) =
          inl
            (ground arith, ground (arith, moved), subst (λ p. HasRoom s.task_queue (p - 1)) e room)
      sink q e down t (inr (stayed, full)) =
          inr (stayed, inr (subst (λ p. Full s.task_queue (p - 1)) e full))

  -- With the running process in a slot, before `pc_schedule` chooses, the process is saved with the
  -- CPU's context and with the counter as its time slice (0 if its time was up), keeps its pid,
  -- parent, name, stack and static priority, and every pid stands in the table as often as before;
  -- if it was preempted early it goes one queue up exactly when it is in queue 4, 5 or 6 and the
  -- next has room, and if its time was up it goes one queue down exactly when it is in a queue
  -- above 4 and that one has room.
  pub before_choice-Requeued : Requeued s c (before_choice s c)
  unfolding requeue
  before_choice-Requeued = rw (get_save s c v) (elim (Bool-cases (ltb c.count c.compare)) [
    | inl early ↦ rw early (promote-Requeued (ground arith))
    | inr late ↦ rw late (demote-Requeued (ground arith))
  ])
