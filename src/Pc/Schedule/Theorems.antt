-- ===== src/Pc/Schedule/Theorems.antt =====
-- `pc_schedule` as a whole: when it finds a process, and what the table holds after it.
use mini_operating_system.Prelude.{
  ℕ, suc, ◌≡◌, refl, ap, sym, subst, ◌∙◌, ◌↔◌, true, Option, none, some, pos,
}
use mini_operating_system.Pc.Context.{Cpu}
use mini_operating_system.Pc.State.{Sched, curr_slot, get_curr_pcb, is_runnable}
use mini_operating_system.Pc.Schedule.{pc_schedule}
use mini_operating_system.Pc.Schedule.Census.{AllIdle, AllIdle-of_census, idle_table, count_table}
use mini_operating_system.Pc.Schedule.Choice.{
  before_choice, Scheduled, halted, running, pc_schedule-Scheduled,
}
use mini_operating_system.Pc.Schedule.Requeue.{IsPlaced}
use mini_operating_system.Pc.Schedule.Priority.{before_choice-Requeued}

-- From `s`, either nothing in the table can run, or a process of one of the slots runs next and the
-- table holds the same processes as before.
abbrev pub Ends : Sched → Option (Sched × Cpu) → Type 0
Ends s none = AllIdle s.task_queue
Ends s (some (t, d)) =
    IsPlaced t
    × (is_runnable (get_curr_pcb t) ≡ true)
    × ((n : ℕ) → count_table (pos n) t.task_queue 8 ≡ count_table (pos n) s.task_queue 8)

module _ (s : Sched) (c : Cpu) (v : IsPlaced s) where
  -- Whatever queue it moves to, the table holds the same processes.
  AllIdle-before_choice : AllIdle s.task_queue ↔ AllIdle (before_choice s c).task_queue
  AllIdle-before_choice =
      let census = (before_choice-Requeued s c v).carried.census in
      (
        λ idle. AllIdle-of_census _ (λ n. census (suc n) ∙ idle_table n s.task_queue 8 idle),
        λ idle. AllIdle-of_census _ (λ n. sym (census (suc n)) ∙ idle_table n _ 8 idle),
      )

  -- With the running process in a slot, `pc_schedule` ends in its endless loop exactly when no slot
  -- of the table holds a positive pid.
  pub pc_schedule-none : (pc_schedule s c ≡ none) ↔ AllIdle s.task_queue
  pc_schedule-none =
      let (there, back) = AllIdle-before_choice in
      (
        λ e. back (when_none _ (pc_schedule-Scheduled s c) e),
        λ idle. when_idle _ (pc_schedule-Scheduled s c) (there idle),
      )
    where
      when_none :
          (r : Option (Sched × Cpu))
          → Scheduled s c r
          → r ≡ none
          → AllIdle (before_choice s c).task_queue
      when_none _ (halted idle) e = idle
      when_none _ (running ch _ _ _ _) e = cc

      when_idle :
          (r : Option (Sched × Cpu))
          → Scheduled s c r
          → AllIdle (before_choice s c).task_queue
          → r ≡ none
      when_idle _ (halted _) idle = refl
      when_idle _ (running {t} ch _ _ _ _) idle =
          let found : is_runnable ((before_choice s c).task_queue t.curr_queue (curr_slot t))
              ≡ true =
            subst (λ f. is_runnable (f t.curr_queue (curr_slot t)) ≡ true) ch.same_tasks ch.runs in
          cc (idle t.curr_queue ch.queue (curr_slot t) ch.slot)

  -- With the running process in a slot, `pc_schedule` either spins and no slot holds a positive
  -- pid, or ends with a process of positive pid running from a slot and with every pid in the table
  -- as often as before.
  pub pc_schedule-Ends : Ends s (pc_schedule s c)
  pc_schedule-Ends = read _ (pc_schedule-Scheduled s c)
    where
      read : (r : Option (Sched × Cpu)) → Scheduled s c r → Ends s r
      read _ (halted idle) = AllIdle-before_choice.1 idle
      read _ (running {t = u} ch _ _ _ _) = (
        record { queue = ch.queue; slot = ch.slot },
        ch.runs,
        λ n.
            ap (λ f. count_table (pos n) f 8) ch.same_tasks
            ∙ (before_choice-Requeued s c v).carried.census n,
      )
