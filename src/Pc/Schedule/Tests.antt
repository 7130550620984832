-- ===== src/Pc/Schedule/Tests.antt =====
-- `pc_schedule` at concrete inputs.
use mini_operating_system.Prelude.{ℕ, ◌≡◌, ◌↔◌, refl, Option, none, some, arith, ℤ, pos}
use mini_operating_system.Pc.Context.{Cpu, copy_context}
use mini_operating_system.Pc.State.{Sched, get_curr_pcb, seek}
use mini_operating_system.Pc.Sample.{sample, early}
use mini_operating_system.Pc.Schedule.{
  save, copy_pcb, move_pcb, migrate, promote, demote, requeue, select, load, pc_schedule,
}
use mini_operating_system.Pc.Schedule.Census.{AllIdle}
use mini_operating_system.Pc.Schedule.Choice.{Scheduled, before_choice, pc_schedule-Scheduled}
use mini_operating_system.Pc.Schedule.Requeue.{IsPlaced}
use mini_operating_system.Pc.Schedule.Priority.{Requeued, before_choice-Requeued}
use mini_operating_system.Pc.Schedule.Theorems.{Ends, pc_schedule-none, pc_schedule-Ends}

sample-IsPlaced : IsPlaced sample
sample-IsPlaced = omega arith

-- The queue and the process that run next, the counter and its limit.
abbrev view : Option (Sched × Cpu) → Option (ℕ × ℤ × ℕ × ℕ)
view none = none
view (some (t, d)) = some (t.curr_queue, (get_curr_pcb t).asid, d.count, d.compare)

-- Preempted at tick 100, the shell goes up to queue 7, and is the first choice there.
shell_climbs : view (pc_schedule sample early) ≡ some (7, pos 1, 100, 4000000)
unfolding pc_schedule save copy_pcb move_pcb migrate promote demote requeue select load seek
    copy_context
shell_climbs = refl

-- With its time up it goes down to queue 5, behind the timer there.
abbrev late : Cpu
late = record early { count = 4000000 }

shell_sinks : view (pc_schedule sample late) ≡ some (5, pos 2, 0, 5000000)
unfolding pc_schedule save copy_pcb move_pcb migrate promote demote requeue select load seek
    copy_context
shell_sinks = refl

before_choice-Requeued_example : Requeued sample late (before_choice sample late)
before_choice-Requeued_example = before_choice-Requeued sample late sample-IsPlaced

pc_schedule-Scheduled_example : Scheduled sample early (pc_schedule sample early)
pc_schedule-Scheduled_example = pc_schedule-Scheduled sample early

pc_schedule-none_example : (pc_schedule sample early ≡ none) ↔ AllIdle sample.task_queue
pc_schedule-none_example = pc_schedule-none sample early sample-IsPlaced

pc_schedule-Ends_example : Ends sample (pc_schedule sample early)
pc_schedule-Ends_example = pc_schedule-Ends sample early sample-IsPlaced
