-- ===== src/Pc/Kill/Tests.antt =====
-- `pc_kill` at concrete inputs.
use mini_operating_system.Prelude.{ℕ, ◌≡◌, refl, arith, Option, none, some, ℤ, pos, minus_one}
use mini_operating_system.Pc.State.{Sched}
use mini_operating_system.Pc.Sample.{sample}
use mini_operating_system.Pc.Kill.{end_process, adopt_visit, sweep, sweep_queue, pc_kill}
use mini_operating_system.Pc.Kill.Plain.{Killed, pc_kill-Killed}

pc_kill-Killed_example : Killed (pos 2) sample (pc_kill 1 (pos 2) sample)
pc_kill-Killed_example = pc_kill-Killed (pos 2) 0 sample (omega arith) refl refl

-- The status and the pids of the two slots in use.
abbrev view : Option (Sched × ℕ) → Option (ℕ × ℤ × ℤ)
view none = none
view (some (s, status)) = some (status, (s.task_queue 6 0).asid, (s.task_queue 5 0).asid)

kill_timer : view (pc_kill 1 (pos 2) sample) ≡ some (2, pos 1, minus_one)
unfolding pc_kill sweep sweep_queue adopt_visit end_process
kill_timer = refl

kill_shell : view (pc_kill 1 (pos 1) sample) ≡ some (1, pos 1, pos 2)
unfolding pc_kill
kill_shell = refl

kill_nobody : view (pc_kill 1 (pos 7) sample) ≡ some (3, pos 1, pos 2)
unfolding pc_kill sweep sweep_queue adopt_visit end_process
kill_nobody = refl
