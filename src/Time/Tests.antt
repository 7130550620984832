-- ===== src/Time/Tests.antt =====
-- kernel/time/time.c at concrete inputs.
use mini_operating_system.Prelude.{◌+◌, ◌/◌, ◌≤◌, ◌≡◌, refl, arith}
use mini_operating_system.Utils.Memory.{Memory}
use mini_operating_system.Time.{seconds, write_time, get_time_string}
use mini_operating_system.Time.Clock.{ticks, Shows, get_time_string-Shows, seconds_ahead}

abbrev blank : Memory
blank _ = 0

-- 25.7 seconds after the start: the last digit is 5.
second_25 : get_time_string 0 2570000000 10 blank 17 ≡ 53
unfolding get_time_string seconds write_time
second_25 = refl

get_time_string-Shows_example :
    Shows (ticks 3 7 / 100000000) 10 blank (get_time_string 3 7 10 blank)
get_time_string-Shows_example = get_time_string-Shows 3 7 10 blank (omega arith) (omega arith)

seconds_ahead_example : ticks 256 0 / 100000000 + 45420 ≤ seconds 256 0
seconds_ahead_example = seconds_ahead 256 0 (omega arith) (omega arith) (omega arith)
