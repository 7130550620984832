-- ===== src/Time.antt =====
-- kernel/time/time.c: the time of day from the CPU's count of ticks, 100 million in a second.
mod Clock
mod Tests
use mini_operating_system.Prelude.{
  ℕ, ◌^◌, ◌+◌, ◌*◌, ◌/◌, ◌%◌, bit_or, Option, none, some, leb, if◌then◌else◌, word, update,
}
use mini_operating_system.Utils.Memory.{Memory}

-- The seconds, before they are split into hours, minutes and seconds.
unfoldable pub seconds : (ticks_high ticks_low : ℕ) → ℕ
seconds ticks_high ticks_low =
    let low = bit_or (ticks_low / 256) (ticks_high * 2 ^ 24 % word) in
    let high = ticks_high / 256 % 390625 in
    (high * 10995 + high * 45421 % word % 390625 + low / 390625) % word

abbrev pub digit : ℕ → ℕ
digit n = n + 48

-- The eight characters "hh:mm:ss" of a number of seconds, at `buf`.
unfoldable pub write_time : (second buf : ℕ) → Memory → Memory
write_time total buf mem =
    let minutes = total / 60 in
    let hour = minutes / 60 % 24 in
    let minute = minutes % 60 in
    let second = total % 60 in
    let m0 = update mem buf (digit (hour / 10)) in
    let m1 = update m0 (buf + 1) (digit (hour % 10)) in
    let m2 = update m1 (buf + 2) 58 in
    let m3 = update m2 (buf + 3) (digit (minute / 10)) in
    let m4 = update m3 (buf + 4) (digit (minute % 10)) in
    let m5 = update m4 (buf + 5) 58 in
    let m6 = update m5 (buf + 6) (digit (second / 10)) in update m6 (buf + 7) (digit (second % 10))

unfoldable pub get_time_string : (ticks_high ticks_low buf : ℕ) → Memory → Memory
unfolding seconds write_time
get_time_string ticks_high ticks_low buf mem = write_time (seconds ticks_high ticks_low) buf mem

-- With the terminator behind the characters. For a buffer shorter than nine the `assert` ends in an
-- endless loop: none.
unfoldable pub get_time : (ticks_high ticks_low buf len : ℕ) → Memory → Option Memory
unfolding get_time_string
get_time ticks_high ticks_low buf len mem =
    if leb 9 len
    then some (update (get_time_string ticks_high ticks_low buf mem) (buf + 8) 0)
    else none
