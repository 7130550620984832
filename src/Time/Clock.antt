-- ===== src/Time/Clock.antt =====
-- When the clock of kernel/time/time.c is right.
use mini_operating_system.Prelude.{
  ℕ, ◌+◌, ◌*◌, ◌/◌, ◌%◌, ◌^◌, ◌<◌, ◌-◌, ◌≤◌, ◌≡◌, bit_or, word, arith, ltb, leb, ◌||◌, true,
}
use mini_operating_system.Prelude.Masks.{bit_or-shift_24}
use mini_operating_system.Utils.Memory.{Memory}
use mini_operating_system.Time.{digit, seconds, write_time, get_time_string}

abbrev pub ticks : (high low : ℕ) → ℕ
ticks high low = high * 2 ^ 32 + low

seconds_lem :
    (high low : ℕ) → high < 256 → low < word → seconds high low ≡ ticks high low / 100000000
unfolding seconds
seconds_lem high low h l =
    let shifted : high * 2 ^ 24 % word ≡ high * 2 ^ 24 = omega arith in
    let low_word : bit_or (low / 256) (high * 2 ^ 24 % word) ≡ low / 256 + high * 2 ^ 24 =
      rw shifted (bit_or-shift_24 (low / 256) high (omega arith)) in
    omega (arith, low_word)

-- The eight characters at `buf` are the time of day `t` seconds after midnight; other bytes stay.
pub record Shows (t buf : ℕ) (mem n : Memory) : Type 0 where
  pub hour : (n buf ≡ digit (t / 3600 % 24 / 10)) × (n (buf + 1) ≡ digit (t / 3600 % 24 % 10))
  pub minute : (n (buf + 3) ≡ digit (t / 60 % 60 / 10)) × (n (buf + 4) ≡ digit (t / 60 % 60 % 10))
  pub second : (n (buf + 6) ≡ digit (t % 60 / 10)) × (n (buf + 7) ≡ digit (t % 60 % 10))
  pub colons : (n (buf + 2) ≡ 58) × (n (buf + 5) ≡ 58)
  pub other : (a : ℕ) → (ltb a buf || leb (buf + 8) a) ≡ true → n a ≡ mem a

write_time-Shows : (t buf : ℕ) (mem : Memory) → Shows t buf mem (write_time t buf mem)
unfolding write_time
write_time-Shows t buf mem = record {
  hour = (ground arith, ground arith);
  minute = (ground arith, ground arith);
  second = (ground arith, ground arith);
  colons = (ground arith, ground arith);
  other = λ a h. ground arith;
}

-- In the first three hours or so, while the high word of the count is less than 256,
-- `get_time_string` writes the seconds since the start, the ticks divided by 100 million, as hours,
-- minutes and seconds with two digits each, and changes no other byte.
pub get_time_string-Shows :
    (high low buf : ℕ) (mem : Memory)
    → high < 256
    → low < word
    → Shows (ticks high low / 100000000) buf mem (get_time_string high low buf mem)
unfolding get_time_string
get_time_string-Shows high low buf mem h l =
    rw (seconds_lem high low h l) (write_time-Shows (ticks high low / 100000000) buf mem)

-- In the three hours after those, while the high word of the count is from 256 to 511, the clock is
-- 45420 seconds or more (above 12 hours) ahead of the ticks.
pub seconds_ahead :
    (high low : ℕ)
    → 256 ≤ high
    → high < 512
    → low < word
    → ticks high low / 100000000 + 45420 ≤ seconds high low
unfolding seconds
seconds_ahead high low from to l =
    let shifted : high * 2 ^ 24 % word ≡ (high - 256) * 2 ^ 24 = omega arith in
    let low_word : bit_or (low / 256) (high * 2 ^ 24 % word) ≡ low / 256 + (high - 256) * 2 ^ 24 =
      rw shifted (bit_or-shift_24 (low / 256) (high - 256) (omega arith)) in
    let one : high / 256 % 390625 ≡ 1 = omega arith in omega (arith, low_word, one)
