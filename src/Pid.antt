-- ===== src/Pid.antt =====
-- kernel/pc/pid.c and pid.h: process ids, handed out from a bitmap of one page.
pub mod Bitmap
pub mod Alloc
pub mod Count
mod Tests
use mini_operating_system.Prelude.{
  ℕ, zero, suc, ◌+◌, ◌-◌, ◌/◌, ◌%◌, ◌^◌, Bool, not, ◌&&◌, List, bit_and, bit_or, ◌==◌,
  if◌then◌else◌, word, add32, sub32, get_or, set, replicate, ℤ, pos, minus_one, succ_ℤ, low_bits,
}
use mini_operating_system.Prelude.Bits.{bit_not}

abbrev pub bits_per_page : ℕ
bits_per_page = 32768

-- The page as the 1024 words of 32 bits that the code reads and writes.
abbrev pub Page : Type 0
Page = List ℕ

-- `pid_map` and `last_pid`
pub record PidMap : Type 0 where
  pub nr_free : ℕ
  pub page : Page
  pub last_pid : ℤ

unfoldable pub init_pid : PidMap
init_pid = record { nr_free = bits_per_page; page = replicate 1024 0; last_pid = minus_one }

-- `1UL << (offset & 31)`, and the word at `offset >> 5`. No caller has a negative offset.
abbrev pub mask : ℕ → ℕ
mask offset = 2 ^ (offset % 32)

abbrev pub word_at : Page → ℕ → ℕ
word_at page offset = get_or page (offset / 32) 0

unfoldable pub test_and_set_bit : ℕ → Page → Bool × Page
test_and_set_bit offset page =
    let old = word_at page offset in
    (not (bit_and old (mask offset) == 0), set page (offset / 32) (bit_or old (mask offset)))

unfoldable pub clear_bit : ℕ → Page → Page
clear_bit offset page =
    set page (offset / 32) (bit_and (word_at page offset) (bit_not 32 (mask offset)))

-- The loop of `find_next_zero_bit`, with the `size - offset` rounds that are left.
find_zero_bit_loop : Page → ℕ → ℕ → ℕ
find_zero_bit_loop page zero offset = offset
find_zero_bit_loop page (suc rounds) offset =
    let rest = find_zero_bit_loop page rounds (offset + 1) in
    if bit_and (bit_not 32 (word_at page offset)) (mask offset) == 0 then rest else offset

unfoldable pub find_next_zero_bit : Page → ℕ → ℕ → ℕ
unfolding find_zero_bit_loop
find_next_zero_bit page size offset = find_zero_bit_loop page (size - offset) offset

unfoldable pub alloc_pidmap : PidMap → ℤ × PidMap
alloc_pidmap m =
    let start = low_bits (succ_ℤ m.last_pid) 15 in
    let offset = find_next_zero_bit m.page bits_per_page start in
    let (was_set, page) = test_and_set_bit offset m.page in
    if m.nr_free == 0
    then (minus_one, m)
    else if offset == bits_per_page
    then (minus_one, m)
    else if was_set
    then (minus_one, record m { page = page })
    else (pos offset, record m { nr_free = sub32 m.nr_free 1; page = page; last_pid = pos offset })

unfoldable pub free_pidmap : ℤ → PidMap → PidMap
free_pidmap pid m = record m {
  nr_free = add32 m.nr_free 1;
  page = clear_bit (low_bits pid 15) m.page;
}
