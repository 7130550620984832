-- ===== src/Pid/Tests.antt =====
-- pid.c at concrete inputs.
use mini_operating_system.Prelude.{
  ◌+◌, ◌-◌, ◌/◌, ◌%◌, ◌^◌, word, ◌≡◌, refl, true, false, arith, set, replicate, pos, minus_one, ◌<◌,
}
use mini_operating_system.Prelude.Bits.{bit, bit-bit_not, bit-zero}
use mini_operating_system.Pid.{
  Page, PidMap, bits_per_page, init_pid, test_and_set_bit, clear_bit, find_next_zero_bit,
  alloc_pidmap, free_pidmap,
}
use mini_operating_system.Pid.Bitmap.{used, set-IsPage}
use mini_operating_system.Pid.Alloc.{
  IsMap, Outcome, alloc_pidmap-Outcome, alloc_pidmap_no_wrap, AllUsed,
  find_next_zero_bit-IsFirstFree, IsFirstFree,
}
use mini_operating_system.Pid.Count.{
  count_free, Reach, alloc, here, next, init_pid-IsCounted, Reach-nr_free, Reach-IsCounted,
  IsCounted,
}

abbrev one_used : PidMap
one_used = (alloc_pidmap init_pid).1

abbrev two_used : PidMap
two_used = (alloc_pidmap one_used).1

first_pids : ((alloc_pidmap init_pid).0 ≡ pos 0) × ((alloc_pidmap one_used).0 ≡ pos 1)
unfolding alloc_pidmap init_pid find_next_zero_bit test_and_set_bit
first_pids = (refl, refl)

-- A pid that was freed is not the next one: the search goes on from `last_pid`.
no_reuse_at_once : (alloc_pidmap (free_pidmap (pos 1) two_used)).0 ≡ pos 2
unfolding alloc_pidmap free_pidmap init_pid find_next_zero_bit test_and_set_bit clear_bit
no_reuse_at_once = refl

two_used-Reach : Reach init_pid two_used
two_used-Reach = next (next here alloc) alloc

pid_1_used : used two_used.page 1 ≡ true
unfolding alloc_pidmap init_pid find_next_zero_bit test_and_set_bit
pid_1_used = refl

pid_9_unused : used two_used.page 9 ≡ false
unfolding alloc_pidmap init_pid find_next_zero_bit test_and_set_bit
pid_9_unused = refl

two_used-IsCounted : IsCounted two_used
two_used-IsCounted = Reach-IsCounted init_pid-IsCounted two_used-Reach

find_next_zero_bit-IsFirstFree_example :
    IsFirstFree two_used.page 0 bits_per_page (find_next_zero_bit two_used.page bits_per_page 0)
find_next_zero_bit-IsFirstFree_example =
    find_next_zero_bit-IsFirstFree two_used-IsCounted.map_ok.page_ok bits_per_page 0 (omega arith)

alloc_pidmap-Outcome_example : Outcome two_used (alloc_pidmap two_used)
alloc_pidmap-Outcome_example = alloc_pidmap-Outcome two_used-IsCounted.map_ok

room : two_used.nr_free + 1 < word
unfolding alloc_pidmap init_pid find_next_zero_bit test_and_set_bit
room = omega arith

Reach-nr_free_example : two_used.nr_free ≡ count_free two_used.page bits_per_page
Reach-nr_free_example = Reach-nr_free two_used-Reach

-- The pids from 32736 up are in use, the next search begins there, and those below are free.
abbrev late_page : Page
late_page = set (replicate 1024 0) 1023 (2 ^ 32 - 1)

abbrev late : PidMap
late = record { nr_free = 32736; page = late_page; last_pid = pos 32735 }

late-IsMap : IsMap late
unfolding init_pid
late-IsMap = record {
  page_ok =
      set-IsPage init_pid-IsCounted.map_ok.page_ok 1023 (2 ^ 32 - 1) (omega arith) (omega arith);
  count_ok = omega arith;
}

late_full : AllUsed late_page 32736 bits_per_page
late_full q a b =
    let e : q / 32 ≡ 1023 = omega arith in
    let ones : bit (2 ^ 32 - 1) (q % 32) ≡ 1 - bit 0 (q % 32) =
      bit-bit_not 32 0 (q % 32) (omega arith) (omega arith) in
    rw (e, ones, bit-zero (q % 32))

alloc_pidmap_no_wrap_example : alloc_pidmap late ≡ (minus_one, late)
alloc_pidmap_no_wrap_example = alloc_pidmap_no_wrap late-IsMap late_full
