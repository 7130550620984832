-- ===== src/Bootmm/State.antt =====
-- The state of kernel/mm/bootmm.c: a map of one byte for each page and a table of the segments in
-- use. The array `info` is a function of the index, so that a write past its end is a write of its
-- own place.
use mini_operating_system.Prelude.{ℕ, bit_and, sub32}
use mini_operating_system.Prelude.Bits.{bit_not}

abbrev pub page_free : ℕ
page_free = 0

abbrev pub page_used : ℕ
page_used = 0xff

abbrev pub max_info : ℕ
max_info = 10

abbrev pub page_size : ℕ
page_size = 4096

-- `struct bootmm_info`: the first and the last byte of a segment, for all its names say, and its use
pub record Info : Type 0 where
  pub start_pn : ℕ
  pub end_pn : ℕ
  pub type : ℕ

-- `s_map` is what `bootmap` holds.
pub record Bootmm : Type 0 where
  pub phy_size : ℕ
  pub max_pn : ℕ
  pub s_map : ℕ → ℕ
  pub last_alloc : ℕ
  pub count : ℕ
  pub info : ℕ → Info

-- `x & ~(y - 1)`
abbrev pub round_down : ℕ → ℕ → ℕ
round_down x y = bit_and x (bit_not 32 (sub32 y 1))
