-- ===== src/Myvi.antt =====
-- usr/myvi.c: the buffer of the editor and its three modes. An `int` is its bit pattern, so that a
-- place in front of the buffer is a number near 2^32.
pub mod Flush
pub mod Modes
pub mod Keys
mod Tests
use mini_operating_system.Prelude.{
  ℕ, zero, suc, ◌+◌, ◌^◌, ◌%◌, Bool, true, false, not, ◌&&◌, ◌||◌, ltb, leb, ◌==◌, if◌then◌else◌,
  word, add32, sub32, update,
}
use mini_operating_system.Vga.{Screen}

pub record Vi : Type 0 where
  pub buffer : ℕ → ℕ
  pub instruction : ℕ → ℕ
  pub inst_len : ℕ
  pub size : ℕ
  pub cursor_location : ℕ
  pub page_location : ℕ
  pub page_end : ℕ
  pub err : ℕ
  pub mode : ℕ
  pub screen : Screen

abbrev pub buffer_size : ℕ
buffer_size = 4096

abbrev pub row_len : ℕ
row_len = 29

abbrev pub column_len : ℕ
column_len = 80

-- `a < b` of two `int`
abbrev pub less : (a b : ℕ) → Bool
less a b = ltb (add32 a (2 ^ 31)) (add32 b (2 ^ 31))

-- The rounds of a loop that goes from `a` up to `b` while it is less
abbrev pub distance : (a b : ℕ) → ℕ
distance a b = if less a b then sub32 b a else 0

unfoldable pub zero_from : (rounds i : ℕ) → (ℕ → ℕ) → ℕ → ℕ
zero_from zero i f = f
zero_from (suc rounds) i f = zero_from rounds (i + 1) (update f i 0)

unfoldable pub myvi_init : Vi → Vi
unfolding zero_from
myvi_init v = record v {
  size = 0;
  inst_len = 0;
  cursor_location = 0;
  page_location = 0;
  err = 0;
  mode = 0;
  page_end = 0;
  buffer = zero_from buffer_size 0 v.buffer;
}

abbrev pub to_lower_case : ℕ → ℕ
to_lower_case ch = if leb 65 ch && leb ch 90 then ch + 32 else ch

-- `for (i = size; i > site; i--)`
unfoldable pub open_gap : (rounds i : ℕ) → (ℕ → ℕ) → ℕ → ℕ
open_gap zero i b = b
open_gap (suc rounds) i b = open_gap rounds (sub32 i 1) (update b i (b (sub32 i 1)))

unfoldable pub insert_key : (key site : ℕ) → Vi → Vi
unfolding open_gap
insert_key key site v =
    if less v.size buffer_size
    then record v {
      buffer = update (open_gap (distance site v.size) v.size v.buffer) site key;
      size = add32 v.size 1;
    }
    else record v { err = 1 }

-- `for (i = site; i < size - 1; i++)`
unfoldable pub close_gap : (rounds i : ℕ) → (ℕ → ℕ) → ℕ → ℕ
close_gap zero i b = b
close_gap (suc rounds) i b = close_gap rounds (add32 i 1) (update b i (b (add32 i 1)))

unfoldable pub delete_key : (site : ℕ) → Vi → Vi
unfolding close_gap
delete_key site v = record v {
  buffer = close_gap (distance site (sub32 v.size 1)) site v.buffer;
  size = sub32 v.size 1;
}

-- `while (loc > 0 && !stop(buffer[loc - 1])) loc--`, with a round for each place in front
unfoldable pub go_back : (rounds : ℕ) (stop : ℕ → Bool) (buffer : ℕ → ℕ) (loc : ℕ) → ℕ
go_back zero stop buffer loc = loc
go_back (suc rounds) stop buffer loc =
    let rest = go_back rounds stop buffer (sub32 loc 1) in
    if less 0 loc && not (stop (buffer (sub32 loc 1))) then rest else loc

-- `while (loc < size && buffer[loc] != '\n') loc++`
unfoldable pub go_on : (rounds : ℕ) (buffer : ℕ → ℕ) (loc : ℕ) → ℕ
go_on zero buffer loc = loc
go_on (suc rounds) buffer loc =
    let rest = go_on rounds buffer (add32 loc 1) in if buffer loc == 10 then loc else rest

abbrev pub is_newline : ℕ → Bool
is_newline ch = ch == 10

abbrev pub is_line_end : ℕ → Bool
is_line_end ch = ch == 10 || ch == 13

unfoldable pub page_location_last_line : Vi → Vi
unfolding go_back
page_location_last_line v =
    let first = sub32 v.page_location 1 in
    let loc = go_back first is_line_end v.buffer first in
    if less loc 0 then v else record v { page_location = loc }

unfoldable pub page_location_next_line : Vi → Vi
unfolding go_on
page_location_next_line v =
    let loc = go_on (distance v.page_location v.size) v.buffer v.page_location in
    if less (add32 loc 1) v.size then record v { page_location = add32 loc 1 } else v

-- The first loop goes back at least once.
unfoldable pub cursor_prev_line : Vi → Vi
unfolding go_back
cursor_prev_line v =
    let before = sub32 v.cursor_location 1 in
    let loc = go_back before is_newline v.buffer before in
    if less 0 loc then record v { cursor_location = go_back loc is_newline v.buffer loc } else v

unfoldable pub cursor_next_line : Vi → Vi
unfolding go_on
cursor_next_line v =
    let loc = add32 (go_on (distance v.cursor_location v.size) v.buffer v.cursor_location) 1 in
    if less loc v.size then record v { cursor_location = loc } else v
