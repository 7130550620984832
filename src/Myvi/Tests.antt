-- ===== src/Myvi/Tests.antt =====
-- usr/myvi.c at concrete inputs: two lines of one character.
use mini_operating_system.Prelude.{ℕ, ◌<◌, ◌≡◌, refl, ◌==◌, if◌then◌else◌, arith}
use mini_operating_system.Myvi.{Vi, insert_key, delete_key, cursor_next_line, cursor_prev_line}
use mini_operating_system.Myvi.Keys.{IsInserted, delete_key-insert_key}

abbrev two_lines : Vi
two_lines = record {
  buffer = λ i. if i == 1 then 10 else if i == 3 then 10 else 97;
  instruction = λ i. 0;
  inst_len = 0;
  size = 4;
  cursor_location = 0;
  page_location = 0;
  page_end = 4;
  err = 0;
  mode = 0;
  screen = record {
    cursor_row = 0;
    cursor_col = 0;
    cursor_freq = 31;
    gpio_cursor = 0;
    vram = λ a. 0;
  };
}

delete_key-insert_key_example :
    IsInserted 98 1 two_lines (insert_key 98 1 two_lines)
    × ((delete_key 1 (insert_key 98 1 two_lines)).size ≡ 4)
    × ((i : ℕ) → i < 4 → (delete_key 1 (insert_key 98 1 two_lines)).buffer i ≡ two_lines.buffer i)
delete_key-insert_key_example = delete_key-insert_key 98 1 two_lines (omega arith) (omega arith)

abbrev on_line_2 : Vi
unfolding cursor_next_line
on_line_2 = cursor_next_line two_lines

down : on_line_2.cursor_location ≡ 2
unfolding cursor_next_line
down = refl

-- The cursor does not come back to the first line.
not_up : (cursor_prev_line on_line_2).cursor_location ≡ 2
unfolding cursor_next_line cursor_prev_line
not_up = refl
