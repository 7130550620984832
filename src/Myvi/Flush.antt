-- ===== src/Myvi/Flush.antt =====
-- `screen_flush` of usr/myvi.c.
use mini_operating_system.Prelude.{
  ℕ, zero, suc, ◌+◌, ◌-◌, ◌*◌, ◌/◌, ◌%◌, ◌^◌, ◌&&◌, ltb, ◌==◌, if◌then◌else◌, add32,
}
use mini_operating_system.Vga.{Screen, kernel_putchar_at}
use mini_operating_system.Myvi.{Vi, row_len, column_len, less, distance}

abbrev pub color_black_white : ℕ
color_black_white = 0x00000fff

abbrev pub color_white_black : ℕ
color_white_black = 0x0fff0000

abbrev pub color_black_blue : ℕ
color_black_blue = 0x0000000f

abbrev pub color_green_white : ℕ
color_green_white = 0x00f00fff

-- The locals `row`, `column` and `loc`, and the screen
pub record Pen : Type 0 where
  pub row : ℕ
  pub column : ℕ
  pub loc : ℕ
  pub on : Screen

-- A character where the pen is, which goes one column on
unfoldable pub put_char_on_screen : (ch color : ℕ) → Pen → Pen
unfolding kernel_putchar_at
put_char_on_screen ch color p = record p {
  on = kernel_putchar_at ch (color % 2 ^ 16) (color / 2 ^ 16 % 2 ^ 16) p.row p.column p.on;
  column = p.column + 1;
}

unfoldable pub put_spaces : (rounds color : ℕ) → Pen → Pen
unfolding put_char_on_screen
put_spaces zero color p = p
put_spaces (suc rounds) color p = put_spaces rounds color (put_char_on_screen 32 color p)

-- Spaces up to the end of the row
abbrev pub fill_row : (color : ℕ) → Pen → Pen
unfolding put_spaces
fill_row color p = put_spaces (column_len - p.column) color p

abbrev pub next_row : Pen → Pen
next_row p = record p { row = p.row + 1; column = 0 }

abbrev pub wrap : Pen → Pen
wrap p = if p.column == column_len then next_row p else p

-- The switch on a character of the buffer
unfoldable pub put_key : (ch color : ℕ) → Pen → Pen
unfolding put_char_on_screen put_spaces
put_key ch color p =
    if ch == 10
    then next_row (fill_row color_black_white (put_char_on_screen 32 color p))
    else if ch == 13
    then p
    else if ch == 9
    then put_spaces (p.column / 4 * 4 + 4 - p.column) color p
    else put_char_on_screen ch color p

-- The loop over the buffer, with a round for each character from the first of the page on
unfoldable pub put_page : (rounds : ℕ) → Vi → Pen → Pen
unfolding put_key
put_page zero v p = p
put_page (suc rounds) v p =
    let color = if p.loc == v.cursor_location then color_white_black else color_black_white in
    let put = wrap (put_key (v.buffer p.loc) color p) in
    let rest = put_page rounds v (record put { loc = add32 p.loc 1 }) in
    if ltb p.row row_len && less p.loc v.size then rest else p

-- The cursor behind the last character
unfoldable pub put_end : Vi → Pen → Pen
unfolding put_char_on_screen
put_end v p =
    if p.loc == v.size && p.loc == v.cursor_location
    then wrap (put_char_on_screen 32 color_white_black p)
    else p

-- The rows that are left
unfoldable pub put_rows : (rounds : ℕ) → Pen → Pen
unfolding put_char_on_screen put_spaces
put_rows zero p = p
put_rows (suc rounds) p =
    put_rows rounds
      (next_row (fill_row color_black_white (put_char_on_screen 126 color_black_blue p)))

unfoldable pub put_rest : Pen → Pen
unfolding put_rows put_spaces
put_rest p =
    let q = if p.column == 0 then p else next_row (fill_row color_black_white p) in
    if ltb p.row row_len then put_rows (row_len - q.row) q else p

-- The row of the instruction
unfoldable pub put_instruction : (rounds i : ℕ) → Vi → Pen → Pen
unfolding put_char_on_screen
put_instruction zero i v p = p
put_instruction (suc rounds) i v p =
    let ch = if less i v.inst_len then v.instruction i else 32 in
    put_instruction rounds (i + 1) v (put_char_on_screen ch color_green_white p)

unfoldable pub screen_flush : Vi → Vi
unfolding put_page put_end put_rest put_instruction
screen_flush v =
    let page =
      put_page (distance v.page_location v.size) v
        (record { row = 0; column = 0; loc = v.page_location; on = v.screen }) in
    let rest = put_rest (put_end v page) in
    let last = put_instruction (column_len - 20) 0 v (record rest { row = row_len; column = 0 }) in
    record v { page_end = page.loc; screen = last.on }
