-- ===== src/Vga.antt =====
-- kernel/driver/vga.c: the screen of characters. `vram` has the word at an address; the screen begins
-- at `char_vram` and has 128 words in a row. An `int` is its bit pattern. The colours and the cursor are
-- what the code writes; no device is behind them.
pub mod Numbers
pub mod Printf
pub mod Cursor
pub mod Cells
pub mod Picture
pub mod Digits
mod Tests
use mini_operating_system.Prelude.{
  ℕ, zero, suc, ◌+◌, ◌*◌, ◌/◌, ◌%◌, ◌^◌, ◌-◌, Option, none, some, leb, ◌==◌, if◌then◌else◌, add32,
  sub32, update,
}
use mini_operating_system.Utils.Memory.{Memory, kernel_memcpy}
use mini_operating_system.Utils.Strings.{kernel_memset_word}

pub record Screen : Type 0 where
  pub cursor_row : ℕ
  pub cursor_col : ℕ
  pub cursor_freq : ℕ
  pub gpio_cursor : ℕ
  pub vram : Memory

abbrev pub char_vram : ℕ
char_vram = 0xbfc04000

abbrev pub vga_char_max_col : ℕ
vga_char_max_col = 128

abbrev pub vga_char_row : ℕ
vga_char_row = 30

abbrev pub vga_char_col : ℕ
vga_char_col = 80

-- The local `w`, a blank
abbrev pub blank : ℕ
blank = 0x000fff00

-- `CHAR_VRAM + row * VGA_CHAR_MAX_COL + col`
abbrev pub place : (row col : ℕ) → ℕ
place row col = char_vram + 4 * (row * vga_char_max_col + col)

-- `kernel_memset_word` at a place of the screen
abbrev pub blank_words : (row col len : ℕ) → Screen → Screen
unfolding kernel_memset_word
blank_words row col len s = record s {
  vram = (kernel_memset_word (place row col) blank len s.vram).1;
}

unfoldable pub kernel_set_cursor : Screen → Screen
kernel_set_cursor s = record s {
  gpio_cursor = s.cursor_freq % 256 * 2 ^ 16 + s.cursor_row % 256 * 2 ^ 8 + s.cursor_col % 256;
}

unfoldable pub init_vga : Screen → Screen
unfolding kernel_set_cursor
init_vga s = kernel_set_cursor (record s { cursor_row = 0; cursor_col = 0; cursor_freq = 31 })

unfoldable pub kernel_clear_screen : (scope : ℕ) → Screen → Screen
unfolding kernel_set_cursor blank_words
kernel_clear_screen scope s =
    blank_words 0 0 (scope % 32 * vga_char_max_col)
      (kernel_set_cursor (record s { cursor_col = 0; cursor_row = 0 }))

-- The rows move up by one; the copy moves whole words, whose addresses are those of their first bytes.
unfoldable pub kernel_scroll_screen : Screen → Screen
unfolding kernel_memcpy blank_words
kernel_scroll_screen s = blank_words (vga_char_row - 2) 0 vga_char_max_col (record s {
  vram = kernel_memcpy char_vram (place 1 0) ((vga_char_row - 2) * vga_char_max_col * 4) s.vram;
})

unfoldable pub kernel_putchar_at : (ch fc bg row col : ℕ) → Screen → Screen
kernel_putchar_at ch fc bg row col s = record s {
  vram =
      update s.vram (place (row % 32) (col % 128))
        (bg % 2 ^ 12 * 2 ^ 20 + fc % 2 ^ 12 * 2 ^ 8 + ch % 256);
}

-- The branch for '\n'. A column past 80 makes the number of words negative, and the loop goes through
-- the numbers below 0.
unfoldable pub put_newline : Screen → Screen
unfolding blank_words kernel_scroll_screen
put_newline s =
    let row = s.cursor_row in
    let cleared = record (blank_words row s.cursor_col (sub32 vga_char_col s.cursor_col) s) {
      cursor_col = 0;
    } in
    if row == vga_char_row - 2
    then kernel_scroll_screen cleared
    else record cleared { cursor_row = add32 row 1 }

-- The branch for '\t'; `4 - cursor_col & 3` is `(4 - cursor_col) & 3`.
unfoldable pub put_tab : Screen → Screen
unfolding blank_words kernel_set_cursor put_newline
put_tab s =
    if leb (vga_char_col - 4) s.cursor_col
    then kernel_set_cursor (put_newline s)
    else record (blank_words s.cursor_row s.cursor_col (sub32 4 s.cursor_col % 4) s) {
      cursor_col = add32 s.cursor_col 4 / 4 * 4;
    }

-- The branch for all other characters
unfoldable pub put_plain : (ch fc bg : ℕ) → Screen → Screen
unfolding kernel_set_cursor put_newline kernel_putchar_at
put_plain ch fc bg s =
    let t = if s.cursor_col == vga_char_col then kernel_set_cursor (put_newline s) else s in
    record (kernel_putchar_at ch fc bg t.cursor_row t.cursor_col t) {
      cursor_col = add32 t.cursor_col 1;
    }

-- The value is `ch` in every case.
unfoldable pub kernel_putchar : (ch fc bg : ℕ) → Screen → Screen
unfolding kernel_set_cursor put_newline put_tab put_plain
kernel_putchar ch fc bg s =
    if ch == 13
    then s
    else if ch == 10
    then kernel_set_cursor (put_newline s)
    else if ch == 9
    then kernel_set_cursor (put_tab s)
    else kernel_set_cursor (put_plain ch fc bg s)

-- A round for each character and one for the terminator; none is no fuel. The number of characters
unfoldable pub kernel_puts :
    (fuel s fc bg : ℕ) (mem : Memory) (ret : ℕ) → Screen → Option (ℕ × Screen)
unfolding kernel_putchar
kernel_puts zero s fc bg mem ret v = none
kernel_puts (suc fuel) s fc bg mem ret v =
    let rest = kernel_puts fuel (s + 1) fc bg mem (ret + 1) (kernel_putchar (mem s) fc bg v) in
    if mem s == 0 then some (ret, v) else rest
