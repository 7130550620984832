-- ===== src/Vga/Cursor.antt =====
-- The cursor of kernel/driver/vga.c.
use mini_operating_system.Prelude.{
  ℕ, ◌+◌, ◌*◌, ◌%◌, ◌^◌, ◌<◌, ◌≤◌, ◌≡◌, refl, leb, ◌==◌, add32, arith, if-cases,
}
use mini_operating_system.Vga.{
  Screen, kernel_set_cursor, kernel_scroll_screen, kernel_putchar_at, put_newline, put_tab,
  put_plain, kernel_putchar,
}

-- The cursor is on one of the 29 rows that text has, or behind the last of its 80 columns, and the
-- register of the device has its place.
pub record IsOnScreen (s : Screen) : Type 0 where
  pub row_in : s.cursor_row ≤ 28
  pub col_in : s.cursor_col ≤ 80
  pub shown :
      s.gpio_cursor ≡ s.cursor_freq % 256 * 2 ^ 16 + s.cursor_row % 256 * 2 ^ 8 + s.cursor_col % 256

record IsInside (s : Screen) : Type 0 where
  row_in : s.cursor_row ≤ 28
  col_in : s.cursor_col ≤ 80

kernel_set_cursor-IsOnScreen : (s : Screen) → IsInside s → IsOnScreen (kernel_set_cursor s)
unfolding kernel_set_cursor
kernel_set_cursor-IsOnScreen s h = record { row_in = h.row_in; col_in = h.col_in; shown = refl }

pub record IsFirst (s : Screen) : Type 0 where
  pub row_in : s.cursor_row ≤ 28
  pub col_first : s.cursor_col ≡ 0

pub put_newline-IsFirst : (s : Screen) → s.cursor_row ≤ 28 → IsFirst (put_newline s)
unfolding put_newline kernel_scroll_screen
put_newline-IsFirst s h =
    if-cases IsFirst (s.cursor_row == 28) (λ e. record { row_in = h; col_first = refl })
      (λ e. record { row_in = ground (arith, e); col_first = refl })

put_tab-IsInside : (s : Screen) → IsInside s → IsInside (put_tab s)
unfolding put_tab kernel_set_cursor
put_tab-IsInside s h =
    let first = put_newline-IsFirst s h.row_in in
    if-cases IsInside (leb 76 s.cursor_col)
      (λ e. record { row_in = first.row_in; col_in = omega (arith, first.col_first) })
      (λ e. record { row_in = h.row_in; col_in = ground (arith, e) })

step_right :
    (ch fc bg : ℕ) (t : Screen)
    → t.cursor_row ≤ 28
    → t.cursor_col < 80
    → IsInside (record (kernel_putchar_at ch fc bg t.cursor_row t.cursor_col t) {
      cursor_col = add32 t.cursor_col 1;
    })
unfolding kernel_putchar_at
step_right ch fc bg t r c = record { row_in = r; col_in = omega arith }

put_plain-IsInside : (ch fc bg : ℕ) (s : Screen) → IsInside s → IsInside (put_plain ch fc bg s)
unfolding put_plain kernel_set_cursor
put_plain-IsInside ch fc bg s h =
    let first = put_newline-IsFirst s h.row_in in
    let c = h.col_in in
    if-cases
      (λ t. IsInside (record (kernel_putchar_at ch fc bg t.cursor_row t.cursor_col t) {
        cursor_col = add32 t.cursor_col 1;
      }))
      (s.cursor_col == 80)
      (λ e.
        step_right ch fc bg (kernel_set_cursor (put_newline s)) first.row_in
          (omega (arith, first.col_first)))
      (λ e. step_right ch fc bg s h.row_in (ground (arith, e, c)))

pub kernel_putchar-IsOnScreen :
    (ch fc bg : ℕ) (s : Screen) → IsOnScreen s → IsOnScreen (kernel_putchar ch fc bg s)
unfolding kernel_putchar
kernel_putchar-IsOnScreen ch fc bg s h =
    let inside : IsInside s = record { row_in = h.row_in; col_in = h.col_in } in
    let first = put_newline-IsFirst s h.row_in in
    let next : IsInside (put_newline s) = record {
      row_in = first.row_in;
      col_in = omega (arith, first.col_first);
    } in
    if-cases IsOnScreen (ch == 13) (λ e. h)
      (λ e.
        if-cases IsOnScreen (ch == 10) (λ f. kernel_set_cursor-IsOnScreen (put_newline s) next)
          (λ f.
            if-cases IsOnScreen (ch == 9)
              (λ g. kernel_set_cursor-IsOnScreen (put_tab s) (put_tab-IsInside s inside))
              (λ g.
                kernel_set_cursor-IsOnScreen (put_plain ch fc bg s)
                  (put_plain-IsInside ch fc bg s inside))))
