-- ===== src/Vga/Picture.antt =====
-- What kernel/driver/vga.c shows: a grid of cells with a place for the next character.
use mini_operating_system.Prelude.{
  ℕ, ◌+◌, ◌-◌, ◌*◌, ◌/◌, ◌%◌, ◌^◌, ◌<◌, ◌≤◌, ◌≡◌, refl, sym, subst, ◌∙◌, leb, ◌==◌, if◌then◌else◌,
  add32, sub32, update, arith, if-cases_2,
}
use mini_operating_system.Vga.{
  Screen, place, blank_words, kernel_set_cursor, kernel_putchar_at, put_newline, put_tab, put_plain,
  kernel_putchar,
}
use mini_operating_system.Vga.Cells.{
  Cells, clear_cells, scroll, put_cell, Shows, put-Shows, kernel_scroll_screen-Shows, scrolled_row,
  scrolled_col, blank_words-Shows,
}
use mini_operating_system.Vga.Cursor.{IsOnScreen, put_newline-IsFirst, kernel_putchar-IsOnScreen}

pub record Grid : Type 0 where
  pub row : ℕ
  pub col : ℕ
  pub cells : Cells

-- The rest of the row is cleared; the next row follows, or the rows move up behind the last one.
abbrev pub break_line : Grid → Grid
break_line g =
    let rest = clear_cells g.row g.col (80 - g.col) g.cells in
    if g.row == 28
    then record { row = 28; col = 0; cells = scroll rest }
    else record { row = g.row + 1; col = 0; cells = rest }

-- To the next column that is a multiple of 4; the cells are cleared only up to the first one.
abbrev pub tab : Grid → Grid
tab g = if leb 76 g.col then break_line g else record g {
  col = (g.col / 4 + 1) * 4;
  cells = clear_cells g.row g.col ((4 - g.col % 4) % 4) g.cells;
}

abbrev pub put_code : (code : ℕ) → Grid → Grid
put_code code g = record g { col = g.col + 1; cells = put_cell g.row g.col code g.cells }

-- What a character does: a carriage return nothing, and all but the tab and the newline are shown, in
-- the next row if this one is full.
abbrev pub type_char : (ch fc bg : ℕ) → Grid → Grid
type_char ch fc bg g =
    if ch == 13
    then g
    else if ch == 10
    then break_line g
    else if ch == 9
    then tab g
    else put_code (bg % 2 ^ 12 * 2 ^ 20 + fc % 2 ^ 12 * 2 ^ 8 + ch % 256)
        (if g.col == 80 then break_line g else g)

pub record IsPicture (s : Screen) (g : Grid) : Type 0 where
  pub same_row : s.cursor_row ≡ g.row
  pub same_col : s.cursor_col ≡ g.col
  pub shows : Shows s.vram g.cells

abbrev grid : Screen → Cells → Grid
grid s f = record { row = s.cursor_row; col = s.cursor_col; cells = f }

module _ (s : Screen) (f : Cells) (h : s.cursor_row ≤ 28) (l : s.cursor_col ≤ 80)
    (shows : Shows s.vram f) where
  put_newline-IsPicture : IsPicture (put_newline s) (break_line (grid s f))
  unfolding put_newline
  put_newline-IsPicture =
      let rest =
        blank_words-Shows s (sub32 80 s.cursor_col) (80 - s.cursor_col) f (omega (arith, h))
          (omega (arith, l)) (omega (arith, l)) shows in
      let cleared : Screen =
        record (blank_words s.cursor_row s.cursor_col (sub32 80 s.cursor_col) s) {
          cursor_col = 0;
        } in
      if-cases_2 IsPicture (s.cursor_row == 28)
        (λ e. record {
          same_row = scrolled_row cleared ∙ ground (arith, e);
          same_col = scrolled_col cleared;
          shows = kernel_scroll_screen-Shows cleared _ rest;
        })
        (λ e. record { same_row = omega (arith, h); same_col = refl; shows = rest })

  put_tab-IsPicture : IsPicture (put_tab s) (tab (grid s f))
  unfolding put_tab kernel_set_cursor
  put_tab-IsPicture =
      let next = put_newline-IsPicture in
      if-cases_2 IsPicture (leb 76 s.cursor_col)
        (λ e. record { same_row = next.same_row; same_col = next.same_col; shows = next.shows })
        (λ e. record {
          same_row = refl;
          same_col = ground (arith, e);
          shows =
              blank_words-Shows s (sub32 4 s.cursor_col % 4) ((4 - s.cursor_col % 4) % 4) f
                (omega (arith, h)) (ground (arith, e)) (ground (arith, e)) shows;
        })

-- A character that is shown where the cursor is
put_code-IsPicture :
    (ch fc bg : ℕ) (t : Screen) (g : Grid)
    → t.cursor_row ≤ 28
    → t.cursor_col < 80
    → IsPicture t g
    → IsPicture
        (record (kernel_putchar_at ch fc bg t.cursor_row t.cursor_col t) {
          cursor_col = add32 t.cursor_col 1;
        })
        (put_code (bg % 2 ^ 12 * 2 ^ 20 + fc % 2 ^ 12 * 2 ^ 8 + ch % 256) g)
unfolding kernel_putchar_at
put_code-IsPicture ch fc bg t g h l p =
    let code : ℕ = bg % 2 ^ 12 * 2 ^ 20 + fc % 2 ^ 12 * 2 ^ 8 + ch % 256 in
    let row : t.cursor_row % 32 ≡ g.row = omega (arith, h, p.same_row) in
    let col : t.cursor_col % 128 ≡ g.col = omega (arith, l, p.same_col) in
    record {
      same_row = p.same_row;
      same_col = omega (arith, l, p.same_col);
      shows =
          subst
            (λ r.
              Shows (update t.vram (place r (t.cursor_col % 128)) code)
                (put_cell g.row g.col code g.cells))
            (sym row)
            (subst
              (λ c. Shows (update t.vram (place g.row c) code) (put_cell g.row g.col code g.cells))
              (sym col)
              (put-Shows g.row g.col code t.vram g.cells (omega (arith, l, p.same_col)) p.shows));
    }

set_cursor-IsPicture : (s : Screen) (g : Grid) → IsPicture s g → IsPicture (kernel_set_cursor s) g
unfolding kernel_set_cursor
set_cursor-IsPicture s g p = record {
  same_row = p.same_row;
  same_col = p.same_col;
  shows = p.shows;
}

set_cursor_row : (s : Screen) → (kernel_set_cursor s).cursor_row ≡ s.cursor_row
unfolding kernel_set_cursor
set_cursor_row s = refl

set_cursor_col : (s : Screen) → (kernel_set_cursor s).cursor_col ≡ s.cursor_col
unfolding kernel_set_cursor
set_cursor_col s = refl

module _ (ch fc bg : ℕ) (s : Screen) (f : Cells) (h : s.cursor_row ≤ 28) (l : s.cursor_col ≤ 80)
    (shows : Shows s.vram f) where
  abbrev code : ℕ
  code = bg % 2 ^ 12 * 2 ^ 20 + fc % 2 ^ 12 * 2 ^ 8 + ch % 256

  put_plain-IsPicture :
      IsPicture
        (put_plain ch fc bg s)
        (put_code code (if s.cursor_col == 80 then break_line (grid s f) else grid s f))
  unfolding put_plain
  put_plain-IsPicture =
      let next = put_newline-IsPicture s f h l shows in
      let first = put_newline-IsFirst s h in
      let broken : Screen = kernel_set_cursor (put_newline s) in
      if-cases_2
        (λ t g.
          IsPicture
            (record (kernel_putchar_at ch fc bg t.cursor_row t.cursor_col t) {
              cursor_col = add32 t.cursor_col 1;
            })
            (put_code code g))
        (s.cursor_col == 80)
        (λ e.
          put_code-IsPicture ch fc bg broken (break_line (grid s f))
            (omega (arith, set_cursor_row (put_newline s), first.row_in))
            (omega (arith, set_cursor_col (put_newline s), first.col_first))
            (set_cursor-IsPicture (put_newline s) _ next))
        (λ e.
          put_code-IsPicture ch fc bg s (grid s f) h (ground (arith, e, l))
            (record { same_row = refl; same_col = refl; shows = shows }))

  here-IsPicture : IsPicture (kernel_putchar ch fc bg s) (type_char ch fc bg (grid s f))
  unfolding kernel_putchar
  here-IsPicture =
      if-cases_2 IsPicture (ch == 13)
        (λ e. record { same_row = refl; same_col = refl; shows = shows })
        (λ e.
          if-cases_2 IsPicture (ch == 10)
            (λ e. set_cursor-IsPicture (put_newline s) _ (put_newline-IsPicture s f h l shows))
            (λ e.
              if-cases_2 IsPicture (ch == 9)
                (λ e. set_cursor-IsPicture (put_tab s) _ (put_tab-IsPicture s f h l shows))
                (λ e. set_cursor-IsPicture (put_plain ch fc bg s) _ put_plain-IsPicture)))

-- With the cursor on one of the 29 rows of text or behind the last of their 80 columns, its place in
-- the register, and the memory of the screen a picture of a grid of 32 rows and 128 columns:
-- `kernel_putchar` keeps that, and the memory is a picture of the grid in which the character has been
-- typed. A carriage return does nothing; a newline clears the rest of the row up to column 80 and goes
-- to the next row, and in the last row moves all rows of text up by one and leaves the last one blank; a
-- tab goes to the next column that is a multiple of 4, or on as a newline does from column 76 on, and
-- clears the cells up to the first column that is one; any other character is put with its colours at
-- the cursor, which goes one column on, after a newline if the row is full. No other cell changes.
pub kernel_putchar-IsPicture :
    (ch fc bg : ℕ) (s : Screen) (g : Grid)
    → IsOnScreen s
    → IsPicture s g
    → IsOnScreen (kernel_putchar ch fc bg s)
      × IsPicture (kernel_putchar ch fc bg s) (type_char ch fc bg g)
kernel_putchar-IsPicture ch fc bg s g h p = (
  kernel_putchar-IsOnScreen ch fc bg s h,
  subst
      (λ r.
        IsPicture (kernel_putchar ch fc bg s)
          (type_char ch fc bg (record { row = r; col = g.col; cells = g.cells })))
      p.same_row
      (subst
        (λ c.
          IsPicture (kernel_putchar ch fc bg s)
            (type_char ch fc bg (record { row = s.cursor_row; col = c; cells = g.cells })))
        p.same_col (here-IsPicture ch fc bg s g.cells h.row_in h.col_in p.shows)),
)
