-- ===== src/Vga/Cells.antt =====
-- The memory of the screen of kernel/driver/vga.c as cells of rows and columns: what its filling and
-- its copying do to them.
use mini_operating_system.Prelude.{
  ℕ, zero, suc, ◌+◌, ◌-◌, ◌*◌, ◌<◌, ◌≤◌, ◌≡◌, ◌≢◌, ◌⊎◌, refl, sym, ap, subst, ◌∙◌, inl, inr, true,
  false, ◌&&◌, ltb, leb, ◌==◌, if◌then◌else◌, update, update_eq, update_ne, arith, Bool-cases,
}
use mini_operating_system.Utils.Memory.{Memory, within, kernel_memcpy, kernel_memcpy_lem}
use mini_operating_system.Utils.Strings.{kernel_memset_word}
use mini_operating_system.Vga.{Screen, place, blank, blank_words, char_vram, kernel_scroll_screen}

-- The cells of a row and a column
abbrev pub Cells : Type 0
Cells = ℕ → ℕ → ℕ

abbrev pub clear_cells : (row col len : ℕ) → Cells → Cells
clear_cells row col len f r c =
    if r == row && (leb col c && ltb c (col + len)) then blank else f r c

-- All rows of text move up by one, and the last one is blank.
abbrev pub scroll : Cells → Cells
scroll f r c = if ltb r 28 then f (r + 1) c else if r == 28 then blank else f r c

abbrev pub put_cell : (row col code : ℕ) → Cells → Cells
put_cell row col code f r c = if r == row && c == col then code else f r c

-- The memory of the screen has the cells, for all its 32 rows and 128 columns.
abbrev pub Shows : Memory → Cells → Type 0
Shows mem f = (r c : ℕ) → r < 32 → c < 128 → mem (place r c) ≡ f r c

fill_inside :
    (dest w len : ℕ) (mem : Memory) (a : ℕ)
    → ((k : ℕ) × (k < len) × (a ≡ dest + 4 * k)) ⊎ (mem a ≡ w)
    → (kernel_memset_word dest w len mem).1 a ≡ w
unfolding kernel_memset_word
fill_inside dest w zero mem a (inl (k, l, e)) = absurd (omega (arith, l))
fill_inside dest w zero mem a (inr e) = e
fill_inside dest w (suc len) mem a seen =
    fill_inside (dest + 4) w len (update mem dest w) a (now seen)
  where
    now :
        ((k : ℕ) × (k < suc len) × (a ≡ dest + 4 * k)) ⊎ (mem a ≡ w)
        → ((k : ℕ) × (k < len) × (a ≡ dest + 4 + 4 * k)) ⊎ (update mem dest w a ≡ w)
    now (inl (zero, l, e)) = inr (update_eq mem dest w a (omega (arith, e)))
    now (inl (suc k, l, e)) = inl (k, omega (arith, l), omega (arith, e))
    now (inr e) = elim (Bool-cases (a == dest)) [
      | inl f ↦ inr (rw f refl)
      | inr f ↦ inr (update_ne mem dest w a f ∙ e)
    ]

fill_outside :
    (dest w len : ℕ) (mem : Memory) (a : ℕ)
    → ((k : ℕ) → k < len → a ≢ dest + 4 * k)
    → (kernel_memset_word dest w len mem).1 a ≡ mem a
unfolding kernel_memset_word
fill_outside dest w zero mem a far = refl
fill_outside dest w (suc len) mem a far =
    let here : a ≢ dest = (λ e. far 0 (omega arith) (omega (arith, e))) in
    fill_outside (dest + 4) w len (update mem dest w) a
      (λ k l e. far (suc k) (omega (arith, l)) (omega (arith, e)))
    ∙ update_ne mem dest w a (ground (arith, here))

fill-Shows :
    (row col len : ℕ) (mem : Memory) (f : Cells)
    → row < 32
    → col + len ≤ 128
    → Shows mem f
    → Shows (kernel_memset_word (place row col) blank len mem).1 (clear_cells row col len f)
fill-Shows row col len mem f h l shows r c hr hc =
    elim (Bool-cases (r == row && (leb col c && ltb c (col + len)))) [
      | inl e ↦
          let same : r ≡ row = ground (arith, e) in
          let from : col ≤ c = ground (arith, e) in
          let to : c < col + len = ground (arith, e) in
          fill_inside (place row col) blank len mem (place r c)
            (inl (c - col, omega (arith, from, to), omega (arith, from, same)))
          ∙ ap (λ b. if b then blank else f r c) (sym e)
      | inr e ↦
          fill_outside (place row col) blank len mem (place r c) (λ k m p.
            let same : r ≡ row = omega (arith, p, hc, l, m) in
            let at : c ≡ col + k = omega (arith, p, same) in ground (arith, e, same, at, m))
          ∙ shows r c hr hc
          ∙ ap (λ b. if b then blank else f r c) (sym e)
    ]

cell_ne :
    (r c row col : ℕ)
    → c < 128
    → col < 128
    → (r == row && c == col) ≡ false
    → (place r c == place row col) ≡ false
cell_ne r c row col hc hl e =
    let far : place r c ≢ place row col = (λ p.
      let same : r ≡ row = omega (arith, p, hc, hl) in
      let at : c ≡ col = omega (arith, p, same) in ground (arith, e, same, at)) in
    ground (arith, far)

pub put-Shows :
    (row col code : ℕ) (mem : Memory) (f : Cells)
    → col < 128
    → Shows mem f
    → Shows (update mem (place row col) code) (put_cell row col code f)
put-Shows row col code mem f l shows r c hr hc = elim (Bool-cases (r == row && c == col)) [
  | inl e ↦
      let same : r ≡ row = ground (arith, e) in
      let at : c ≡ col = ground (arith, e) in
      update_eq mem (place row col) code (place r c) (omega (arith, same, at))
      ∙ ap (λ b. if b then code else f r c) (sym e)
  | inr e ↦
      update_ne mem (place row col) code (place r c) (cell_ne r c row col hc l e)
      ∙ shows r c hr hc
      ∙ ap (λ b. if b then code else f r c) (sym e)
]

-- The rows that the copy moves up
moved : Cells → Cells
moved f r c = if ltb r 28 then f (r + 1) c else f r c

copy-Shows :
    (mem : Memory) (f : Cells)
    → Shows mem f
    → Shows (kernel_memcpy char_vram (place 1 0) 14336 mem) (moved f)
unfolding moved
copy-Shows mem f shows r c hr hc =
    let copied =
      kernel_memcpy_lem char_vram (place 1 0) 14336 mem (place r c) (inl (omega arith)) in
    elim (Bool-cases (ltb r 28)) [
      | inl e ↦
          let inside : within char_vram 14336 (place r c) ≡ true = ground (arith, e, hc) in
          let from : place 1 0 + (place r c - char_vram) ≡ place (r + 1) c = omega arith in
          copied
          ∙ ap (λ b. if b then mem (place 1 0 + (place r c - char_vram)) else mem (place r c))
              inside
          ∙ ap mem from
          ∙ shows (r + 1) c (ground (arith, e)) hc
          ∙ ap (λ b. if b then f (r + 1) c else f r c) (sym e)
      | inr e ↦
          let outside : within char_vram 14336 (place r c) ≡ false = ground (arith, e) in
          copied
          ∙ ap (λ b. if b then mem (place 1 0 + (place r c - char_vram)) else mem (place r c))
              outside
          ∙ shows r c hr hc
          ∙ ap (λ b. if b then f (r + 1) c else f r c) (sym e)
    ]

last_blank : (f : Cells) (r c : ℕ) → c < 128 → clear_cells 28 0 128 (moved f) r c ≡ scroll f r c
unfolding moved
last_blank f r c h = ground arith

pub kernel_scroll_screen-Shows :
    (s : Screen) (f : Cells) → Shows s.vram f → Shows (kernel_scroll_screen s).vram (scroll f)
unfolding kernel_scroll_screen
kernel_scroll_screen-Shows s f shows r c hr hc =
    fill-Shows 28 0 128 (kernel_memcpy char_vram (place 1 0) 14336 s.vram) (moved f) (omega arith)
      (omega arith) (copy-Shows s.vram f shows) r c hr hc
    ∙ last_blank f r c hc

pub scrolled_row : (s : Screen) → (kernel_scroll_screen s).cursor_row ≡ s.cursor_row
unfolding kernel_scroll_screen
scrolled_row s = refl

pub scrolled_col : (s : Screen) → (kernel_scroll_screen s).cursor_col ≡ s.cursor_col
unfolding kernel_scroll_screen
scrolled_col s = refl

pub blank_words-Shows :
    (s : Screen) (len n : ℕ) (f : Cells)
    → s.cursor_row < 32
    → s.cursor_col + n ≤ 128
    → len ≡ n
    → Shows s.vram f
    → Shows
        (blank_words s.cursor_row s.cursor_col len s).vram
        (clear_cells s.cursor_row s.cursor_col n f)
unfolding blank_words kernel_memset_word
blank_words-Shows s len n f h l e shows =
    subst
      (λ k.
        Shows (blank_words s.cursor_row s.cursor_col k s).vram
          (clear_cells s.cursor_row s.cursor_col n f))
      (sym e) (fill-Shows s.cursor_row s.cursor_col n s.vram f h l shows)
