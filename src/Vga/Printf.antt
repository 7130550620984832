-- ===== src/Vga/Printf.antt =====
-- `kernel_vprintf` and `kernel_printf` of kernel/driver/vga.c.
use mini_operating_system.Prelude.{
  ℕ, zero, suc, ◌+◌, ◌-◌, ◌%◌, ◌^◌, true, false, Option, none, some, List, [], ◌∷◌, ltb, ◌==◌,
  if◌then◌else◌, ℤ, pos, negsuc,
}
use mini_operating_system.Utils.Memory.{Memory}
use mini_operating_system.Vga.{Screen, kernel_putchar, kernel_puts}
use mini_operating_system.Vga.Numbers.{
  put_unsigned, kernel_putint, kernel_putintb, kernel_putinto, kernel_putintx, kernel_putint_upper,
}

-- The `int` of a bit pattern
abbrev pub to_int : ℕ → ℤ
to_int w = if ltb w (2 ^ 31) then pos w else negsuc (2 ^ 32 - 1 - w)

abbrev pub white : ℕ
white = 0xfff

module _ (stack mem : Memory) where
  -- The case of a conversion: nothing where the character is none of them, and then what it prints.
  unfoldable pub convert : (fuel ch arg : ℕ) → Screen → Option (Option (ℕ × Screen))
  unfolding kernel_putchar kernel_puts kernel_putint put_unsigned
  convert fuel ch arg s =
      if ch == 99
      then some (some (1, kernel_putchar (arg % 256) white 0 s))
      else if ch == 100
      then some (kernel_putint stack white 0 (to_int arg) s)
      else if ch == 98
      then some (kernel_putintb stack white 0 arg s)
      else if ch == 111
      then some (kernel_putinto stack white 0 arg s)
      else if ch == 120
      then some (kernel_putintx stack white 0 arg s)
      else if ch == 88
      then some (kernel_putint_upper stack white 0 arg s)
      else if ch == 115
      then some (kernel_puts fuel arg white 0 mem 0 s)
      else none

  -- A round takes a character or a conversion. The result is `cnt`, -1 for a conversion that is not
  -- known, and the screen; none is no fuel, or an argument too few. The fuel serves the strings too.
  unfoldable pub kernel_vprintf :
      (fuel format : ℕ) (ap : List ℕ) (cnt : ℕ) → Screen → Option (ℤ × Screen)
  unfolding convert kernel_putchar
  kernel_vprintf zero format ap cnt s = none
  kernel_vprintf (suc fuel) format ap cnt s = elim (mem format) [
    | zero ↦ some (pos cnt, s)
    | suc c ↦ elim (suc c == 37) [
      | false ↦ kernel_vprintf fuel (format + 1) ap cnt (kernel_putchar (suc c) white 0 s)
      | true ↦ elim ap [
        | [] ↦ elim (convert fuel (mem (format + 1)) 0 s) [
          | none ↦ some (negsuc 0, s)
          | some shown ↦ none
        ]
        | arg ∷ args ↦ elim (convert fuel (mem (format + 1)) arg s) [
          | none ↦ some (negsuc 0, s)
          | some none ↦ none
          | some (some (n, t)) ↦ kernel_vprintf fuel (format + 2) args (cnt + 1) t
        ]
      ]
    ]
  ]

  abbrev pub kernel_printf : (fuel format : ℕ) (args : List ℕ) → Screen → Option (ℤ × Screen)
  unfolding kernel_vprintf
  kernel_printf fuel format args s = kernel_vprintf fuel format args 0 s
