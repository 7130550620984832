-- ===== src/Vga/Numbers.antt =====
-- The numbers of kernel/driver/vga.c. The local `buffer` of twelve characters begins at `buffer` in the
-- memory of the stack, with what stands below it under that index.
use mini_operating_system.Prelude.{
  ℕ, zero, suc, ◌+◌, ◌-◌, ◌/◌, ◌%◌, ◌^◌, Option, some, ltb, ◌==◌, if◌then◌else◌, update, ℤ, pos,
  negsuc,
}
use mini_operating_system.Utils.Memory.{Memory}
use mini_operating_system.Vga.{Screen, kernel_putchar, kernel_puts}

abbrev pub buffer : ℕ
buffer = 64

-- `buffer + 11`, where the terminator stands
abbrev pub end : ℕ
end = 75

-- The loop `while (x)`, of at most 32 rounds: `ptr` and the memory. `x & (radix - 1)` is `x % radix` and
-- a shift is a division; `digit` is the entry of the map of characters.
unfoldable pub put_digits : (rounds radix : ℕ) (digit : ℕ → ℕ) (x ptr : ℕ) → Memory → ℕ × Memory
put_digits zero radix digit x ptr mem = (ptr, mem)
put_digits (suc rounds) radix digit x ptr mem =
    let rest =
      put_digits rounds radix digit (x / radix) (ptr - 1)
        (update mem (ptr - 1) (digit (x % radix))) in
    if x == 0 then (ptr, mem) else rest

-- `x % 10 + '0'`, and the entries of `BIN_MAP` and `OCT_MAP`
abbrev pub decimal : ℕ → ℕ
decimal d = d + 48

-- The remainder of a negative number is negative.
abbrev pub below_zero : ℕ → ℕ
below_zero d = 48 - d

abbrev pub hex_map : ℕ → ℕ
hex_map d = if ltb d 10 then d + 48 else d + 87

abbrev pub hex_map_m : ℕ → ℕ
hex_map_m d = if ltb d 10 then d + 48 else d + 55

module _ (stack : Memory) (fc bg : ℕ) where
  -- `kernel_puts` of what stands from `ptr` on: at most all 76 places up to the terminator
  abbrev pub put_text : ℕ × Memory → Screen → Option (ℕ × Screen)
  unfolding kernel_puts
  put_text (ptr, mem) s = kernel_puts 76 ptr fc bg mem 0 s

  -- `kernel_putintb`, `kernel_putinto`, `kernel_putintx` and `kernel_putintX`. Their value is 0.
  unfoldable pub put_unsigned : (radix : ℕ) (digit : ℕ → ℕ) (x : ℕ) → Screen → Option (ℕ × Screen)
  unfolding put_digits kernel_putchar
  put_unsigned radix digit x s =
      if x == 0
      then some (1, kernel_putchar 48 fc bg s)
      else put_text (put_digits 32 radix digit x end (update stack end 0)) s

  abbrev pub kernel_putintb : (x : ℕ) → Screen → Option (ℕ × Screen)
  unfolding put_unsigned
  kernel_putintb = put_unsigned 2 decimal

  abbrev pub kernel_putinto : (x : ℕ) → Screen → Option (ℕ × Screen)
  unfolding put_unsigned
  kernel_putinto = put_unsigned 8 decimal

  abbrev pub kernel_putintx : (x : ℕ) → Screen → Option (ℕ × Screen)
  unfolding put_unsigned
  kernel_putintx = put_unsigned 16 hex_map

  abbrev pub kernel_putint_upper : (x : ℕ) → Screen → Option (ℕ × Screen)
  unfolding put_unsigned
  kernel_putint_upper = put_unsigned 16 hex_map_m

  abbrev pub minus_sign : ℕ × Memory → ℕ × Memory
  minus_sign (ptr, mem) = (ptr - 1, update mem (ptr - 1) 45)

  -- The least `int` is its own negation, so its digits are those of a negative number.
  unfoldable pub kernel_putint : (x : ℤ) → Screen → Option (ℕ × Screen)
  unfolding put_digits put_unsigned
  kernel_putint (pos n) s = put_unsigned 10 decimal n s
  kernel_putint (negsuc n) s =
      let digit : ℕ → ℕ = (λ d. if n == 2 ^ 31 - 1 then below_zero d else decimal d) in
      put_text (minus_sign (put_digits 32 10 digit (n + 1) end (update stack end 0))) s
