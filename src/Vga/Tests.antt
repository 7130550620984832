-- ===== src/Vga/Tests.antt =====
-- kernel/driver/vga.c at concrete inputs: a screen with its cursor at the end of the last row.
use mini_operating_system.Prelude.{◌^◌, ◌<◌, ◌≤◌, ◌≡◌, ◌↔◌, refl, arith}
use mini_operating_system.Utils.Memory.{Memory}
use mini_operating_system.Vga.{Screen, kernel_putchar, kernel_set_cursor}
use mini_operating_system.Vga.Numbers.{put_digits, buffer, end, hex_map, decimal}
use mini_operating_system.Vga.Cursor.{IsOnScreen}
use mini_operating_system.Vga.Picture.{Grid, type_char, IsPicture, kernel_putchar-IsPicture}
use mini_operating_system.Vga.Digits.{IsNumeral, put_digits-IsNumeral, put_digits_inside}

abbrev nothing : Memory
nothing = λ a. 0

abbrev last_place : Screen
unfolding kernel_set_cursor
last_place =
    kernel_set_cursor (record {
      cursor_row = 28;
      cursor_col = 80;
      cursor_freq = 31;
      gpio_cursor = 0;
      vram = nothing;
    })

abbrev all_zero : Grid
all_zero = record { row = 28; col = 80; cells = λ r c. 0 }

-- The rows move up, and 'A' stands at the start of the last one.
kernel_putchar-IsPicture_example :
    IsOnScreen (kernel_putchar 65 4095 0 last_place)
    × IsPicture (kernel_putchar 65 4095 0 last_place) (type_char 65 4095 0 all_zero)
unfolding kernel_set_cursor
kernel_putchar-IsPicture_example =
    kernel_putchar-IsPicture 65 4095 0 last_place all_zero
      (record { row_in = omega arith; col_in = omega arith; shown = refl })
      (record { same_row = refl; same_col = refl; shows = λ r c hr hc. refl })

a_cell : (type_char 65 4095 0 all_zero).cells 28 0 ≡ 0x000fff41
a_cell = refl

put_digits-IsNumeral_example :
    IsNumeral 16 hex_map 0xbeef end nothing (put_digits 32 16 hex_map 0xbeef end nothing)
put_digits-IsNumeral_example =
    put_digits-IsNumeral 16 hex_map 32 0xbeef end nothing (omega arith) (omega arith) (omega arith)

first_digit : (put_digits 32 16 hex_map 0xbeef end nothing).1 71 ≡ 98
unfolding put_digits
first_digit = refl

put_digits_inside_example :
    (buffer ≤ (put_digits 32 2 decimal 2048 end nothing).0) ↔ (2048 < 2 ^ 11)
put_digits_inside_example = put_digits_inside 2 decimal 2048 nothing (omega arith) (omega arith)

-- The twelve binary digits of 2048 begin below the buffer.
binary_below : (put_digits 32 2 decimal 2048 end nothing).0 ≡ 63
unfolding put_digits
binary_below = refl
