-- ===== src/Utils/Tests.antt =====
-- utils/utils.c at concrete inputs.
use mini_operating_system.Utils.Strings.{kernel_strlen, kernel_strcmp, kernel_strcpy}
use mini_operating_system.Utils.Text.{IsText, Compared, kernel_strcmp-Compared, kernel_strcpy_lem}
use mini_operating_system.Prelude.{
  some, ◌==◌, ◌||◌, [], ◌∷◌, inr, ◌+◌, ◌-◌, ◌≡◌, refl, if◌then◌else◌, inl, arith,
}
use mini_operating_system.Utils.Memory.{
  Memory, kernel_memcpy, kernel_memmove, copy_down, within, kernel_memmove_lem, kernel_memcpy_lem,
}

-- The byte at each address is the address. Areas that overlap are moved from the end down.
overlap : kernel_memmove 12 10 4 (λ a. a) 14 ≡ 12
unfolding kernel_memmove kernel_memcpy copy_down
overlap = refl

kernel_memmove_example :
    kernel_memmove 12 10 4 (λ a. a) 14 ≡ (if within 12 4 14 then 10 + (14 - 12) else 14)
kernel_memmove_example = kernel_memmove_lem 12 10 4 (λ a. a) 14

kernel_memcpy_example : kernel_memcpy 8 10 4 (λ a. a) 9 ≡ (if within 8 4 9 then 10 + (9 - 8) else 9)
kernel_memcpy_example = kernel_memcpy_lem 8 10 4 (λ a. a) 9 (inl (omega arith))

-- "ab" at 10, "ac" at 20 and "a0" at 30, each with its terminator; other bytes are 0.
abbrev texts : Memory
texts a =
    if a == 10 || a == 20 || a == 30
    then 97
    else if a == 11
    then 98
    else if a == 21
    then 99
    else if a == 31
    then 48
    else 0

ab : IsText texts 10 (97 ∷ 98 ∷ [])
ab = (refl, (λ e. omega (arith, e)), (refl, (λ e. omega (arith, e)), refl))

ac : IsText texts 20 (97 ∷ 99 ∷ [])
ac = (refl, (λ e. omega (arith, e)), (refl, (λ e. omega (arith, e)), refl))

-- The value is 21 for "ab", where the next '0' is, and 1 for "a0".
no_digit : (kernel_strlen 40 10 0 texts ≡ some 21) × (kernel_strlen 40 30 0 texts ≡ some 1)
unfolding kernel_strlen
no_digit = (refl, refl)

kernel_strcmp-Compared_example :
    Compared (97 ∷ 98 ∷ []) (97 ∷ 99 ∷ []) (kernel_strcmp 5 10 20 texts)
kernel_strcmp-Compared_example =
    kernel_strcmp-Compared 5 10 20 texts (97 ∷ 98 ∷ []) (97 ∷ 99 ∷ []) ab ac (omega arith)

kernel_strcpy_example : kernel_strcpy 5 40 10 texts ≡ some (40 + 3, kernel_memcpy 40 10 3 texts)
kernel_strcpy_example =
    kernel_strcpy_lem 5 40 10 texts (97 ∷ 98 ∷ []) ab (inr (omega arith)) (omega arith)

at_19 : kernel_strlen 40 12 0 texts ≡ some 19
unfolding kernel_strlen
at_19 = refl
