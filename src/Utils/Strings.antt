-- ===== src/Utils/Strings.antt =====
-- The string functions of utils/utils.c over a memory of bytes. A string is a pointer; each loop runs
-- to a terminator and has fuel for its rounds, and none says that they were not enough.
use mini_operating_system.Prelude.{
  ℕ, zero, suc, ◌+◌, ◌-◌, ◌*◌, ◌%◌, Bool, Option, none, some, not, ◌&&◌, ◌==◌, if◌then◌else◌,
  update, word, sub32, bit_and,
}
use mini_operating_system.Utils.Memory.{Memory}

-- The index of the first character '0', not of the terminator.
unfoldable pub kernel_strlen : (fuel str index : ℕ) → Memory → Option ℕ
kernel_strlen zero str index mem = none
kernel_strlen (suc fuel) str index mem =
    let rest = kernel_strlen fuel str (index + 1) mem in
    if mem (str + index) == 48 then some index else rest

-- Where the terminator of a string is.
unfoldable pub skip : (fuel p : ℕ) → Memory → Option ℕ
skip zero p mem = none
skip (suc fuel) p mem = let rest = skip fuel (p + 1) mem in if mem p == 0 then some p else rest

-- `while (*dest++ = *src++) ;`, and where `dest` ends
unfoldable pub copy_string : (fuel dest src : ℕ) → Memory → Option (ℕ × Memory)
copy_string zero dest src mem = none
copy_string (suc fuel) dest src mem =
    let copied = update mem dest (mem src) in
    let rest = copy_string fuel (dest + 1) (src + 1) copied in
    if mem src == 0 then some (dest + 1, copied) else rest

unfoldable pub kernel_strcpy : (fuel dest src : ℕ) → Memory → Option (ℕ × Memory)
kernel_strcpy fuel dest src mem = copy_string fuel dest src mem

unfoldable pub kernel_strcat : (fuel dest src : ℕ) → Memory → Option (ℕ × Memory)
kernel_strcat fuel dest src mem = elim (skip fuel dest mem) [
  | none ↦ none
  | some end ↦ elim (copy_string fuel end src mem) [
    | none ↦ none
    | some (_, copied) ↦ some (dest, copied)
  ]
]

-- `while (n && (*cp++ = *src++) != '\0') n--;`: what is left of `n`, and where `cp` ends
unfoldable pub copy_most : (n cp src : ℕ) → Memory → ℕ × ℕ × Memory
copy_most zero cp src mem = (0, cp, mem)
copy_most (suc n) cp src mem =
    let copied = update mem cp (mem src) in
    let rest = copy_most n (cp + 1) (src + 1) copied in
    if mem src == 0 then (suc n, cp + 1, copied) else rest

-- A string of `n` characters is left without a terminator.
unfoldable pub kernel_strncat : (fuel dest src n : ℕ) → Memory → Option (ℕ × Memory)
unfolding copy_most
kernel_strncat fuel dest src n mem = elim (skip fuel dest mem) [
  | none ↦ none
  | some end ↦ let (left, cp, copied) = copy_most n end src mem in some (dest, copied)
]

-- `while (--n) *cp++ = '\0';`, with `n - 1` rounds
unfoldable pub pad : (rounds cp : ℕ) → Memory → Memory
pad zero cp mem = mem
pad (suc rounds) cp mem = pad rounds (cp + 1) (update mem cp 0)

unfoldable pub kernel_strncpy : (dest src n : ℕ) → Memory → ℕ × Memory
unfolding copy_most pad
kernel_strncpy dest src n mem =
    let (left, cp, copied) = copy_most n dest src mem in (dest, pad (left - 1) cp copied)

-- `s` is not null. The value 0 stands for null, and `c` is a character.
unfoldable pub kernel_strchr : (fuel s c : ℕ) → Memory → Option ℕ
kernel_strchr zero s c mem = none
kernel_strchr (suc fuel) s c mem =
    let rest = kernel_strchr fuel (s + 1) c mem in
    if mem s == 0 then some 0 else if mem s == c then some s else rest

unfoldable pub strrchr_loop : (fuel s c p_char : ℕ) → Memory → Option ℕ
strrchr_loop zero s c p_char mem = none
strrchr_loop (suc fuel) s c p_char mem =
    let rest = strrchr_loop fuel (s + 1) c (if mem s == c then s else p_char) mem in
    if mem s == 0 then some p_char else rest

unfoldable pub kernel_strrchr : (fuel s c : ℕ) → Memory → Option ℕ
kernel_strrchr fuel s c mem = strrchr_loop fuel s c 0 mem

-- The inner loop of `kernel_strspn` and `kernel_strpbrk`: the string at `a` has the character.
unfoldable pub among : (fuel a c : ℕ) → Memory → Option Bool
among fuel a c mem = elim (kernel_strchr fuel a c mem) [
  | none ↦ none
  | some p ↦ some (not (p == 0))
]

unfoldable pub kernel_strspn : (fuel p str2 count : ℕ) → Memory → Option ℕ
unfolding among
kernel_strspn zero p str2 count mem = none
kernel_strspn (suc fuel) p str2 count mem =
    let rest = kernel_strspn fuel (p + 1) str2 (count + 1) mem in
    let found = among (suc fuel) str2 (mem p) mem in
    if mem p == 0
    then some count
    else elim found [ none ↦ none | some b ↦ if b then rest else some count ]

unfoldable pub kernel_strpbrk : (fuel str1 str2 : ℕ) → Memory → Option ℕ
unfolding among
kernel_strpbrk zero str1 str2 mem = none
kernel_strpbrk (suc fuel) str1 str2 mem =
    let rest = kernel_strpbrk fuel (str1 + 1) str2 mem in
    let found = among (suc fuel) str2 (mem str1) mem in
    if mem str1 == 0
    then some 0
    else elim found [ none ↦ none | some b ↦ if b then some str1 else rest ]

-- The two characters where the strings end or first differ. The C function returns the first less
-- the second, as signed characters: 0 just if they are the same.
unfoldable pub kernel_strcmp : (fuel dest src : ℕ) → Memory → Option (ℕ × ℕ)
kernel_strcmp zero dest src mem = none
kernel_strcmp (suc fuel) dest src mem =
    let rest = kernel_strcmp fuel (dest + 1) (src + 1) mem in
    if mem dest == mem src && not (mem dest == 0) then rest else some (mem dest, mem src)

-- The power of an exponent that is not negative, as the word that the product leaves.
unfoldable pub pow_loop : (z ret x : ℕ) → ℕ
pow_loop zero ret x = ret
pow_loop (suc z) ret x = pow_loop z (ret * x % word) x

unfoldable pub pow : (x z : ℕ) → ℕ
unfolding pow_loop
pow x z = pow_loop z 1 x

-- `!(val & (bound - 1))`
unfoldable pub is_bound : (val bound : ℕ) → Bool
is_bound val bound = bit_and val (sub32 bound 1) == 0

-- The words at `dest` and after it, one for each place; the address after the last.
unfoldable pub kernel_memset_word : (dest w len : ℕ) → Memory → ℕ × Memory
kernel_memset_word dest w zero mem = (dest, mem)
kernel_memset_word dest w (suc len) mem = kernel_memset_word (dest + 4) w len (update mem dest w)
