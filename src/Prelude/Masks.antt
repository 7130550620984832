-- ===== src/Prelude/Masks.antt =====
-- `&` with a mask that leaves all bits from some place on.
use Prim.Native.Nat.{
  ℕ, zero, suc, ◌+◌, ◌-◌, ◌*◌, ◌/◌, ◌^◌, ◌<◌, ◌≤◌, bit_and, bit_or, bit_or-bitwise,
}
use mathlib.Core.Path.{◌≡◌, refl, ap, ◌∙◌, subst}
use native.Mathlib.Nat.{pow-suc}
use native.Mathlib.Omega.{arith}
use mini_operating_system.Prelude.Bits.{bit_and-halves, bit_or-halves, bit_and-bounds, pow_pos}

all_ones : (n x : ℕ) → x < 2 ^ n → bit_and x (2 ^ n - 1) ≡ x
all_ones zero x h = omega (arith, (bit_and-bounds x x 0 (omega arith)).1)
all_ones (suc n) x h =
    let half : (2 ^ suc n - 1) / 2 ≡ 2 ^ n - 1 = omega (arith, pow-suc 2 n, pow_pos n) in
    let rest : bit_and (x / 2) ((2 ^ suc n - 1) / 2) ≡ x / 2 =
      rw half (all_ones n (x / 2) (omega (arith, pow-suc 2 n))) in
    omega (arith, bit_and-halves x (2 ^ suc n - 1), rest, pow-suc 2 n, pow_pos n)

-- `y << k` and `x >> k`, a bit at a time
abbrev doubled : ℕ → ℕ → ℕ
doubled zero y = y
doubled (suc k) y = 2 * doubled k y

abbrev halved : ℕ → ℕ → ℕ
halved zero x = x
halved (suc k) x = halved k (x / 2)

bit_and-doubled : (k x y : ℕ) → bit_and x (doubled k y) ≡ doubled k (bit_and (halved k x) y)
bit_and-doubled zero x y = refl
bit_and-doubled (suc k) x y =
    let even : 2 * doubled k y / 2 ≡ doubled k y = omega arith in
    let rest : bit_and (x / 2) (2 * doubled k y / 2) ≡ doubled k (bit_and (halved k (x / 2)) y) =
      rw even (bit_and-doubled k (x / 2) y) in
    omega (arith, bit_and-halves x (2 * doubled k y), rest)

-- `x & ~0`, `x & ~0xfff` and `x & ~0xf` for words
pub mask_all : (x : ℕ) → x < 2 ^ 32 → bit_and x 0xffffffff ≡ x
mask_all x h = all_ones 32 x h

halved_4 : (x : ℕ) → halved 4 x ≡ x / 16
halved_4 x = let e : x / 2 / 2 / 2 / 2 ≡ x / 16 = omega arith in e

halved_12 : (x : ℕ) → halved 12 x ≡ x / 4096
halved_12 x =
    let e : halved 4 (halved 4 (halved 4 x)) ≡ x / 16 / 16 / 16 =
      rw (halved_4 x, halved_4 (x / 16)) (halved_4 (x / 16 / 16)) in
    let f : x / 16 / 16 / 16 ≡ x / 4096 = omega arith in e ∙ f

pub mask_pages : (x : ℕ) → x < 2 ^ 32 → bit_and x 0xfffff000 ≡ x / 4096 * 4096
mask_pages x h =
    let high : bit_and (halved 12 x) 0xfffff ≡ x / 4096 =
      rw (halved_12 x) (all_ones 20 (x / 4096) (omega arith)) in
    let e : bit_and x 0xfffff000
        ≡ 2 * (2 * (2 * (2 * (2 * (2 * (2 * (2 * (2 * (2 * (2 * (2 * (x / 4096)))))))))))) =
      bit_and-doubled 12 x 0xfffff ∙ ap (doubled 12) high in
    omega (arith, e)

pub mask_blocks : (x : ℕ) → x < 2 ^ 32 → bit_and x 0xfffffff0 ≡ x / 16 * 16
mask_blocks x h =
    let high : bit_and (halved 4 x) 0xfffffff ≡ x / 16 =
      rw (halved_4 x) (all_ones 28 (x / 16) (omega arith)) in
    let e : bit_and x 0xfffffff0 ≡ 2 * (2 * (2 * (2 * (x / 16)))) =
      bit_and-doubled 4 x 0xfffffff ∙ ap (doubled 4) high in
    omega (arith, e)

-- `x | (y << k)` for an `x` of `k` bits
bit_or-doubled : (k x y : ℕ) → x < 2 ^ k → bit_or x (doubled k y) ≡ x + doubled k y
bit_or-doubled zero zero y h = omega (arith, bit_or-bitwise 0 y)
bit_or-doubled zero (suc x) y h = absurd (omega arith)
bit_or-doubled (suc k) x y h =
    let even : 2 * doubled k y / 2 ≡ doubled k y = omega arith in
    let rest : bit_or (x / 2) (2 * doubled k y / 2) ≡ x / 2 + doubled k y =
      rw even (bit_or-doubled k (x / 2) y (omega (arith, pow-suc 2 k))) in
    omega (arith, bit_or-halves x (2 * doubled k y), rest)

doubled_12 : (y : ℕ) → doubled 12 y ≡ 4096 * y
doubled_12 y =
    let e : 2 * (2 * (2 * (2 * (2 * (2 * (2 * (2 * (2 * (2 * (2 * (2 * y))))))))))) ≡ 4096 * y =
      omega arith in
    e

pub bit_or-shift_24 : (x y : ℕ) → x < 2 ^ 24 → bit_or x (y * 2 ^ 24) ≡ x + y * 2 ^ 24
bit_or-shift_24 x y h =
    let e : doubled 12 (doubled 12 y) ≡ y * 2 ^ 24 =
      doubled_12 (doubled 12 y) ∙ omega (arith, doubled_12 y) in
    subst (λ z. bit_or x z ≡ x + z) e (bit_or-doubled 24 x y h)

bit_or-zero : (n y : ℕ) → y ≤ n → bit_or y 0 ≡ y
bit_or-zero n zero h = refl
bit_or-zero zero (suc y) h = absurd (omega arith)
bit_or-zero (suc n) (suc y) h =
    omega (arith, bit_or-halves (suc y) 0, bit_or-zero n (suc y / 2) (omega arith))

bit_or-doubled_left : (k x y : ℕ) → x < 2 ^ k → bit_or (doubled k y) x ≡ doubled k y + x
bit_or-doubled_left zero zero y h = omega (arith, bit_or-zero y y (omega arith))
bit_or-doubled_left zero (suc x) y h = absurd (omega arith)
bit_or-doubled_left (suc k) x y h =
    let even : 2 * doubled k y / 2 ≡ doubled k y = omega arith in
    let rest : bit_or (2 * doubled k y / 2) (x / 2) ≡ doubled k y + x / 2 =
      rw even (bit_or-doubled_left k (x / 2) y (omega (arith, pow-suc 2 k))) in
    omega (arith, bit_or-halves (2 * doubled k y) x, rest)

-- `(x & 0xf0000000) | v` for a `v` of 28 bits
pub bit_or-high_4 :
    (x v : ℕ) → v < 2 ^ 28 → (z : ℕ) × (z < 16) × (bit_or (bit_and x 0xf0000000) v ≡ z * 2 ^ 28 + v)
bit_or-high_4 x v h =
    let z : ℕ = bit_and (halved 28 x) 15 in
    let high : doubled 28 z ≡ z * 2 ^ 28 =
      doubled_12 (doubled 12 (doubled 4 z)) ∙ omega (arith, doubled_12 (doubled 4 z)) in
    let masked : bit_and x 0xf0000000 ≡ doubled 28 z = bit_and-doubled 28 x 15 in
    (
      z,
      omega (arith, (bit_and-bounds (halved 28 x) (halved 28 x) 15 (omega arith)).1),
      ap (λ (m : ℕ). bit_or m v) masked ∙ bit_or-doubled_left 28 v z h ∙ ap (λ (m : ℕ). m + v) high,
    )

-- `x | 0x80000000` for an `x` of 31 bits
pub bit_or-top : (x : ℕ) → x < 2 ^ 31 → bit_or x 0x80000000 ≡ x + 2 ^ 31
bit_or-top x h = bit_or-doubled 31 x 1 h
