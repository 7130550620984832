-- ===== src/Prelude/Bits.antt =====
-- The bits of a number, and what `|`, `&` and `~` do to them.
use Prim.Native.Nat.{
  ℕ, zero, suc, ◌+◌, ◌-◌, ◌*◌, ◌/◌, ◌%◌, ◌^◌, ◌≤◌, ◌<◌, min, max, bit_and, bit_or, digits,
  bit_and-bitwise, bit_or-bitwise,
}
use mathlib.Core.Path.{◌≡◌, refl, ap, ◌∙◌}
use native.Mathlib.Nat.{pow-suc}
use native.Mathlib.Omega.{arith}
use mini_operating_system.Prelude.Tests.{◌==◌, if◌then◌else◌}

-- Bit `k` of `x`.
abbrev pub bit : ℕ → ℕ → ℕ
bit x zero = x % 2
bit x (suc k) = bit (x / 2) k

-- `~x` of `n` bits
abbrev pub bit_not : ℕ → ℕ → ℕ
bit_not n x = 2 ^ n - 1 - x

-- The native operations stand for a recursion on fuel; a step more than enough changes nothing.
module _ (base : ℕ → ℕ) (op : ℕ → ℕ → ℕ) where
  one_more : (fuel a b : ℕ) → a ≤ fuel → digits base op (suc fuel) a b ≡ digits base op fuel a b
  one_more zero zero b h = refl
  one_more zero (suc a) b h = absurd (omega arith)
  one_more (suc fuel) zero b h = refl
  one_more (suc fuel) (suc a) b h =
      ap (λ rest. rest * 2 + op (suc a % 2) (b % 2))
        (one_more fuel (suc a / 2) (b / 2) (omega arith))

  any_more :
      (extra fuel a b : ℕ) → fuel ≡ extra + a → digits base op fuel a b ≡ digits base op a a b
  any_more zero fuel a b h = ap (λ n. digits base op n a b) (omega arith)
  any_more (suc extra) zero a b h = absurd (omega arith)
  any_more (suc extra) (suc fuel) a b h =
      one_more fuel a b (omega arith) ∙ any_more extra fuel a b (omega arith)

  digits_step :
      (a b : ℕ)
      → digits base op (suc a) (suc a) b
        ≡ digits base op (suc a / 2) (suc a / 2) (b / 2) * 2 + op (suc a % 2) (b % 2)
  digits_step a b =
      ap (λ rest. rest * 2 + op (suc a % 2) (b % 2))
        (any_more (a - suc a / 2) a (suc a / 2) (b / 2) (omega arith))

pub bit_and-halves : (a b : ℕ) → bit_and a b ≡ bit_and (a / 2) (b / 2) * 2 + min (a % 2) (b % 2)
bit_and-halves zero b = omega (arith, bit_and-bitwise 0 b, bit_and-bitwise 0 (b / 2))
bit_and-halves (suc a) b = omega (
  arith,
  bit_and-bitwise (suc a) b,
  bit_and-bitwise (suc a / 2) (b / 2),
  digits_step (λ _. zero) min a b,
)

pub bit_or-halves : (a b : ℕ) → bit_or a b ≡ bit_or (a / 2) (b / 2) * 2 + max (a % 2) (b % 2)
bit_or-halves zero b = omega (arith, bit_or-bitwise 0 b, bit_or-bitwise 0 (b / 2))
bit_or-halves (suc a) b = omega (
  arith,
  bit_or-bitwise (suc a) b,
  bit_or-bitwise (suc a / 2) (b / 2),
  digits_step (λ x. x) max a b,
)

pub bit-bit_and : (k a b : ℕ) → bit (bit_and a b) k ≡ min (bit a k) (bit b k)
bit-bit_and zero a b = omega (arith, bit_and-halves a b)
bit-bit_and (suc k) a b =
    let e : bit_and a b / 2 ≡ bit_and (a / 2) (b / 2) = omega (arith, bit_and-halves a b) in
    rw e (bit-bit_and k (a / 2) (b / 2))

pub bit-bit_or : (k a b : ℕ) → bit (bit_or a b) k ≡ max (bit a k) (bit b k)
bit-bit_or zero a b = omega (arith, bit_or-halves a b)
bit-bit_or (suc k) a b =
    let e : bit_or a b / 2 ≡ bit_or (a / 2) (b / 2) = omega (arith, bit_or-halves a b) in
    rw e (bit-bit_or k (a / 2) (b / 2))

pub bit-lt : (x k : ℕ) → bit x k < 2
bit-lt x zero = omega arith
bit-lt x (suc k) = bit-lt (x / 2) k

pub bit-zero : (k : ℕ) → bit 0 k ≡ 0
bit-zero zero = refl
bit-zero (suc k) = bit-zero k

double_half : (n : ℕ) → 2 ^ suc n / 2 ≡ 2 ^ n
double_half n = omega (arith, pow-suc 2 n)

double_even : (n : ℕ) → 2 ^ suc n % 2 ≡ 0
double_even n = omega (arith, pow-suc 2 n)

-- `1 << n` has the bit `n` alone.
pub bit-pow : (n k : ℕ) → bit (2 ^ n) k ≡ (if k == n then 1 else 0)
bit-pow zero zero = refl
bit-pow zero (suc k) = ground (arith, bit-zero k)
bit-pow (suc n) zero = ground (arith, double_even n)
bit-pow (suc n) (suc k) = rw (double_half n) (ground (arith, bit-pow n k))

pub pow_pos : (n : ℕ) → 0 < 2 ^ n
pow_pos zero = omega arith
pow_pos (suc n) = omega (arith, pow-suc 2 n, pow_pos n)

pub bit-bit_not : (n x k : ℕ) → x < 2 ^ n → k < n → bit (bit_not n x) k ≡ 1 - bit x k
bit-bit_not zero x k h l = elim l [ ]
bit-bit_not (suc n) x zero h l = omega (arith, pow-suc 2 n, pow_pos n)
bit-bit_not (suc n) x (suc k) h l =
    let e : bit_not (suc n) x / 2 ≡ bit_not n (x / 2) = omega (arith, pow-suc 2 n, pow_pos n) in
    rw e (bit-bit_not n (x / 2) k (omega (arith, pow-suc 2 n)) (omega arith))

pub bit_and-bounds : (n a b : ℕ) → a ≤ n → (bit_and a b ≤ a) × (bit_and a b ≤ b)
bit_and-bounds n zero b h = (omega (arith, bit_and-bitwise 0 b), omega (arith, bit_and-bitwise 0 b))
bit_and-bounds zero (suc a) b h = absurd (omega arith)
bit_and-bounds (suc n) (suc a) b h =
    let (by_a, by_b) = bit_and-bounds n (suc a / 2) (b / 2) (omega arith) in
    (omega (arith, bit_and-halves (suc a) b, by_a), omega (arith, bit_and-halves (suc a) b, by_b))

-- `x & (1 << k)`
pub bit_and-pow : (k x : ℕ) → bit_and x (2 ^ k) ≡ bit x k * 2 ^ k
bit_and-pow zero x =
    omega (arith, bit_and-halves x 1, (bit_and-bounds (x / 2) (x / 2) 0 (omega arith)).1)
bit_and-pow (suc k) x =
    let e : bit_and (x / 2) (2 ^ suc k / 2) ≡ bit (x / 2) k * 2 ^ k =
      rw (double_half k) (bit_and-pow k (x / 2)) in
    omega (
      arith,
      bit_and-halves x (2 ^ suc k),
      double_even k,
      ap (λ (t : ℕ). bit (x / 2) k * t) (pow-suc 2 k),
    )

pub bit_and-le : (n a b : ℕ) → a ≤ n → bit_and a b ≤ a
bit_and-le n a b h = (bit_and-bounds n a b h).0

pub bit_or-lt : (n a b : ℕ) → a < 2 ^ n → b < 2 ^ n → bit_or a b < 2 ^ n
bit_or-lt zero zero zero p q = omega arith
bit_or-lt zero zero (suc b) p q = absurd (omega arith)
bit_or-lt zero (suc a) b p q = absurd (omega arith)
bit_or-lt (suc n) a b p q = omega (
  arith,
  pow-suc 2 n,
  bit_or-halves a b,
  bit_or-lt n (a / 2) (b / 2) (omega (arith, pow-suc 2 n)) (omega (arith, pow-suc 2 n)),
)

pub pow-lt : (a b : ℕ) → a < b → 2 ^ a < 2 ^ b
pow-lt zero zero h = elim h [ ]
pow-lt zero (suc b) h = omega (arith, pow-suc 2 b, pow_pos b)
pow-lt (suc a) zero h = elim h [ ]
pow-lt (suc a) (suc b) h = omega (arith, pow-suc 2 a, pow-suc 2 b, pow-lt a b (omega arith))
