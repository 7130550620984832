-- ===== src/Fat/Reading/Places.antt =====
-- Places in a file as a cluster and a byte of it, as kernel/fs/fat/fat.c computes them.
use mini_operating_system.Prelude.{
  ℕ, zero, suc, ◌+◌, ◌-◌, ◌*◌, ◌/◌, ◌%◌, ◌^◌, ◌<◌, ◌≤◌, ◌≡◌, ap, ◌∙◌, bit_and, sub32, arith,
}
use native.Mathlib.Nat.{
  pow-suc, div-add-mod', mod-lt, le-div_iff_mul-le, div-mul-le_self, le_trans, add-mul,
  mul-add-mod_self_right, mod-eq_of_lt,
}
use mini_operating_system.Prelude.Bits.{bit_and-halves, bit_and-bounds, pow_pos, pow-lt}
use mini_operating_system.FsCache.{Device}
use mini_operating_system.Fat.{Bytes, Fs}
use mini_operating_system.Fat.Bytes.{fs_wa}
use mini_operating_system.Fat.Bytes.Log.{fs_wa-pow}
use mini_operating_system.Fat.Reading.{cluster_bytes, cluster_of, byte_of}

-- `x & (2 ^ k - 1)`
bit_and-low : (k x : ℕ) → bit_and x (2 ^ k - 1) ≡ x % 2 ^ k
bit_and-low zero x = omega (arith, (bit_and-bounds x x 0 (omega arith)).1)
bit_and-low (suc k) x =
    let half : (2 ^ suc k - 1) / 2 ≡ 2 ^ k - 1 = omega (arith, pow-suc 2 k, pow_pos k) in
    let rest : bit_and (x / 2) ((2 ^ suc k - 1) / 2) ≡ x / 2 % 2 ^ k =
      rw half (bit_and-low k (x / 2)) in
    let m : ℕ = 2 ^ k in
    let small : x / 2 % m < m = mod-lt (x / 2) (pow_pos k) in
    let parts : x ≡ x / 2 / m * (2 * m) + (x / 2 % m * 2 + x % 2) =
      omega (arith, div-add-mod' (x / 2) m) in
    let rem : x % (2 * m) ≡ x / 2 % m * 2 + x % 2 =
      ap (λ (n : ℕ). n % (2 * m)) parts
      ∙ mul-add-mod_self_right (x / 2 / m) (2 * m) (x / 2 % m * 2 + x % 2)
      ∙ mod-eq_of_lt (omega (arith, small)) in
    let twice : 2 ^ suc k ≡ 2 * m = omega (arith, pow-suc 2 k) in
    omega
      (arith, bit_and-halves x (2 ^ suc k - 1), rest, ap (λ (n : ℕ). x % n) twice, rem, pow_pos k)

-- The clusters between two places, and what is left of the last and the first of them
div_le : (b x y : ℕ) → 0 < b → x ≤ y → x / b ≤ y / b
div_le b x y p h = (le-div_iff_mul-le p).1 (le_trans (div-mul-le_self x b) h)

pub span :
    (b x y : ℕ) → 0 < b → x ≤ y → (x / b ≤ y / b) × ((y / b - x / b) * b + y % b + x ≡ y + x % b)
span b x y p h =
    let le : x / b ≤ y / b = div_le b x y p h in
    let d : ℕ = y / b - x / b in
    let whole : y / b ≡ d + x / b = omega (arith, le) in
    let rows : y / b * b ≡ d * b + x / b * b = ap (λ (n : ℕ). n * b) whole ∙ add-mul d (x / b) b in
    (le, omega (arith, div-add-mod' x b, div-add-mod' y b, rows))

module _ {Disk : Type 0} (dev : ℕ → Device Bytes Disk) (k : ℕ) (small : k < 32) (w : Fs Disk)
    (whole : cluster_bytes dev w ≡ 2 ^ k) where
  pub cluster_of-div : (x : ℕ) → cluster_of dev w x ≡ x / 2 ^ k
  cluster_of-div x =
      ap (λ (n : ℕ). x / 2 ^ fs_wa n) whole ∙ ap (λ (n : ℕ). x / 2 ^ n) (fs_wa-pow k small)

  pub byte_of-mod : (x : ℕ) → byte_of dev w x ≡ x % 2 ^ k
  byte_of-mod x =
      let mask : sub32 (2 ^ k) 1 ≡ 2 ^ k - 1 = omega (arith, pow_pos k, pow-lt k 32 small) in
      ap (λ (n : ℕ). bit_and x (sub32 n 1)) whole ∙ ap (bit_and x) mask ∙ bit_and-low k x
