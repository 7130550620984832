-- ===== src/Fat/Bytes/Log.antt =====
-- `fs_wa` of kernel/fs/fat/utils.c is the logarithm.
use mini_operating_system.Prelude.{
  ℕ, zero, suc, ◌+◌, ◌*◌, ◌/◌, ◌^◌, ◌<◌, ◌≤◌, ◌≡◌, ap, ◌∙◌, refl, some, inl, inr, ltb, arith,
  Bool-cases,
}
use mini_operating_system.Prelude.Bits.{pow-lt, pow_pos}
use native.Mathlib.Nat.{pow-suc}
use mini_operating_system.Fat.Bytes.{bits_of, wa_loop, fs_wa}

-- `i` is the position of the highest bit of `num`, from `start` on.
record IsLog (num start i : ℕ) : Type 0 where
  bits : ℕ
  counted : i ≡ start + bits
  low : 2 ^ bits ≤ num
  high : num < 2 * 2 ^ bits

double-IsLog : (num start i : ℕ) → 2 ≤ num → IsLog (num / 2) (start + 1) i → IsLog num start i
double-IsLog num start i h l = record {
  bits = suc l.bits;
  counted = omega (arith, l.counted);
  low = omega (arith, l.low, pow-suc 2 l.bits);
  high = omega (arith, l.high, pow-suc 2 l.bits);
}

loop-IsLog :
    (fuel num i : ℕ)
    → 0 < num
    → num < 2 ^ fuel
    → (k : ℕ) × (wa_loop fuel num i ≡ some k) × IsLog num i k
unfolding wa_loop
loop-IsLog zero num i p h = absurd (omega arith)
loop-IsLog (suc fuel) num i p h = elim (Bool-cases (ltb 1 num)) [
  | inl more ↦
      let (k, e, l) =
        loop-IsLog fuel (num / 2) (i + 1) (ground arith) (ground (arith, pow-suc 2 fuel)) in
      (k, rw more e, double-IsLog num i k (ground arith) l)
  | inr last ↦ (
    i,
    rw last refl,
    record { bits = 0; counted = omega arith; low = omega arith; high = ground arith },
  )
]

fs_wa-some : (num k : ℕ) → wa_loop 32 num 0 ≡ some k → fs_wa num ≡ k
unfolding fs_wa
fs_wa-some num k e = ap bits_of e

-- The loop of `fs_wa` ends within the 32 rounds for every word but 0, and gives the position of the
-- highest bit.
pub fs_wa-log :
    (num : ℕ)
    → 0 < num
    → num < 2 ^ 32
    → (wa_loop 32 num 0 ≡ some (fs_wa num)) × (2 ^ fs_wa num ≤ num) × (num < 2 * 2 ^ fs_wa num)
fs_wa-log num p h =
    let (k, e, l) = loop-IsLog 32 num 0 p h in
    let same : k ≡ l.bits = omega (arith, l.counted) in
    let value : fs_wa num ≡ l.bits = fs_wa-some num k e ∙ same in
    rw value (e ∙ ap some same, l.low, l.high)

-- The logarithm of a power of 2.
pub fs_wa-pow : (k : ℕ) → k < 32 → fs_wa (2 ^ k) ≡ k
fs_wa-pow k h =
    let (_, low, high) = fs_wa-log (2 ^ k) (pow_pos k) (pow-lt k 32 h) in
    elim (Bool-cases (ltb k (fs_wa (2 ^ k)))) [
      | inl e ↦ absurd (ground (arith, low, pow-lt k (fs_wa (2 ^ k))))
      | inr e ↦ elim (Bool-cases (ltb (fs_wa (2 ^ k)) k)) [
        | inl f ↦
            let m = pow-lt (suc (fs_wa (2 ^ k))) k in
            absurd (ground (arith, high, pow-suc 2 (fs_wa (2 ^ k)), m))
        | inr f ↦ ground arith
      ]
    ]
