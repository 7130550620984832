-- ===== src/Vga/Digits.antt =====
-- The digits that the numbers of kernel/driver/vga.c have in their buffers.
use mini_operating_system.Prelude.{
  ℕ, zero, suc, ◌+◌, ◌-◌, ◌*◌, ◌/◌, ◌%◌, ◌^◌, ◌<◌, ◌≤◌, ◌≡◌, ◌≢◌, ◌↔◌, ◌⊎◌, refl, sym, ap, subst,
  ◌∙◌, inr, ◌==◌, update, update_eq, update_ne, arith, if-cases,
}
use native.Mathlib.Nat.{
  pow-le-pow_right, pow-zero, pow-suc, mul-le-mul_left, div-div-eq-div-mul, div-lt_iff_lt-mul,
  div-one,
}
use mini_operating_system.Utils.Memory.{Memory}
use mini_operating_system.Vga.Numbers.{put_digits, buffer, end}

module _ (radix : ℕ) (digit : ℕ → ℕ) where
  -- The digits of `x` in front of `ptr`: digit `j` from the right is that of the `j`-th power.
  pub record IsNumeral (x ptr : ℕ) (mem : Memory) (r : ℕ × Memory) : Type 0 where
    pub count : ℕ
    pub first : r.0 + count ≡ ptr
    pub fits : x < radix ^ count
    pub needed : (n : ℕ) → x < radix ^ n → count ≤ n
    pub digits : (j : ℕ) → j < count → r.1 (ptr - 1 - j) ≡ digit (x / radix ^ j % radix)
    pub others : (a : ℕ) → a < r.0 ⊎ ptr ≤ a → r.1 a ≡ mem a

  one : radix ^ 0 ≡ 1
  one = pow-zero radix

  none-IsNumeral : (ptr : ℕ) (mem : Memory) → IsNumeral 0 ptr mem (ptr, mem)
  none-IsNumeral ptr mem = record {
    count = 0;
    first = omega arith;
    fits = omega (arith, one);
    needed = λ n h. omega arith;
    digits = λ j h. absurd (omega (arith, h));
    others = λ a h. refl;
  }

  shrinks : (x n : ℕ) → 0 < radix → x < radix ^ suc n → x / radix < radix ^ n
  shrinks x n p h = (div-lt_iff_lt-mul p).1 (omega (arith, h, pow-suc radix n))

  grows : (x n : ℕ) → 0 < radix → x / radix < radix ^ n → x < radix ^ suc n
  grows x n p h = omega (arith, (div-lt_iff_lt-mul p).0 h, pow-suc radix n)

  more-IsNumeral :
      (x ptr : ℕ) (mem : Memory) (r : ℕ × Memory)
      → 0 < radix
      → 0 < x
      → 0 < ptr
      → IsNumeral (x / radix) (ptr - 1) (update mem (ptr - 1) (digit (x % radix))) r
      → IsNumeral x ptr mem r
  more-IsNumeral x ptr mem r p q s l = record {
    count = suc l.count;
    first = omega (arith, l.first);
    fits = grows x l.count p l.fits;
    needed = least;
    digits = digits;
    others = λ a far.
        (let apart : a ≢ ptr - 1 = omega (arith, far, l.first) in
          l.others a (omega (arith, far))
          ∙ update_ne mem (ptr - 1) (digit (x % radix)) a (ground (arith, apart)));
  }
    where
      least : (n : ℕ) → x < radix ^ n → suc l.count ≤ n
      least zero h = absurd (omega (arith, h, q, one))
      least (suc n) h = omega (arith, l.needed n (shrinks x n p h))

      digits : (j : ℕ) → j < suc l.count → r.1 (ptr - 1 - j) ≡ digit (x / radix ^ j % radix)
      digits zero h =
          l.others (ptr - 1 - 0) (inr (omega arith))
          ∙ update_eq mem (ptr - 1) (digit (x % radix)) (ptr - 1 - 0) (omega arith)
          ∙ ap (λ n. digit (n % radix)) (sym (ap (λ (n : ℕ). x / n) one ∙ div-one x))
      digits (suc j) h =
          let place : ptr - 1 - suc j ≡ ptr - 1 - 1 - j = omega arith in
          ap r.1 place
          ∙ l.digits j (omega (arith, h))
          ∙ ap (λ n. digit (n % radix))
              (div-div-eq-div-mul x radix (radix ^ j)
                ∙ ap (λ (n : ℕ). x / n) (omega (arith, pow-suc radix j)))

  div_small_step : (x n : ℕ) → 2 ≤ radix → x < 2 ^ suc n → x / radix < 2 ^ n
  div_small_step x n p h =
      let less : 2 ^ n * 2 ≤ 2 ^ n * radix = mul-le-mul_left (2 ^ n) p in
      (div-lt_iff_lt-mul (omega (arith, p))).1 (omega (arith, h, less, pow-suc 2 n))

  -- From a radix of at least 2, a number of no more than `rounds` bits, and room for as many characters
  -- in front of `ptr`: the loop leaves the digits of the number in front of `ptr`, as few as it can be
  -- written with, and no digit for 0; what stands in front of them or from `ptr` on does not change.
  pub put_digits-IsNumeral :
      (rounds x ptr : ℕ) (mem : Memory)
      → 2 ≤ radix
      → x < 2 ^ rounds
      → rounds ≤ ptr
      → IsNumeral x ptr mem (put_digits rounds radix digit x ptr mem)
  unfolding put_digits
  put_digits-IsNumeral zero x ptr mem p h r =
      subst (λ n. IsNumeral n ptr mem (ptr, mem)) (let e : 0 ≡ x = omega (arith, h) in e)
        (none-IsNumeral ptr mem)
  put_digits-IsNumeral (suc rounds) x ptr mem p h r =
      if-cases (IsNumeral x ptr mem) (x == 0)
        (λ e.
          subst (λ n. IsNumeral n ptr mem (ptr, mem)) (let f : 0 ≡ x = ground (arith, e) in f)
            (none-IsNumeral ptr mem))
        (λ e.
          let q : 0 < x = ground (arith, e) in
          more-IsNumeral x ptr mem _ (omega (arith, p)) q (omega (arith, r)) (
            put_digits-IsNumeral rounds (x / radix) (ptr - 1) _ p (div_small_step x rounds p h)
              (omega (arith, r))))

  -- For a word and a radix of at least 2: the digits stay inside the buffer of twelve characters exactly
  -- if the number is below the eleventh power of the radix. That is so for every word in octal, decimal
  -- and hexadecimal digits, but not in binary ones.
  pub put_digits_inside :
      (x : ℕ) (mem : Memory)
      → 2 ≤ radix
      → x < 2 ^ 32
      → (buffer ≤ (put_digits 32 radix digit x end mem).0) ↔ (x < radix ^ 11)
  put_digits_inside x mem p h =
      let l = put_digits-IsNumeral 32 x end mem p h (omega arith) in
      (
        λ inside.
            (let few : l.count ≤ 11 = omega (arith, inside, l.first) in
              let most : radix ^ l.count ≤ radix ^ 11 =
                pow-le-pow_right (let e : 0 < radix = omega (arith, p) in e) few in
              omega (arith, l.fits, most)),
        λ small. omega (arith, l.needed 11 small, l.first),
      )
