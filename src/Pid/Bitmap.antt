-- ===== src/Pid/Bitmap.antt =====
-- The bitmap of pid.c as a set of used pids: what each bit operation does to every pid.
use mini_operating_system.Prelude.{
  ℕ, ◌/◌, ◌%◌, ◌<◌, ◌≡◌, ◌∙◌, inl, inr, Bool, true, Bool-cases, ==_iff, false, arith, bit_and,
  bit_or, ◌==◌, if◌then◌else◌, word, length, get_or, set, length-set, get_or-set_self,
  get_or-set_ne,
}
use mini_operating_system.Prelude.Bits.{
  bit, bit_not, bit-bit_and, bit-bit_or, bit-bit_not, bit-lt, bit-pow, pow_pos, pow-lt, bit_and-pow,
  bit_and-le, bit_or-lt,
}
use mini_operating_system.Pid.{Page, bits_per_page, mask, word_at, test_and_set_bit, clear_bit}

-- A pid is in use when its bit is set.
abbrev pub used : Page → ℕ → Bool
used page pid = bit (word_at page pid) (pid % 32) == 1

-- 1024 words of 32 bits
pub record IsPage (page : Page) : Type 0 where
  pub size : length page ≡ 1024
  pub fits : (i : ℕ) → get_or page i 0 < word

mask-lt : (pid : ℕ) → mask pid < word
mask-lt pid = pow-lt (pid % 32) 32 (omega arith)

module _ {page : Page} (v : IsPage page) where
  -- A write of one word, seen bit by bit.
  used-set :
      (p w q : ℕ)
      → p < bits_per_page
      → used (set page (p / 32) w) q
        ≡ (if q / 32 == p / 32 then bit w (q % 32) == 1 else used page q)
  used-set p w q h = elim (Bool-cases (q / 32 == p / 32)) [
    | inl e ↦
        let same : q / 32 ≡ p / 32 = (==_iff _ _).0 e in
        rw (e, same, get_or-set_self page (p / 32) w 0 (omega (arith, v.size)))
    | inr e ↦ rw (e, get_or-set_ne page (p / 32) (q / 32) w 0 (ground arith))
  ]

  pub set-IsPage : (i w : ℕ) → i < 1024 → w < word → IsPage (set page i w)
  set-IsPage i w hi hw = record {
    size = length-set page i w ∙ v.size;
    fits = λ j. elim (Bool-cases (i == j)) [
      | inl e ↦ rw (← (==_iff i j).0 e, get_or-set_self page i w 0 (omega (arith, v.size))) hw
      | inr e ↦ rw (get_or-set_ne page i j w 0 (ground arith)) (v.fits j)
    ];
  }

  module _ (p : ℕ) (h : p < bits_per_page) where
    pub used-test_and_set_bit :
        (q : ℕ) → used (test_and_set_bit p page).1 q ≡ (if q == p then true else used page q)
    unfolding test_and_set_bit
    used-test_and_set_bit q = ground (
      arith,
      used-set p (bit_or (word_at page p) (mask p)) q h,
      bit-bit_or (q % 32) (word_at page p) (mask p),
      bit-pow (p % 32) (q % 32),
      bit-lt (word_at page p) (q % 32),
    )

    pub test_and_set_bit-eq_used : (test_and_set_bit p page).0 ≡ used page p
    unfolding test_and_set_bit
    test_and_set_bit-eq_used = ground (
      arith,
      bit_and-pow (p % 32) (word_at page p),
      bit-lt (word_at page p) (p % 32),
      pow_pos (p % 32),
    )

    pub test_and_set_bit-IsPage : IsPage (test_and_set_bit p page).1
    unfolding test_and_set_bit
    test_and_set_bit-IsPage =
        set-IsPage (p / 32) _ (omega arith) (bit_or-lt 32 _ _ (v.fits (p / 32)) (mask-lt p))

    pub used-clear_bit :
        (q : ℕ) → used (clear_bit p page) q ≡ (if q == p then false else used page q)
    unfolding clear_bit
    used-clear_bit q = ground (
      arith,
      used-set p (bit_and (word_at page p) (bit_not 32 (mask p))) q h,
      bit-bit_and (q % 32) (word_at page p) (bit_not 32 (mask p)),
      bit-bit_not 32 (mask p) (q % 32) (mask-lt p),
      bit-pow (p % 32) (q % 32),
      bit-lt (word_at page p) (q % 32),
    )

    pub clear_bit-IsPage : IsPage (clear_bit p page)
    unfolding clear_bit
    clear_bit-IsPage = set-IsPage (p / 32) _ (omega arith) (
        omega (
          arith,
          bit_and-le (word_at page p) (word_at page p) (bit_not 32 (mask p)),
          v.fits (p / 32),
        ))
