-- ===== src/Pid/Alloc.antt =====
-- What `alloc_pidmap` and `free_pidmap` of pid.c do to the set of used pids.
use mini_operating_system.Prelude.{
  ℕ, zero, suc, ◌+◌, ◌-◌, ◌/◌, ◌%◌, ◌^◌, ◌≤◌, ◌<◌, ◌≡◌, refl, subst, sym, ◌∙◌, ◌≢◌, inl, inr, true,
  false, arith, bit_and, ◌==◌, if◌then◌else◌, word, sub32, ℤ, pos, negsuc, minus_one, succ_ℤ,
  low_bits, Bool-cases, ==_iff, ◌⊎◌,
}
use mathlib.Core.Bool.{false≢true}
use mini_operating_system.Prelude.Bits.{bit_not, bit-bit_not, bit-lt, bit_and-pow, pow_pos}
use mini_operating_system.Pid.{
  Page, PidMap, bits_per_page, mask, word_at, test_and_set_bit, find_zero_bit_loop,
  find_next_zero_bit, alloc_pidmap, free_pidmap,
}
use mini_operating_system.Pid.Bitmap.{
  used, IsPage, used-test_and_set_bit, test_and_set_bit-eq_used, test_and_set_bit-IsPage,
  used-clear_bit, clear_bit-IsPage,
}

-- Every pid from `lo` up to `hi` is in use.
abbrev pub AllUsed : Page → ℕ → ℕ → Type 0
AllUsed page lo hi = (q : ℕ) → lo ≤ q → q < hi → used page q ≡ true

-- `r` is the first free pid from `lo` up, or `hi` when all below `hi` are in use.
abbrev pub IsFirstFree : Page → ℕ → ℕ → ℕ → Type 0
IsFirstFree page lo hi r = (lo ≤ r) × (r ≤ hi) × AllUsed page lo r × (r < hi → used page r ≡ false)

module _ {page : Page} (v : IsPage page) where
  -- The test of the loop.
  zero_bit_test : (p : ℕ) → (bit_and (bit_not 32 (word_at page p)) (mask p) == 0) ≡ used page p
  zero_bit_test p = ground (
    arith,
    bit_and-pow (p % 32) (bit_not 32 (word_at page p)),
    bit-bit_not 32 (word_at page p) (p % 32) (v.fits (p / 32)),
    bit-lt (word_at page p) (p % 32),
    pow_pos (p % 32),
  )

  find_zero_bit_loop-first :
      (rounds lo : ℕ) → IsFirstFree page lo (lo + rounds) (find_zero_bit_loop page rounds lo)
  unfolding find_zero_bit_loop
  find_zero_bit_loop-first zero lo =
      (omega arith, omega arith, λ q a b. absurd (omega arith), λ h. absurd (omega arith))
  find_zero_bit_loop-first (suc n) lo =
      let ih = find_zero_bit_loop-first n (lo + 1) in
      elim (Bool-cases (used page lo)) [
        | inl taken ↦
            rw (zero_bit_test lo, taken)
              (
                omega (arith, ih.0),
                omega (arith, ih.1),
                λ q a b. elim (Bool-cases (q == lo)) [
                  | inl e ↦ rw ((==_iff q lo).0 e) taken
                  | inr e ↦ ih.2 q (ground arith) b
                ],
                λ h. ih.3 (omega arith),
              )
        | inr open_ ↦
            rw (zero_bit_test lo, open_)
              (omega arith, omega arith, λ q a b. absurd (omega arith), λ h. open_)
      ]

  -- For a start at most `size`, `find_next_zero_bit` returns a number from the start up to `size`
  -- such that every pid before it is in use and, if it is below `size`, it is itself free.
  pub find_next_zero_bit-IsFirstFree :
      (size lo : ℕ) → lo ≤ size → IsFirstFree page lo size (find_next_zero_bit page size lo)
  unfolding find_next_zero_bit
  find_next_zero_bit-IsFirstFree size lo h =
      let e : lo + (size - lo) ≡ size = omega arith in
      subst (λ hi. IsFirstFree page lo hi (find_zero_bit_loop page (size - lo) lo)) e
        (find_zero_bit_loop-first (size - lo) lo)

-- Where the next search begins.
abbrev pub start_of : PidMap → ℕ
start_of m = low_bits (succ_ℤ m.last_pid) 15

-- The map is well formed: `nr_free` is an `unsigned int`, the page one page of words.
pub record IsMap (m : PidMap) : Type 0 where
  pub page_ok : IsPage m.page
  pub count_ok : m.nr_free < word

start-lt : (z : ℤ) → low_bits z 15 < bits_per_page
start-lt (pos n) = omega arith
start-lt (negsuc n) = omega arith

-- What a successful allocation has done.
pub record Allocates (m : PidMap) (p : ℕ) (n : PidMap) : Type 0 where
  pub in_range : p < bits_per_page
  pub was_free : used m.page p ≡ false
  pub first : (start_of m ≤ p) × AllUsed m.page (start_of m) p
  pub now_used : (q : ℕ) → used n.page q ≡ (if q == p then true else used m.page q)
  pub counted : n.nr_free + 1 ≡ m.nr_free
  pub remembered : n.last_pid ≡ pos p
  pub still_map : IsMap n

pub data Outcome (m : PidMap) : ℤ × PidMap → Type 0 where
  allocated : {p : ℕ} {n : PidMap} → Allocates m p n → Outcome m (pos p, n)
  refused : (m.nr_free ≡ 0) ⊎ AllUsed m.page (start_of m) bits_per_page → Outcome m (minus_one, m)

module _ {m : PidMap} (v : IsMap m) where
  alloc_found :
      (p : ℕ)
      → m.nr_free ≢ 0
      → p < bits_per_page
      → IsFirstFree m.page (start_of m) bits_per_page p
      → Allocates m p (record m {
        nr_free = sub32 m.nr_free 1;
        page = (test_and_set_bit p m.page).1;
        last_pid = pos p;
      })
  alloc_found p some_free lt found = record {
    in_range = lt;
    was_free = found.3 lt;
    first = (found.0, found.2);
    now_used = used-test_and_set_bit v.page_ok p lt;
    counted = omega (arith, v.count_ok);
    remembered = refl;
    still_map = record { page_ok = test_and_set_bit-IsPage v.page_ok p lt; count_ok = omega arith };
  }

  -- On a well-formed map `alloc_pidmap` either returns the first free pid from `last_pid + 1`
  -- (masked to 15 bits) up to 32767, sets that one bit, lowers `nr_free` by one, remembers the pid
  -- and keeps the map well formed, or returns -1 and changes nothing, and then `nr_free` is 0 or
  -- every pid from that start up is in use.
  pub alloc_pidmap-Outcome : Outcome m (alloc_pidmap m)
  unfolding alloc_pidmap
  alloc_pidmap-Outcome =
      let found =
        find_next_zero_bit-IsFirstFree v.page_ok bits_per_page (start_of m)
          (omega (arith, start-lt (succ_ℤ m.last_pid))) in
      let p = find_next_zero_bit m.page bits_per_page (start_of m) in
      elim (Bool-cases (m.nr_free == 0)) [
        | inl empty ↦ rw empty (refused (inl (ground arith)))
        | inr more ↦ elim (Bool-cases (p == bits_per_page)) [
          | inl full ↦
              rw (more, full) (refused (inr (rw (← (==_iff p bits_per_page).0 full) found.2)))
          | inr hit ↦
              let lt : p < bits_per_page = ground (arith, found.1) in
              rw (more, hit, test_and_set_bit-eq_used v.page_ok p lt, found.3 lt)
                (allocated (alloc_found p (ground arith) lt found))
        ]
      ]

  -- On a well-formed map with room in `nr_free`, `free_pidmap` of a pid below 32768 clears the bit
  -- of that pid and of no other, adds one to `nr_free`, leaves `last_pid` and keeps the map well
  -- formed.
  pub free_pidmap-clears :
      (p : ℕ)
      → p < bits_per_page
      → m.nr_free + 1 < word
      → let n = free_pidmap (pos p) m in
        ((q : ℕ) → used n.page q ≡ (if q == p then false else used m.page q))
        × (n.nr_free ≡ m.nr_free + 1)
        × (n.last_pid ≡ m.last_pid)
        × IsMap n
  unfolding free_pidmap
  free_pidmap-clears p h small =
      let e : p % 2 ^ 15 ≡ p = omega arith in
      rw e (
        used-clear_bit v.page_ok p h,
        omega arith,
        refl,
        record { page_ok = clear_bit-IsPage v.page_ok p h; count_ok = omega arith },
      )

  -- When every pid from the start of the search up to 32767 is in use, `alloc_pidmap` returns -1
  -- and changes nothing, whatever pids below the start are free.
  pub alloc_pidmap_no_wrap :
      AllUsed m.page (start_of m) bits_per_page → alloc_pidmap m ≡ (minus_one, m)
  alloc_pidmap_no_wrap full = only (alloc_pidmap m) alloc_pidmap-Outcome
    where
      only : (r : ℤ × PidMap) → Outcome m r → r ≡ (minus_one, m)
      only _ (allocated a) = absurd (false≢true (sym a.was_free ∙ full _ a.first.0 a.in_range))
      only _ (refused why) = refl
