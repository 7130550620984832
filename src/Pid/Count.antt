-- ===== src/Pid/Count.antt =====
-- `nr_free` of pid.c counts the pids that are not in use, over any run of a correct client.
use mini_operating_system.Prelude.{
  ℕ, zero, suc, ◌+◌, ◌/◌, ◌%◌, ◌≤◌, ◌<◌, ◌≡◌, refl, sym, Bool, true, false, arith, ◌==◌,
  if◌then◌else◌, ℤ, pos, get_or-replicate, length-replicate,
}
use mini_operating_system.Prelude.Bits.{bit-zero}
use mini_operating_system.Pid.{Page, PidMap, bits_per_page, init_pid, alloc_pidmap, free_pidmap}
use mini_operating_system.Pid.Bitmap.{used}
use mini_operating_system.Pid.Alloc.{
  IsMap, Outcome, allocated, refused, alloc_pidmap-Outcome, free_pidmap-clears,
}

-- How many of the pids below `n` are free.
pub count_free : Page → ℕ → ℕ
count_free page zero = 0
count_free page (suc n) = (if used page n then 0 else 1) + count_free page n

count_free-le : (page : Page) (n : ℕ) → count_free page n ≤ n
unfolding count_free
count_free-le page zero = omega arith
count_free-le page (suc n) = ground (arith, count_free-le page n)

-- Two pages that differ at `p` alone.
module _ (old new : Page) (p : ℕ) (b : Bool)
    (differ : (q : ℕ) → used new q ≡ (if q == p then b else used old q)) where
  count_free_below : (n : ℕ) → n ≤ p → count_free new n ≡ count_free old n
  unfolding count_free
  count_free_below zero h = refl
  count_free_below (suc n) h = ground (arith, differ n, count_free_below n)

  count_free_above :
      (n : ℕ)
      → p < n
      → count_free new n + (if used old p then 0 else 1) ≡ count_free old n + (if b then 0 else 1)
  unfolding count_free
  count_free_above zero h = elim h [ ]
  count_free_above (suc n) h =
      ground (arith, differ n, differ p, count_free_above n, count_free_below n)

pub record IsCounted (m : PidMap) : Type 0 where
  pub map_ok : IsMap m
  pub exact : m.nr_free ≡ count_free m.page bits_per_page

used_init : (q : ℕ) → used init_pid.page q ≡ false
unfolding init_pid
used_init q = rw (get_or-replicate {A = ℕ} 1024 (q / 32) 0, bit-zero (q % 32))

count_free_init : (n : ℕ) → count_free init_pid.page n ≡ n
unfolding count_free
count_free_init zero = refl
count_free_init (suc n) = rw (used_init n) (omega (arith, count_free_init n))

pub init_pid-IsCounted : IsCounted init_pid
unfolding init_pid
init_pid-IsCounted = record {
  map_ok = record {
    page_ok = record {
      size = length-replicate {A = ℕ} 1024 0;
      fits = λ i. rw (get_or-replicate {A = ℕ} 1024 i 0) (omega arith);
    };
    count_ok = omega arith;
  };
  exact = sym (count_free_init bits_per_page);
}

-- A call of a client that frees only pids in use.
pub data Step (m : PidMap) : PidMap → Type 0 where
  alloc : Step m (alloc_pidmap m).1
  free : (p : ℕ) → p < bits_per_page → used m.page p ≡ true → Step m (free_pidmap (pos p) m)

pub data Reach (m : PidMap) : PidMap → Type 0 where
  here : Reach m m
  next : {n k : PidMap} → Reach m n → Step n k → Reach m k

alloc-IsCounted : {m : PidMap} {r : ℤ × PidMap} → IsCounted m → Outcome m r → IsCounted r.1
alloc-IsCounted {m} c (allocated {p} {n} a) = record {
  map_ok = a.still_map;
  exact = ground (
    arith,
    a.counted,
    a.was_free,
    c.exact,
    count_free_above m.page n.page p true a.now_used bits_per_page a.in_range,
  );
}
alloc-IsCounted c (refused why) = c

free-IsCounted :
    {m : PidMap}
    → IsCounted m
    → (p : ℕ) → p < bits_per_page
    → used m.page p ≡ true
    → IsCounted (free_pidmap (pos p) m)
free-IsCounted {m} c p h taken =
    let room = count_free-le m.page bits_per_page in
    let did = free_pidmap-clears c.map_ok p h (omega (arith, c.exact)) in
    let n = free_pidmap (pos p) m in
    record {
      map_ok = did.3;
      exact = ground (
        arith,
        did.1,
        taken,
        c.exact,
        count_free_above m.page n.page p false did.0 bits_per_page h,
      );
    }

pub Step-IsCounted : {m n : PidMap} → IsCounted m → Step m n → IsCounted n
Step-IsCounted c alloc = alloc-IsCounted c (alloc_pidmap-Outcome c.map_ok)
Step-IsCounted c (free p h taken) = free-IsCounted c p h taken

pub Reach-IsCounted : {m n : PidMap} → IsCounted m → Reach m n → IsCounted n
Reach-IsCounted c here = c
Reach-IsCounted c (next r s) = Step-IsCounted (Reach-IsCounted c r) s

-- From `init_pid` on, after any sequence of allocations and of releases of pids in use, `nr_free`
-- is the number of pids whose bit is clear.
pub Reach-nr_free : {m : PidMap} → Reach init_pid m → m.nr_free ≡ count_free m.page bits_per_page
Reach-nr_free r = (Reach-IsCounted init_pid-IsCounted r).exact

-- Releasing a pid that is not in use (below 32768, on a map whose `nr_free` is exact) makes
-- `nr_free` one more than the number of free pids.
pub free_pidmap_unused :
    {m : PidMap} (p : ℕ)
    → IsCounted m
    → p < bits_per_page
    → used m.page p ≡ false
    → let n = free_pidmap (pos p) m in n.nr_free ≡ count_free n.page bits_per_page + 1
free_pidmap_unused {m} p c h unused =
    let room = count_free-le m.page bits_per_page in
    let did = free_pidmap-clears c.map_ok p h (omega (arith, c.exact)) in
    let n = free_pidmap (pos p) m in
    ground
      (arith, did.1, unused, c.exact, count_free_above m.page n.page p false did.0 bits_per_page h)
