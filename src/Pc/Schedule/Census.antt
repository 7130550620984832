-- ===== src/Pc/Schedule/Census.antt =====
-- How often a process id stands in the table, and what a write of one slot does to that.
use mini_operating_system.Prelude.{
  ℕ, zero, suc, ◌+◌, ◌≤◌, ◌<◌, ◌≡◌, refl, inl, inr, false, arith, Bool-cases, ==_iff, ◌==◌,
  if◌then◌else◌, ℤ, pos, negsuc, eq_ℤ, is_pos,
}
use mini_operating_system.Pc.State.{Task, Table, put, is_runnable}

-- 1 for a process with the id `a`, 0 for any other.
abbrev pub weight : ℤ → Task → ℕ
weight a t = if eq_ℤ t.asid a then 1 else 0

module _ (a : ℤ) where
  unfoldable pub count_row : (ℕ → Task) → ℕ → ℕ
  count_row level zero = 0
  count_row level (suc n) = weight a (level n) + count_row level n

  -- In the first `n` queues.
  unfoldable pub count_table : Table → ℕ → ℕ
  unfolding count_row
  count_table f zero = 0
  count_table f (suc n) = count_row (f n) 16 + count_table f n

  row_other :
      (f : Table) (q i : ℕ) (t : Task) (p n : ℕ)
      → (p == q) ≡ false
      → count_row (put f q i t p) n ≡ count_row (f p) n
  unfolding count_row
  row_other f q i t p zero h = refl
  row_other f q i t p (suc n) h = ground (arith, row_other f q i t p n h)

  row_before :
      (f : Table) (q i : ℕ) (t : Task) (n : ℕ)
      → n ≤ i
      → count_row (put f q i t q) n ≡ count_row (f q) n
  unfolding count_row
  row_before f q i t zero h = refl
  row_before f q i t (suc n) h = ground (arith, row_before f q i t n)

  row_put :
      (f : Table) (q i : ℕ) (t : Task) (n : ℕ)
      → i < n
      → count_row (put f q i t q) n + weight a (f q i) ≡ count_row (f q) n + weight a t
  unfolding count_row
  row_put f q i t zero h = elim h [ ]
  row_put f q i t (suc n) h = elim (Bool-cases (n == i)) [
    | inl e ↦ let e' = (==_iff n i).0 e in rw e' (ground (arith, row_before f q i t i))
    | inr e ↦ ground (arith, row_put f q i t n)
  ]

  table_before :
      (f : Table) (q i : ℕ) (t : Task) (n : ℕ)
      → n ≤ q
      → count_table (put f q i t) n ≡ count_table f n
  unfolding count_table
  table_before f q i t zero h = refl
  table_before f q i t (suc n) h =
      omega (arith, row_other f q i t n 16 (ground arith), table_before f q i t n (omega arith))

  pub table_put :
      (f : Table) (q i : ℕ) (t : Task) (n : ℕ)
      → q < n
      → i < 16
      → count_table (put f q i t) n + weight a (f q i) ≡ count_table f n + weight a t
  unfolding count_table
  table_put f q i t zero h l = elim h [ ]
  table_put f q i t (suc n) h l = elim (Bool-cases (n == q)) [
    | inl e ↦
        rw ((==_iff n q).0 e)
          (omega (arith, row_put f q i t 16 l, table_before f q i t q (omega arith)))
    | inr e ↦ omega (arith, row_other f q i t n 16 e, table_put f q i t n (ground arith) l)
  ]

  row_member : (level : ℕ → Task) (i n : ℕ) → i < n → weight a (level i) ≤ count_row level n
  unfolding count_row
  row_member level i zero h = elim h [ ]
  row_member level i (suc n) h = elim (Bool-cases (n == i)) [
    | inl e ↦ rw ((==_iff n i).0 e) (omega arith)
    | inr e ↦ omega (arith, row_member level i n (ground arith))
  ]

  pub table_member : (f : Table) (q i n : ℕ) → q < n → i < 16 → weight a (f q i) ≤ count_table f n
  unfolding count_table
  table_member f q i zero h l = elim h [ ]
  table_member f q i (suc n) h l = elim (Bool-cases (n == q)) [
    | inl e ↦ rw ((==_iff n q).0 e) (omega (arith, row_member (f q) i 16 l))
    | inr e ↦ omega (arith, table_member f q i n (ground arith) l)
  ]

-- No process of the table can run.
abbrev pub AllIdle : Table → Type 0
AllIdle f = (q : ℕ) → q < 8 → (i : ℕ) → i < 16 → is_runnable (f q i) ≡ false

idle_weight : (n : ℕ) (t : Task) → is_runnable t ≡ false → weight (pos (suc n)) t ≡ 0
idle_weight n t h = by_sign t.asid h
  where
    by_sign : (z : ℤ) → is_pos z ≡ false → ◌≡◌ {A = ℕ} (if eq_ℤ z (pos (suc n)) then 1 else 0) 0
    by_sign (pos m) h = ground arith
    by_sign (negsuc m) h = refl

idle_row :
    (n : ℕ) (level : ℕ → Task) (m : ℕ)
    → ((i : ℕ) → i < m → is_runnable (level i) ≡ false)
    → count_row (pos (suc n)) level m ≡ 0
unfolding count_row
idle_row n level zero h = refl
idle_row n level (suc m) h = omega (
  arith,
  idle_weight n (level m) (h m (omega arith)),
  idle_row n level m (λ i l. h i (omega arith)),
)

pub idle_table :
    (n : ℕ) (f : Table) (m : ℕ)
    → ((q : ℕ) → q < m → (i : ℕ) → i < 16 → is_runnable (f q i) ≡ false)
    → count_table (pos (suc n)) f m ≡ 0
unfolding count_table
idle_table n f zero h = refl
idle_table n f (suc m) h =
    omega
      (arith, idle_row n (f m) 16 (h m (omega arith)), idle_table n f m (λ q l. h q (omega arith)))

pub AllIdle-of_census : (f : Table) → ((n : ℕ) → count_table (pos (suc n)) f 8 ≡ 0) → AllIdle f
AllIdle-of_census f none_counted q h i l =
    by_sign (f q i).asid
      (λ n. omega (arith, none_counted n, table_member (pos (suc n)) f q i 8 h l))
  where
    by_sign :
        (z : ℤ)
        → ((n : ℕ) → ◌≡◌ {A = ℕ} (if eq_ℤ z (pos (suc n)) then 1 else 0) 0)
        → is_pos z ≡ false
    by_sign (pos zero) w = refl
    by_sign (pos (suc n)) w = ground (arith, w n)
    by_sign (negsuc n) w = refl
