-- ===== src/FsCache/Victim.antt =====
-- The choice of the buffer to replace in kernel/fs/fscache/fscache.c.
use mini_operating_system.Prelude.{
  ℕ, zero, suc, ◌+◌, ◌<◌, ◌≤◌, ◌≡◌, refl, ◌∙◌, ap, ◌⊎◌, inl, inr, true, false, not, Option, none,
  some, bit_and, ◌==◌, update, update_eq, update_ne, arith, Bool-cases, ==_iff, subst, sym,
}
use mini_operating_system.Prelude.Bits.{bit_and-pow, bit-bit_and, bit-lt}
use mini_operating_system.FsCache.{Buf, referenced, dirty, advance, sweep_1, sweep_2, fs_victim}

clear_keeps_dirty : (s : ℕ) → bit_and (bit_and s 0xfe) 2 ≡ bit_and s 2
clear_keeps_dirty s =
    omega (arith, bit_and-pow 1 (bit_and s 0xfe), bit_and-pow 1 s, bit-bit_and 1 s 0xfe, bit-lt s 1)

module _ {Block : Type 0} where
  -- `n` is `m` but for reference bits.
  pub record Same (m n : ℕ → Buf Block) : Type 0 where
    pub bufs_same : (i : ℕ) → (n i).buf ≡ (m i).buf
    pub cur_same : (i : ℕ) → (n i).cur ≡ (m i).cur
    pub dirty_same : (i : ℕ) → dirty (n i) ≡ dirty (m i)

  -- A new state with the same second bit for one buffer.
  pub set_state-Same :
      (m : ℕ → Buf Block) (c w : ℕ)
      → bit_and w 2 ≡ bit_and (m c).state 2
      → Same m (update m c (record (m c) { state = w }))
  set_state-Same m c w same_bit = record {
    bufs_same = λ i. at i (λ b. b.buf ≡ (m i).buf) refl (λ e. ap (λ j. (m j).buf) (sym e));
    cur_same = λ i. at i (λ b. b.cur ≡ (m i).cur) refl (λ e. ap (λ j. (m j).cur) (sym e));
    dirty_same = λ i.
        at i (λ b. dirty b ≡ dirty (m i)) refl
          (λ e. ap (λ v. not (v == 0)) same_bit ∙ ap (λ j. dirty (m j)) (sym e));
  }
    where
      at :
          (i : ℕ) (P : Buf Block → Type 0)
          → P (m i)
          → (i ≡ c → P (record (m c) { state = w }))
          → P (update m c (record (m c) { state = w }) i)
      at i P same changed = elim (Bool-cases (i == c)) [
        | inl e ↦
            let here : i ≡ c = (==_iff i c).0 e in
            subst P (sym (update_eq m c (record (m c) { state = w }) i here)) (changed here)
        | inr e ↦ subst P (sym (update_ne m c (record (m c) { state = w }) i e)) same
      ]

  Same-refl : (m : ℕ → Buf Block) → Same m m
  Same-refl m = record { bufs_same = λ i. refl; cur_same = λ i. refl; dirty_same = λ i. refl }

  Same-trans : (l m n : ℕ → Buf Block) → Same l m → Same m n → Same l n
  Same-trans l m n a b = record {
    bufs_same = λ i. b.bufs_same i ∙ a.bufs_same i;
    cur_same = λ i. b.cur_same i ∙ a.cur_same i;
    dirty_same = λ i. b.dirty_same i ∙ a.dirty_same i;
  }

  module _ (size : ℕ) where
    data Swept1 (m : ℕ → Buf Block) : Option ℕ × ℕ × (ℕ → Buf Block) → Type 0 where
      hit_1 :
          (i : ℕ) (n : ℕ → Buf Block)
          → i < size
          → dirty (m i) ≡ false
          → Same m n
          → Swept1 m (some i, i, n)
      miss_1 : (c : ℕ) (n : ℕ → Buf Block) → c < size → Same m n → Swept1 m (none, c, n)

    Swept1-after :
        (m n : ℕ → Buf Block) (r : Option ℕ × ℕ × (ℕ → Buf Block))
        → Same m n
        → Swept1 n r
        → Swept1 m r
    Swept1-after m n r s (hit_1 i k b d t) =
        hit_1 i k b (sym (s.dirty_same i) ∙ d) (Same-trans m n k s t)
    Swept1-after m n r s (miss_1 c k b t) = miss_1 c k b (Same-trans m n k s t)

    sweep_1-Swept1 :
        (rounds clock : ℕ) (m : ℕ → Buf Block)
        → clock < size
        → Swept1 m (sweep_1 rounds clock size m)
    unfolding sweep_1
    sweep_1-Swept1 zero clock m h = miss_1 clock m h (Same-refl m)
    sweep_1-Swept1 (suc rounds) clock m h = elim (Bool-cases (referenced (m clock))) [
      | inl e ↦ rw e (
          Swept1-after m _ _ (set_state-Same m clock _ (clear_keeps_dirty (m clock).state))
            (sweep_1-Swept1 rounds (advance clock size) _ (ground arith)))
      | inr e ↦ elim (Bool-cases (dirty (m clock))) [
        | inl d ↦ rw (e, d) (sweep_1-Swept1 rounds (advance clock size) m (ground arith))
        | inr d ↦ rw (e, d) (hit_1 clock m h d (Same-refl m))
      ]
    ]

    swept_bound :
        (m : ℕ → Buf Block) (o : Option ℕ) (c : ℕ) (n : ℕ → Buf Block)
        → Swept1 m (o, c, n)
        → c < size
    swept_bound m o c n (hit_1 _ _ b d s) = b
    swept_bound m o c n (miss_1 _ _ b s) = b

    data Swept2 (m : ℕ → Buf Block) (rounds clock : ℕ) : Option ℕ × ℕ → Type 0 where
      hit_2 : (i : ℕ) → i < size → dirty (m i) ≡ false → Swept2 m rounds clock (some i, i)
      miss_2 :
          (c : ℕ)
          → c < size
          → ((i : ℕ)
              → i < size
              → ((clock ≤ i) × (i < clock + rounds)) ⊎ (i + size < clock + rounds)
              → dirty (m i) ≡ true)
          → Swept2 m rounds clock (none, c)

    step :
        (rounds clock : ℕ) (m : ℕ → Buf Block)
        → clock < size
        → dirty (m clock) ≡ true
        → (r : Option ℕ × ℕ) → Swept2 m rounds (advance clock size) r
        → Swept2 m (suc rounds) clock r
    step rounds clock m h d r (hit_2 i b e) = hit_2 i b e
    step rounds clock m h d r (miss_2 c b all) = miss_2 c b (λ i l near.
        elim (Bool-cases (i == clock)) [
          | inl e ↦ ap (λ j. dirty (m j)) ((==_iff i clock).0 e) ∙ d
          | inr e ↦ all i l (ground arith)
        ])

    sweep_2-Swept2 :
        (rounds clock : ℕ) (m : ℕ → Buf Block)
        → clock < size
        → Swept2 m rounds clock (sweep_2 rounds clock size m)
    unfolding sweep_2
    sweep_2-Swept2 zero clock m h = miss_2 clock h (λ i b c. absurd (ground arith))
    sweep_2-Swept2 (suc rounds) clock m h = elim (Bool-cases (dirty (m clock))) [
      | inl d ↦
          rw d (
            step rounds clock m h d _ (sweep_2-Swept2 rounds (advance clock size) m (ground arith)))
      | inr d ↦ rw d (hit_2 clock h d)
    ]

  -- The victim is clean, or all buffers have to be written; nothing but reference bits changes.
  pub record Chosen (size : ℕ) (m : ℕ → Buf Block) (r : ℕ × ℕ × (ℕ → Buf Block)) : Type 0 where
    pub victim_bound : r.0 < size
    pub clock_bound : r.1 < size
    pub unchanged : Same m r.2
    pub clean : (dirty (m r.0) ≡ false) ⊎ ((i : ℕ) → i < size → dirty (m i) ≡ true)

  chosen :
      (size : ℕ) (m : ℕ → Buf Block)
      → 0 < size
      → (o1 : Option ℕ) (c1 : ℕ) (n : ℕ → Buf Block) → Swept1 size m (o1, c1, n)
      → (o2 : Option ℕ) (c2 : ℕ) → Swept2 size n size c1 (o2, c2)
      → Chosen size m (elim o1 [
        | some index ↦ (index, advance c1 size, n)
        | none ↦ elim o2 [
          | some index ↦ (index, advance c2 size, n)
          | none ↦ (c2, advance c2 size, n)
        ]
      ])
  chosen size m h (some i) c1 n (hit_1 _ _ b d s) o2 c2 r = record {
    victim_bound = b;
    clock_bound = ground arith;
    unchanged = s;
    clean = inl d;
  }
  chosen size m h none c1 n (miss_1 _ _ b s) (some i) c2 (hit_2 _ l d) = record {
    victim_bound = l;
    clock_bound = ground arith;
    unchanged = s;
    clean = inl (sym (s.dirty_same i) ∙ d);
  }
  chosen size m h none c1 n (miss_1 _ _ b s) none c2 (miss_2 _ l all) = record {
    victim_bound = l;
    clock_bound = ground arith;
    unchanged = s;
    clean = inr (λ i u. sym (s.dirty_same i) ∙ all i u (ground arith));
  }

  -- With the clock inside the cache, `fs_victim_4k` and `fs_victim_512` choose a buffer of the cache
  -- that need not be written, if there is one; the clock stays inside, and of the buffers only
  -- reference bits change.
  pub fs_victim-Chosen :
      (clock size : ℕ) (m : ℕ → Buf Block) → clock < size → Chosen size m (fs_victim clock size m)
  unfolding fs_victim
  fs_victim-Chosen clock size m h =
      let first = sweep_1-Swept1 size size clock m h in
      chosen size m (omega arith) _ _ _ first _ _
        (sweep_2-Swept2 size size _ _ (swept_bound size m _ _ _ first))
