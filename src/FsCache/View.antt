-- ===== src/FsCache/View.antt =====
-- What the cache of kernel/fs/fscache/fscache.c stands for: for each sector the block that a buffer
-- holds, or the one on the disk. A change of states keeps that, and so does a victim written back.
use mini_operating_system.Prelude.{
  ℕ, suc, ◌+◌, ◌/◌, ◌%◌, ◌<◌, ◌≤◌, ◌≡◌, ltb, subst, ◌≢◌, refl, sym, ◌∙◌, ap, ◌⊎◌, inl, inr, false,
  bit_and, ◌==◌, update_eq, update_ne, arith, Bool-cases, ==_iff,
}
use native.Mathlib.Nat.{div-add-mod, mul-le-mul_left, mul-suc}
use mini_operating_system.FsCache.{Device, Buf, Cache, no_sector, dirty, fs_write, set_buf}
use mini_operating_system.FsCache.Victim.{Same}

-- `on d s` is the block of `count` sectors from sector `s` on, on the disk `d`. Blocks of several sectors
-- overlap, but not those of the clusters: they begin at sectors with the same remainder, `rem`.
module _ {Block Disk : Type 0} (on : Disk → ℕ → Block) (count rem : ℕ) where
  abbrev pub IsStart : ℕ → Type 0
  IsStart t = t % count ≡ rem

  -- Two blocks have no sector in common.
  abbrev pub AreApart : (s t : ℕ) → Type 0
  AreApart s t = (s + count ≤ t) ⊎ (t + count ≤ s)

  AreApart-lt : (s t : ℕ) → IsStart s → IsStart t → s < t → s + count ≤ t
  AreApart-lt s t a b h =
      let e = div-add-mod s count in
      let f = div-add-mod t count in
      elim (Bool-cases (ltb (s / count) (t / count))) [
        | inl l ↦
            let m =
              mul-le-mul_left count
                (let k : suc (s / count) ≤ t / count = ground (arith, l) in k) in
            omega (arith, m, e, f, a, b, mul-suc count (s / count))
        | inr l ↦
            let m =
              mul-le-mul_left count (let k : t / count ≤ s / count = ground (arith, l) in k) in
            absurd (omega (arith, m, e, f, a, b, h))
      ]

  starts-AreApart : (s t : ℕ) → IsStart s → IsStart t → t ≢ s → AreApart s t
  starts-AreApart s t a b ne = elim (Bool-cases (ltb s t)) [
    | inl l ↦ inl (AreApart-lt s t a b (ground (arith, l)))
    | inr l ↦ inr (AreApart-lt t s b a (ground (arith, l, ne)))
  ]

  -- A read or write that does not return 1 does what it says: a write changes no sector but those of
  -- its block.
  pub record IsDevice (dev : Device Block Disk) : Type 0 where
    pub reads :
        (s : ℕ) (b : Block) (d : Disk)
        → (dev.read_block s b d).0 ≢ 1
        → (dev.read_block s b d).1 ≡ on d s
    pub writes :
        (b : Block) (s : ℕ) (d : Disk)
        → (dev.write_block b s d).0 ≢ 1
        → (on (dev.write_block b s d).1 s ≡ b)
          × ((t : ℕ) → AreApart s t → on (dev.write_block b s d).1 t ≡ on d t)

  module _ (size : ℕ) where
    abbrev pub Cached : (ℕ → Buf Block) → ℕ → Block → Type 0
    Cached m t b = (i : ℕ) × (i < size) × ((m i).cur ≡ t) × ((m i).buf ≡ b)

    abbrev pub Absent : (ℕ → Buf Block) → ℕ → Type 0
    Absent m t = (i : ℕ) → i < size → (m i).cur ≢ t

    -- The cache stands for the block `b` at sector `t`.
    abbrev pub Views : Cache Block Disk → ℕ → Block → Type 0
    Views c t b = Cached c.bufs t b ⊎ (Absent c.bufs t × (on c.disk t ≡ b))

    abbrev pub Keeps : Cache Block Disk → Cache Block Disk → Type 0
    Keeps c n = (t : ℕ) (b : Block) → t ≢ no_sector → IsStart t → Views c t b → Views n t b

    -- The buffers hold blocks that begin where those of clusters do, no block is in two of them, and
    -- what need not be written is on the disk.
    pub record IsCache (c : Cache Block Disk) : Type 0 where
      pub clock_inside : c.clock < size
      pub distinct :
          (i j : ℕ)
          → i < size
          → j < size
          → (c.bufs i).cur ≡ (c.bufs j).cur
          → (c.bufs i).cur ≢ no_sector
          → i ≡ j
      pub starts : (i : ℕ) → i < size → (c.bufs i).cur ≢ no_sector → IsStart (c.bufs i).cur
      pub clean :
          (i : ℕ)
          → i < size
          → dirty (c.bufs i) ≡ false
          → (c.bufs i).cur ≢ no_sector
          → on c.disk (c.bufs i).cur ≡ (c.bufs i).buf

    -- Buffers that differ in reference bits alone.
    module _ (c : Cache Block Disk) (n : ℕ → Buf Block) (k : ℕ) (s : Same c.bufs n) where
      pub Same-Keeps : Keeps c (record c { bufs = n; clock = k })
      Same-Keeps t b real start (inl (i, l, e, f)) = inl (i, l, s.cur_same i ∙ e, s.bufs_same i ∙ f)
      Same-Keeps t b real start (inr (out, f)) =
          inr ((λ i l e. out i l (sym (s.cur_same i) ∙ e)), f)

      pub Same-IsCache : IsCache c → k < size → IsCache (record c { bufs = n; clock = k })
      Same-IsCache v h = record {
        clock_inside = h;
        distinct = λ i j a b e real.
            v.distinct i j a b (sym (s.cur_same i) ∙ e ∙ s.cur_same j)
              (λ f. real (s.cur_same i ∙ f));
        starts = λ i l real.
            subst IsStart (sym (s.cur_same i)) (v.starts i l (λ f. real (s.cur_same i ∙ f)));
        clean = λ i l d real.
            ap (on c.disk) (s.cur_same i)
            ∙ v.clean i l (sym (s.dirty_same i) ∙ d) (λ f. real (s.cur_same i ∙ f))
            ∙ sym (s.bufs_same i);
      }

    -- What writing buffer `i` leaves, when that succeeds.
    pub record Written (c : Cache Block Disk) (i : ℕ) (n : Cache Block Disk) : Type 0 where
      pub kept : Keeps c n
      pub valid : IsCache n
      pub curs : (j : ℕ) → (n.bufs j).cur ≡ (c.bufs j).cur
      pub on_disk : (n.bufs i).cur ≢ no_sector → on n.disk (n.bufs i).cur ≡ (n.bufs i).buf

    module _ (dev : Device Block Disk) (good : IsDevice dev) (c : Cache Block Disk) (v : IsCache c)
        (i : ℕ) (h : i < size) where
      abbrev b : Buf Block
      b = c.bufs i

      abbrev stored : Buf Block
      stored = record b { state = bit_and b.state 1 }

      abbrev after_write : Cache Block Disk
      after_write =
          set_buf dev i stored (record c { disk = (dev.write_block b.buf b.cur c.disk).1 })

      bufs_after :
          (j : ℕ)
          → ((after_write.bufs j).buf ≡ (c.bufs j).buf)
            × ((after_write.bufs j).cur ≡ (c.bufs j).cur)
      bufs_after j = elim (Bool-cases (j == i)) [
        | inl e ↦
            let here : j ≡ i = (==_iff j i).0 e in
            let stands : after_write.bufs j ≡ stored = update_eq c.bufs i stored j here in
            (
              ap (λ x. x.buf) stands ∙ ap (λ k. (c.bufs k).buf) (sym here),
              ap (λ x. x.cur) stands ∙ ap (λ k. (c.bufs k).cur) (sym here),
            )
        | inr e ↦
            let stands : after_write.bufs j ≡ c.bufs j = update_ne c.bufs i stored j e in
            (ap (λ x. x.buf) stands, ap (λ x. x.cur) stands)
      ]

      write_succeeds :
          (dev.write_block b.buf b.cur c.disk).0 ≢ 1 → b.cur ≢ no_sector → Written c i after_write
      write_succeeds ok real = record {
        kept = λ t x seen start w. elim w [
          | inl (j, l, e, f) ↦ inl (j, l, (bufs_after j).1 ∙ e, (bufs_after j).0 ∙ f)
          | inr (out, f) ↦ inr (
            (λ j l e. out j l (sym (bufs_after j).1 ∙ e)),
            other t start (λ e. out i h (sym e)) ∙ f,
          )
        ];
        valid = record {
          clock_inside = v.clock_inside;
          distinct = λ j k a d e r.
              v.distinct j k a d (sym (bufs_after j).1 ∙ e ∙ (bufs_after k).1)
                (λ f. r ((bufs_after j).1 ∙ f));
          starts = λ j l r.
              subst IsStart (sym (bufs_after j).1) (v.starts j l (λ f. r ((bufs_after j).1 ∙ f)));
          clean = λ j l d r. elim (Bool-cases (j == i)) [
            | inl e ↦ rw ((==_iff j i).0 e) at_i
            | inr e ↦
                let far : (c.bufs j).cur ≢ b.cur =
                  λ f. ground (arith, e, v.distinct j i l h f (λ g. r ((bufs_after j).1 ∙ g))) in
                let dirt : dirty (c.bufs j) ≡ false =
                  ap dirty (sym (update_ne c.bufs i stored j e)) ∙ d in
                ap (on after_write.disk) (bufs_after j).1
                ∙ other (c.bufs j).cur (v.starts j l (λ f. r ((bufs_after j).1 ∙ f))) far
                ∙ v.clean j l dirt (λ f. r ((bufs_after j).1 ∙ f))
                ∙ sym (bufs_after j).0
          ];
        };
        curs = λ j. (bufs_after j).1;
        on_disk = λ r. at_i;
      }
        where
          other : (t : ℕ) → IsStart t → t ≢ b.cur → on after_write.disk t ≡ on c.disk t
          other t start far =
              (good.writes b.buf b.cur c.disk ok).1 t
                (starts-AreApart b.cur t (v.starts i h real) start far)

          at_i : on after_write.disk (after_write.bufs i).cur ≡ (after_write.bufs i).buf
          at_i =
              ap (on after_write.disk) (bufs_after i).1
              ∙ (good.writes b.buf b.cur c.disk ok).0
              ∙ sym (bufs_after i).0

      left_alone : (b.cur ≢ no_sector → dirty b ≡ false) → Written c i c
      left_alone idle = record {
        kept = λ t x seen start w. w;
        valid = v;
        curs = λ j. refl;
        on_disk = λ r. v.clean i h (idle r) r;
      }

      -- On a device where a read or write of a block of `count` sectors that does not return 1 does what
      -- it says, a write to the sectors of its block only, and for a cache with its clock inside, no block
      -- in two buffers, every buffer that need not be written as on the disk, and blocks that begin at
      -- sectors with one remainder by `count` (a buffer with the mark 0xffffffff holds no block): where
      -- `fs_write_4k` or `fs_write_512` of a buffer of the cache does not return 1, the cache is of that
      -- form again and stands, at the sectors where blocks begin, but for that mark, for the same blocks
      -- as before; the buffers hold the same sectors, and the disk has the block of the one written, if
      -- it holds one.
      pub fs_write-Written : (fs_write dev i c).0 ≢ 1 → Written c i (fs_write dev i c).1
      unfolding fs_write
      fs_write-Written = elim (Bool-cases (b.cur == no_sector)) [
        | inl e ↦ rw e (λ ok. left_alone (λ r. absurd (r ((==_iff _ _).0 e))))
        | inr e ↦ elim (Bool-cases (dirty b)) [
          | inr d ↦ rw (e, d) (λ ok. left_alone (λ r. d))
          | inl d ↦ elim (Bool-cases ((dev.write_block b.buf b.cur c.disk).0 == 1)) [
            | inl f ↦ rw (e, d, f) (λ ok. absurd (ok refl))
            | inr f ↦ rw (e, d, f) (λ ok. write_succeeds (λ g. ground arith) (λ g. ground arith))
          ]
        ]
      ]
