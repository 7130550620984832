-- ===== src/FsCache/Fill.antt =====
-- A buffer of kernel/fs/fscache/fscache.c that takes in a sector in place of another.
use mini_operating_system.Prelude.{
  ℕ, ◌<◌, ◌≡◌, ◌≢◌, sym, ◌∙◌, ap, inl, inr, true, false, ◌==◌, update_eq, update_ne, arith,
  Bool-cases, ==_iff, subst,
}
use mini_operating_system.FsCache.{Device, Buf, Cache, no_sector, dirty, set_buf}
use mini_operating_system.FsCache.View.{IsStart, Absent, Views, Keeps, IsCache}

module _ {Block Disk : Type 0} (on : Disk → ℕ → Block) (count rem size : ℕ) where
  -- Buffer `i` holds the sector's block now, and the cache stands for what it stood for.
  pub record Fetched (c : Cache Block Disk) (sector : ℕ) (r : ℕ × Cache Block Disk) : Type 0 where
    pub inside : r.0 < size
    pub holds_sector : (r.1.bufs r.0).cur ≡ sector
    pub holds_block : (b : Block) → Views on count rem size c sector b → (r.1.bufs r.0).buf ≡ b
    pub kept : Keeps on count rem size c r.1
    pub valid : IsCache on count rem size r.1

  module _ (dev : Device Block Disk) (c : Cache Block Disk) (v : IsCache on count rem size c)
      (i : ℕ) (h : i < size)
      (stored : (c.bufs i).cur ≢ no_sector → on c.disk (c.bufs i).cur ≡ (c.bufs i).buf) (sector : ℕ)
      (real : sector ≢ no_sector) (start : IsStart on count rem sector)
      (absent : Absent on count rem size c.bufs sector) (block : Block)
      (from_disk : block ≡ on c.disk sector) where
    abbrev fresh : Buf Block
    fresh = record { buf = block; cur = sector; state = 1 }

    abbrev filled : Cache Block Disk
    filled = set_buf dev i fresh c

    here : (j : ℕ) → (j == i) ≡ true → filled.bufs j ≡ fresh
    here j e = update_eq c.bufs i fresh j ((==_iff j i).0 e)

    there : (j : ℕ) → (j == i) ≡ false → filled.bufs j ≡ c.bufs j
    there j e = update_ne c.bufs i fresh j e

    -- A sector that the cache holds elsewhere, or not at all, but for the new one.
    lacks_still :
        (t : ℕ)
        → t ≢ sector
        → ((j : ℕ) → j < size → j ≢ i → (c.bufs j).cur ≢ t)
        → Absent on count rem size filled.bufs t
    lacks_still t other out j l e = elim (Bool-cases (j == i)) [
      | inl f ↦ other (sym e ∙ ap (λ x. x.cur) (here j f))
      | inr f ↦ out j l (λ g. ground (arith, f, g)) (sym (ap (λ x. x.cur) (there j f)) ∙ e)
    ]

    filled-Keeps : Keeps on count rem size c filled
    filled-Keeps t b r begins (inl (j, l, e, f)) = elim (Bool-cases (j == i)) [
      | inl g ↦
          let same : j ≡ i = (==_iff j i).0 g in
          let cur_i : (c.bufs i).cur ≡ t = ap (λ k. (c.bufs k).cur) (sym same) ∙ e in
          let gone : Absent on count rem size filled.bufs t =
            lacks_still t (λ k. absent i h (cur_i ∙ k))
              (λ k m n o. n (v.distinct k i m h (o ∙ sym cur_i) (λ z. r (sym o ∙ z)))) in
          inr (
            gone,
            ap (on c.disk) (sym cur_i)
                ∙ stored (λ z. r (sym cur_i ∙ z))
                ∙ ap (λ k. (c.bufs k).buf) (sym same)
                ∙ f,
          )
      | inr g ↦ inl (j, l, ap (λ x. x.cur) (there j g) ∙ e, ap (λ x. x.buf) (there j g) ∙ f)
    ]
    filled-Keeps t b r begins (inr (out, f)) = elim (Bool-cases (t == sector)) [
      | inl g ↦
          let same : t ≡ sector = (==_iff t sector).0 g in
          let stands = here i (ground arith) in
          inl (
            i,
            h,
            ap (λ x. x.cur) stands ∙ sym same,
            ap (λ x. x.buf) stands ∙ from_disk ∙ ap (on c.disk) (sym same) ∙ f,
          )
      | inr g ↦ inr (lacks_still t (λ e. ground (arith, g, e)) (λ j l n. out j l), f)
    ]

    filled-IsCache : IsCache on count rem size filled
    filled-IsCache = record {
      clock_inside = v.clock_inside;
      distinct = λ j k a d e r. elim (Bool-cases (j == i)) [
        | inl f ↦ elim (Bool-cases (k == i)) [
          | inl g ↦ (==_iff j i).0 f ∙ sym ((==_iff k i).0 g)
          | inr g ↦
              absurd (
                absent k d (sym (ap (λ x. x.cur) (there k g)) ∙ sym e ∙ ap (λ x. x.cur) (here j f)))
        ]
        | inr f ↦ elim (Bool-cases (k == i)) [
          | inl g ↦
              absurd
                (absent j a (sym (ap (λ x. x.cur) (there j f)) ∙ e ∙ ap (λ x. x.cur) (here k g)))
          | inr g ↦
              v.distinct j k a d
                (sym (ap (λ x. x.cur) (there j f)) ∙ e ∙ ap (λ x. x.cur) (there k g))
                (λ z. r (ap (λ x. x.cur) (there j f) ∙ z))
        ]
      ];
      starts = λ j l r. elim (Bool-cases (j == i)) [
        | inl f ↦ subst (IsStart on count rem) (sym (ap (λ x. x.cur) (here j f))) start
        | inr f ↦
            let same = ap (λ x. x.cur) (there j f) in
            subst (IsStart on count rem) (sym same) (v.starts j l (λ z. r (same ∙ z)))
      ];
      clean = λ j l d r. elim (Bool-cases (j == i)) [
        | inl f ↦
            ap (λ x. on c.disk x.cur) (here j f) ∙ sym from_disk ∙ sym (ap (λ x. x.buf) (here j f))
        | inr f ↦
            ap (λ x. on c.disk x.cur) (there j f)
            ∙ v.clean j l (sym (ap dirty (there j f)) ∙ d)
                (λ z. r (ap (λ x. x.cur) (there j f) ∙ z))
            ∙ sym (ap (λ x. x.buf) (there j f))
      ];
    }

    pub filled-Fetched : Fetched c sector (i, filled)
    filled-Fetched = record {
      inside = h;
      holds_sector = ap (λ x. x.cur) (here i (ground arith));
      holds_block = λ b w. elim w [
        | inl (j, l, e, f) ↦ absurd (absent j l e)
        | inr (out, f) ↦ ap (λ x. x.buf) (here i (ground arith)) ∙ from_disk ∙ f
      ];
      kept = filled-Keeps;
      valid = filled-IsCache;
    }

  pub Fetched-after :
      (c n : Cache Block Disk) (sector : ℕ) (r : ℕ × Cache Block Disk)
      → sector ≢ no_sector
      → IsStart on count rem sector
      → Keeps on count rem size c n
      → Fetched n sector r
      → Fetched c sector r
  Fetched-after c n sector r real start k f = record {
    inside = f.inside;
    holds_sector = f.holds_sector;
    holds_block = λ b w. f.holds_block b (k sector b real start w);
    kept = λ t b s begins w. f.kept t b s begins (k t b s begins w);
    valid = f.valid;
  }
