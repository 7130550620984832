-- ===== src/FsCache/Clean.antt =====
-- Reads of kernel/fs/fscache/fscache.c from a cache with nothing to write: the disk stays as it is.
use mini_operating_system.Prelude.{
  ℕ, ◌<◌, ◌≡◌, ◌≢◌, refl, sym, ◌∙◌, ap, inl, inr, true, false, bit_or, ◌==◌, ◌&&◌, not, add32,
  update_eq, update_ind, subst, arith, Bool-cases,
}
use mini_operating_system.FsCache.{
  Device, Buf, Cache, no_sector, dirty, fs_error, fs_victim, fs_write, set_buf, find_buf, pick,
  replace, fill, fs_read,
}
use mini_operating_system.FsCache.Victim.{Same, fs_victim-Chosen, set_state-Same}
use mini_operating_system.FsCache.Lookup.{find_buf-cases, hit_keeps_dirty}

module _ {Block Disk : Type 0} (dev : Device Block Disk) (on : ℕ → Block) (size : ℕ) where
  -- No buffer has to be written, and each that is in use holds its block of the disk.
  pub record IsClean (disk : Disk) (c : Cache Block Disk) : Type 0 where
    pub clock_inside : c.clock < size
    pub clean : (i : ℕ) → i < size → dirty (c.bufs i) ≡ false
    pub stored :
        (i : ℕ) → i < size → (c.bufs i).cur ≢ no_sector → (c.bufs i).buf ≡ on (c.bufs i).cur
    pub same_disk : c.disk ≡ disk

  -- A read that does not return 1 gives the block.
  abbrev pub Reads : Disk → Type 0
  Reads disk =
      (s : ℕ) (b : Block) → (dev.read_block s b disk).0 ≢ 1 → (dev.read_block s b disk).1 ≡ on s

  -- The buffer with the sector, and the cache.
  pub record IsBlock (disk : Disk) (sector : ℕ) (r : ℕ × Cache Block Disk) : Type 0 where
    pub inside : r.0 < size
    pub block : (r.1.bufs r.0).buf ≡ on sector
    pub valid : IsClean disk r.1

  pub Same-IsClean :
      (disk : Disk) (c : Cache Block Disk) (n : ℕ → Buf Block) (k : ℕ)
      → Same c.bufs n
      → k < size
      → IsClean disk c
      → IsClean disk (record c { bufs = n; clock = k })
  Same-IsClean disk c n k s h v = record {
    clock_inside = h;
    clean = λ i l. s.dirty_same i ∙ v.clean i l;
    stored = λ i l r.
        s.bufs_same i ∙ v.stored i l (λ e. r (s.cur_same i ∙ e)) ∙ ap on (sym (s.cur_same i));
    same_disk = v.same_disk;
  }

  -- A buffer that need not be written is not.
  pub fs_write-clean :
      (i : ℕ) (c : Cache Block Disk) → dirty (c.bufs i) ≡ false → fs_write dev i c ≡ (0, c)
  unfolding fs_write
  fs_write-clean i c e =
      let skip : not ((c.bufs i).cur == no_sector) && dirty (c.bufs i) ≡ false =
        ground (arith, e) in
      rw skip refl

  pub fs_read-miss :
      (base_addr first : ℕ) (c : Cache Block Disk)
      → find_buf dev size 0 (add32 first base_addr) c.bufs ≡ size
      → fs_read dev base_addr first size c ≡ replace dev (add32 first base_addr) size c
  unfolding fs_read
  fs_read-miss base_addr first c miss =
      let yes : (find_buf dev size 0 (add32 first base_addr) c.bufs == size) ≡ true =
        ground (arith, miss) in
      rw yes refl

  module _ (disk : Disk) (good : Reads disk) (sector : ℕ) (real : sector ≢ no_sector) where
    fill-IsBlock :
        (i : ℕ) (c : Cache Block Disk)
        → IsClean disk c
        → i < size
        → (fill dev sector i (0, c)).0 ≢ fs_error
        → IsBlock disk sector (fill dev sector i (0, c))
    unfolding fill
    fill-IsBlock i c v h =
        let r = dev.read_block sector (c.bufs i).buf c.disk in
        let new : Buf Block = record { buf = r.1; cur = sector; state = 1 } in
        elim (Bool-cases (r.0 == 1)) [
          | inl e ↦ rw e (λ ok. absurd (ok refl))
          | inr e ↦
              let read : r.1 ≡ on sector =
                subst
                  (λ d.
                    (dev.read_block sector (c.bufs i).buf d).0 ≢ 1
                    → (dev.read_block sector (c.bufs i).buf d).1 ≡ on sector)
                  (sym v.same_disk) (good sector (c.bufs i).buf) (λ f. ground (arith, e, f)) in
              rw e (λ ok. record {
                inside = h;
                block = ap (λ x. x.buf) (update_eq c.bufs i new i refl) ∙ read;
                valid = record {
                  clock_inside = v.clock_inside;
                  clean =
                      λ j l. update_ind (λ b. dirty b ≡ false) c.bufs i new j refl (v.clean j l);
                  stored = λ j l.
                      update_ind (λ b. b.cur ≢ no_sector → b.buf ≡ on b.cur) c.bufs i new j
                        (λ n. read) (v.stored j l);
                  same_disk = v.same_disk;
                };
              })
        ]

    replace-IsBlock :
        (c : Cache Block Disk)
        → IsClean disk c
        → (replace dev sector size c).0 ≢ fs_error
        → IsBlock disk sector (replace dev sector size c)
    unfolding replace pick
    replace-IsBlock c v =
        let r = fs_victim c.clock size c.bufs in
        let chosen = fs_victim-Chosen c.clock size c.bufs v.clock_inside in
        let picked : Cache Block Disk = record c { clock = r.1; bufs = r.2 } in
        let valid = Same-IsClean disk c r.2 r.1 chosen.unchanged chosen.clock_bound v in
        rw (fs_write-clean r.0 picked (valid.clean r.0 chosen.victim_bound))
          (fill-IsBlock r.0 picked valid chosen.victim_bound)

    touched-IsBlock :
        (c : Cache Block Disk) (i : ℕ)
        → IsClean disk c
        → i < size
        → (c.bufs i).cur ≡ sector
        → IsBlock disk sector
            (i, set_buf dev i (record (c.bufs i) { state = bit_or (c.bufs i).state 1 }) c)
    touched-IsBlock c i v h e =
        let s =
          set_state-Same c.bufs i (bit_or (c.bufs i).state 1) (hit_keeps_dirty (c.bufs i).state) in
        record {
          inside = h;
          block = s.bufs_same i ∙ v.stored i h (λ f. real (sym e ∙ f)) ∙ ap on e;
          valid = Same-IsClean disk c _ c.clock s v.clock_inside v;
        }

    -- A read of a cache that is clean on the disk, where the device reads what it says unless it
    -- returns 1.
    pub fs_read-IsBlock :
        (base_addr first : ℕ) (c : Cache Block Disk)
        → add32 first base_addr ≡ sector
        → IsClean disk c
        → (fs_read dev base_addr first size c).0 ≢ fs_error
        → IsBlock disk sector (fs_read dev base_addr first size c)
    unfolding fs_read
    fs_read-IsBlock base_addr first c e v =
        elim (find_buf-cases dev size sector size 0 c.bufs (omega arith)
          (λ j l. absurd (omega arith))) [
            | inl (miss, absent) ↦
                let yes : (find_buf dev size 0 sector c.bufs == size) ≡ true =
                  ground (arith, miss) in
                rw (e, yes) (replace-IsBlock c v)
            | inr (inside, holds) ↦
                let no : (find_buf dev size 0 sector c.bufs == size) ≡ false =
                  ground (arith, inside) in
                rw (e, no) (λ ok. touched-IsBlock c _ v inside holds)
          ]
