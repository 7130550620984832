-- ===== src/FsCache/Read.antt =====
-- `fs_read_4k` and `fs_read_512` of kernel/fs/fscache/fscache.c against what the cache stands for.
use mini_operating_system.Prelude.{
  ℕ, ◌<◌, ◌≡◌, ◌≢◌, refl, sym, ◌∙◌, ap, inl, inr, true, false, bit_or, ◌==◌, add32, arith,
  Bool-cases,
}
use mini_operating_system.FsCache.{
  Device, Buf, Cache, no_sector, fs_error, fs_victim, fs_write, set_buf, find_buf, pick, replace,
  fill, fs_read,
}
use mini_operating_system.FsCache.Victim.{Same, fs_victim-Chosen, set_state-Same}
use mini_operating_system.FsCache.View.{
  IsDevice, IsStart, Absent, IsCache, Same-Keeps, Same-IsCache, Written, fs_write-Written,
}
use mini_operating_system.FsCache.Lookup.{hit_keeps_dirty, find_buf-cases}
use mini_operating_system.FsCache.Fill.{Fetched, filled-Fetched, Fetched-after}

module _ {Block Disk : Type 0} (on : Disk → ℕ → Block) (count rem size : ℕ) where
  module _ (dev : Device Block Disk) (good : IsDevice on count rem dev) (sector : ℕ)
      (real : sector ≢ no_sector) (start : IsStart on count rem sector) where
    -- The second half of a miss: the chosen buffer is written and filled.
    refill :
        (c : Cache Block Disk) (i : ℕ)
        → IsCache on count rem size c
        → i < size
        → Absent on count rem size c.bufs sector
        → (w : ℕ × Cache Block Disk) → (w.0 ≢ 1 → Written on count rem size c i w.1)
        → (fill dev sector i w).0 ≢ fs_error
        → Fetched on count rem size c sector (fill dev sector i w)
    unfolding fill
    refill c i v h absent w written = elim (Bool-cases (w.0 == 1)) [
      | inl e ↦ rw e (λ ok. absurd (ok refl))
      | inr e ↦ elim (Bool-cases ((dev.read_block sector (w.1.bufs i).buf w.1.disk).0 == 1)) [
        | inl f ↦ rw (e, f) (λ ok. absurd (ok refl))
        | inr f ↦
            let n = written (λ g. ground arith) in
            let absent' : Absent on count rem size w.1.bufs sector =
              λ j l g. absent j l (sym (n.curs j) ∙ g) in
            rw (e, f)
              (λ ok. Fetched-after on count rem size c w.1 sector _ real start n.kept (
                filled-Fetched on count rem size dev w.1 n.valid i h n.on_disk sector real start
                  absent' (dev.read_block sector (w.1.bufs i).buf w.1.disk).1
                  (good.reads sector (w.1.bufs i).buf w.1.disk (λ g. ground arith))))
      ]
    ]

    replace-Fetched :
        (c : Cache Block Disk)
        → IsCache on count rem size c
        → Absent on count rem size c.bufs sector
        → (replace dev sector size c).0 ≢ fs_error
        → Fetched on count rem size c sector (replace dev sector size c)
    unfolding replace pick
    replace-Fetched c v absent ok =
        let r = fs_victim c.clock size c.bufs in
        let chosen = fs_victim-Chosen c.clock size c.bufs v.clock_inside in
        let picked : Cache Block Disk = record c { clock = r.1; bufs = r.2 } in
        let same = chosen.unchanged in
        let valid : IsCache on count rem size picked =
          Same-IsCache on count rem size c r.2 r.1 same v chosen.clock_bound in
        let absent' : Absent on count rem size picked.bufs sector =
          λ j l e. absent j l (sym (same.cur_same j) ∙ e) in
        Fetched-after on count rem size c picked sector _ real start
          (Same-Keeps on count rem size c r.2 r.1 same)
          (refill picked r.0 valid chosen.victim_bound absent' (fs_write dev r.0 picked)
            (fs_write-Written on count rem size dev good picked valid r.0 chosen.victim_bound) ok)

    touched : Cache Block Disk → ℕ → Cache Block Disk
    touched c i = set_buf dev i (record (c.bufs i) { state = bit_or (c.bufs i).state 1 }) c

    touched-Same : (c : Cache Block Disk) (i : ℕ) → Same c.bufs (touched c i).bufs
    unfolding touched
    touched-Same c i = set_state-Same c.bufs i _ (hit_keeps_dirty (c.bufs i).state)

    touched-Fetched :
        (c : Cache Block Disk) (i : ℕ)
        → IsCache on count rem size c
        → i < size
        → (c.bufs i).cur ≡ sector
        → Fetched on count rem size c sector (i, touched c i)
    unfolding touched
    touched-Fetched c i v h e =
        let same = touched-Same c i in
        let b' : Buf Block = record (c.bufs i) { state = bit_or (c.bufs i).state 1 } in
        record {
          inside = h;
          holds_sector = same.cur_same i ∙ e;
          holds_block = λ b w. elim w [
            | inl (j, l, f, g) ↦
                let one : i ≡ j = v.distinct i j h l (e ∙ sym f) (λ z. real (sym e ∙ z)) in
                same.bufs_same i ∙ ap (λ k. (c.bufs k).buf) one ∙ g
            | inr (out, g) ↦ absurd (out i h e)
          ];
          kept = Same-Keeps on count rem size c (touched c i).bufs c.clock same;
          valid = Same-IsCache on count rem size c (touched c i).bufs c.clock same v v.clock_inside;
        }

    -- On a device where a read or write of a block of `count` sectors that does not return 1 does what
    -- it says, a write to the sectors of its block only, for a cache with its clock inside, no block in
    -- two buffers, every buffer that need not be written as on the disk, and blocks that begin at
    -- sectors with one remainder by `count`, and for a sector of that kind that is not the mark
    -- 0xffffffff of an empty buffer: unless it returns an error, the buffer that `fs_read_4k` or
    -- `fs_read_512` answers with holds the sector asked for, with the block that the cache stood for.
    -- At the sectors where blocks begin, but for that mark, the cache stands for the same blocks as
    -- before, and it is of that form again.
    pub fs_read-Fetched :
        (base_addr first : ℕ) (c : Cache Block Disk)
        → add32 first base_addr ≡ sector
        → IsCache on count rem size c
        → (fs_read dev base_addr first size c).0 ≢ fs_error
        → Fetched on count rem size c sector (fs_read dev base_addr first size c)
    unfolding fs_read touched
    fs_read-Fetched base_addr first c e v =
        elim (find_buf-cases dev size sector size 0 c.bufs (omega arith)
          (λ j l. absurd (omega arith))) [
            | inl (miss, absent) ↦
                let yes : (find_buf dev size 0 sector c.bufs == size) ≡ true =
                  ground (arith, miss) in
                rw (e, yes) (replace-Fetched c v absent)
            | inr (inside, holds) ↦
                let no : (find_buf dev size 0 sector c.bufs == size) ≡ false =
                  ground (arith, inside) in
                rw (e, no) (λ ok. touched-Fetched c _ v inside holds)
          ]
