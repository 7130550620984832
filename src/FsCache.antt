-- ===== src/FsCache.antt =====
-- kernel/fs/fscache/fscache.c: the cache of blocks of the disk. The functions for buffers of 4096 and
-- of 512 bytes are the same but for the number of sectors, and have one definition here: a buffer
-- holds a block, whatever that is. The functions for LRU have empty bodies in the source.
pub mod Victim
pub mod View
pub mod Fill
pub mod Read
pub mod Lookup
pub mod Clean
mod Tests
use mini_operating_system.Prelude.{
  ℕ, zero, suc, ◌+◌, ◌-◌, ◌^◌, Bool, ◌&&◌, not, Option, none, some, bit_and, bit_or, leb, ltb, ◌==◌,
  if◌then◌else◌, word, add32, update,
}

-- `read_block` and `write_block` of kernel/fs/fat/utils.c for one size of block: the value, 1 for an
-- error, and what is left in the buffer and on the disk.
pub record Device (Block Disk : Type 0) : Type 0 where
  pub read_block : (sector : ℕ) → Block → Disk → ℕ × Block
  pub write_block : Block → (sector : ℕ) → Disk → ℕ × Disk

-- `cur` is the first sector of the block, 0xffffffff for none; bit 0 of `state` says that the buffer
-- was used, bit 1 that it has to be written.
pub record Buf (Block : Type 0) : Type 0 where
  pub buf : Block
  pub cur : ℕ
  pub state : ℕ

abbrev pub no_sector : ℕ
no_sector = 0xffffffff

abbrev pub fs_error : ℕ
fs_error = 0xffffffff

abbrev pub referenced : {Block : Type 0} → Buf Block → Bool
referenced b = not (bit_and b.state 1 == 0)

abbrev pub dirty : {Block : Type 0} → Buf Block → Bool
dirty b = not (bit_and b.state 2 == 0)

-- `if ((++(*clock_head)) >= size) *clock_head = 0;`
abbrev pub advance : (clock size : ℕ) → ℕ
advance clock size = if leb size (clock + 1) then 0 else clock + 1

module _ {Block : Type 0} where
  abbrev pub clear_reference : Buf Block → Buf Block
  clear_reference b = record b { state = bit_and b.state 0xfe }

  -- The first sweep: the victim, if it finds one, and the clock and buffers that it leaves.
  unfoldable pub sweep_1 :
      (rounds clock size : ℕ) → (ℕ → Buf Block) → Option ℕ × ℕ × (ℕ → Buf Block)
  sweep_1 zero clock size bufs = (none, clock, bufs)
  sweep_1 (suc rounds) clock size bufs =
      let b = bufs clock in
      let passed = if referenced b then update bufs clock (clear_reference b) else bufs in
      let rest = sweep_1 rounds (advance clock size) size passed in
      if not (referenced b) && not (dirty b) then (some clock, clock, bufs) else rest

  unfoldable pub sweep_2 : (rounds clock size : ℕ) → (ℕ → Buf Block) → Option ℕ × ℕ
  sweep_2 zero clock size bufs = (none, clock)
  sweep_2 (suc rounds) clock size bufs =
      let rest = sweep_2 rounds (advance clock size) size bufs in
      if not (dirty (bufs clock)) then (some clock, clock) else rest

  -- The victim, the clock and the buffers. If all are to be written it is the one at the clock.
  unfoldable pub fs_victim : (clock size : ℕ) → (ℕ → Buf Block) → ℕ × ℕ × (ℕ → Buf Block)
  unfolding sweep_1 sweep_2
  fs_victim clock size bufs =
      let (first, clock1, swept) = sweep_1 size clock size bufs in
      let (second, clock2) = sweep_2 size clock1 size swept in
      elim first [
        | some index ↦ (index, advance clock1 size, swept)
        | none ↦ elim second [
          | some index ↦ (index, advance clock2 size, swept)
          | none ↦ (clock2, advance clock2 size, swept)
        ]
      ]

-- The cache: its buffers, the clock, and the disk.
pub record Cache (Block Disk : Type 0) : Type 0 where
  pub bufs : ℕ → Buf Block
  pub clock : ℕ
  pub disk : Disk

module _ {Block Disk : Type 0} (dev : Device Block Disk) where
  abbrev pub set_buf : ℕ → Buf Block → Cache Block Disk → Cache Block Disk
  set_buf i b c = record c { bufs = update c.bufs i b }

  -- `fs_write_4k` and `fs_write_512` of buffer `i`
  unfoldable pub fs_write : (i : ℕ) → Cache Block Disk → ℕ × Cache Block Disk
  fs_write i c =
      let b = c.bufs i in
      let (err, disk) = dev.write_block b.buf b.cur c.disk in
      let written = record c { disk = disk } in
      if not (b.cur == no_sector) && dirty b
      then (if err == 1
          then (1, written)
          else (0, set_buf i (record b { state = bit_and b.state 1 }) written))
      else (0, c)

  -- The index of the first buffer with the sector, or `size`
  unfoldable pub find_buf : (rounds index sector : ℕ) → (ℕ → Buf Block) → ℕ
  find_buf zero index sector bufs = index
  find_buf (suc rounds) index sector bufs =
      let rest = find_buf rounds (suc index) sector bufs in
      if (bufs index).cur == sector then index else rest

  abbrev pub pick : (size : ℕ) → Cache Block Disk → ℕ × Cache Block Disk
  unfolding fs_victim
  pick size c =
      let (index, clock, bufs) = fs_victim c.clock size c.bufs in
      (index, record c { clock = clock; bufs = bufs })

  -- The block is read in the place of the buffer that `fs_write` has written, or has not.
  unfoldable pub fill : (sector index : ℕ) → ℕ × Cache Block Disk → ℕ × Cache Block Disk
  fill sector index (failed, written) =
      let b = written.bufs index in
      let (err, block) = dev.read_block sector b.buf written.disk in
      if failed == 1
      then (fs_error, written)
      else if err == 1
      then (fs_error, set_buf index (record b { buf = block }) written)
      else (index, set_buf index (record { buf = block; cur = sector; state = 1 }) written)

  -- The victim is written if it has to be, and the block read in its place.
  unfoldable pub replace : (sector size : ℕ) → Cache Block Disk → ℕ × Cache Block Disk
  unfolding fs_write pick fill
  replace sector size c =
      let (index, picked) = pick size c in fill sector index (fs_write index picked)

  -- `fs_read_4k` and `fs_read_512`; `base_addr` is `fat_info.base_addr`.
  unfoldable pub fs_read : (base_addr first size : ℕ) → Cache Block Disk → ℕ × Cache Block Disk
  unfolding find_buf replace
  fs_read base_addr first size c =
      let sector = add32 first base_addr in
      let index = find_buf size 0 sector c.bufs in
      let b = c.bufs index in
      if index == size
      then replace sector size c
      else (index, set_buf index (record b { state = bit_or b.state 1 }) c)

  -- `fs_clr_4k` and `fs_clr_512`; `blank` is a block of zeros.
  unfoldable pub fs_clr : (blank : Block) (cur size : ℕ) → Cache Block Disk → ℕ × Cache Block Disk
  unfolding fs_write pick
  fs_clr blank cur size c =
      let (index, picked) = pick size c in
      let (failed, written) = fs_write index picked in
      if failed == 1
      then (1, written)
      else (0, set_buf index (record { buf = blank; cur = cur; state = 0 }) written)

-- The functions for buffers of 512 bytes, blocks of one sector.
module _ {Block Disk : Type 0} (dev : Device Block Disk) where
  abbrev pub fs_write_512 : (i : ℕ) → Cache Block Disk → ℕ × Cache Block Disk
  fs_write_512 = fs_write dev

  abbrev pub fs_read_512 : (base_addr first size : ℕ) → Cache Block Disk → ℕ × Cache Block Disk
  fs_read_512 = fs_read dev

  abbrev pub fs_clr_512 : (blank : Block) (cur size : ℕ) → Cache Block Disk → ℕ × Cache Block Disk
  fs_clr_512 = fs_clr dev

abbrev pub fs_victim_512 :
    {Block : Type 0} → (clock size : ℕ) → (ℕ → Buf Block) → ℕ × ℕ × (ℕ → Buf Block)
fs_victim_512 = fs_victim
