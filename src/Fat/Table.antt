-- ===== src/Fat/Table.antt =====
-- The table of kernel/fs/fat: its sectors in `fat_buf`, written with their copy, and its entries.
pub mod Entries
mod Hits
pub mod Clean
use mini_operating_system.Prelude.{
  ℕ, zero, suc, ◌+◌, ◌%◌, ◌^◌, Bool, ◌&&◌, not, bit_and, bit_or, ◌==◌, if◌then◌else◌, add32, update,
}
use mini_operating_system.FsCache.{
  fs_victim, Device, Buf, Cache, no_sector, fs_error, dirty, set_buf, find_buf, pick,
}
use mini_operating_system.Fat.{
  Bytes, Outcome, done, failed, spins, Act, then_do, ◌>>=◌, ◌>>◌, pure, gets, modify, Fs,
  fat_buf_num, fat_cache, set_fat_cache, checked,
}
use mini_operating_system.Fat.Bytes.{get_u32, set_u32, num_of_sectors_per_fat, cluster_to_fat_entry}

-- The entry's four high bits stay.
unfoldable pub put_entry : Bytes → (offset value : ℕ) → Bytes
unfolding get_u32 set_u32
put_entry buf offset value =
    set_u32 buf offset (bit_or (bit_and (get_u32 buf offset) 0xf0000000) (value % 2 ^ 28))

unfoldable pub put_at : {Disk : Type 0} → (index offset value : ℕ) → Fs Disk → Fs Disk
put_at index offset value v =
    let b = v.fat_buf index in
    record v {
      fat_buf = update v.fat_buf index (record b { buf = put_entry b.buf offset value; state = 3 });
    }

module _ {Disk : Type 0} (dev : ℕ → Device Bytes Disk) where
  -- The sector is written at its place and at its place in the copy of the table.
  unfoldable pub write_fat_sector : (index : ℕ) → Act (Fs Disk) (Unit {0})
  write_fat_sector index w =
      let b = w.fat_buf index in
      let (err, disk) = (dev 1).write_block b.buf b.cur w.disk in
      let (err_copy, disk_copy) =
        (dev 1).write_block b.buf (add32 (num_of_sectors_per_fat w.info) b.cur) disk in
      if not (b.cur == no_sector) && dirty b
      then (if err == 1
          then failed (record w { disk = disk })
          else if err_copy == 1
          then failed (record w { disk = disk_copy })
          else done tt (record w {
            disk = disk_copy;
            fat_buf = update w.fat_buf index (record b { state = bit_and b.state 1 });
          }))
      else done tt w

  -- The sector is read in the place of buffer `index`.
  unfoldable pub fill_fat_sector : (sec_num index : ℕ) → Act (Fs Disk) ℕ
  fill_fat_sector sec_num index w =
      let b = w.fat_buf index in
      let (err, block) = (dev 1).read_block sec_num b.buf w.disk in
      if err == 1
      then failed (record w { fat_buf = update w.fat_buf index (record b { buf = block }) })
      else done index (record w {
        fat_buf = update w.fat_buf index (record { buf = block; cur = sec_num; state = 1 });
      })

  unfoldable pub replace_fat_sector : (sec_num : ℕ) → Act (Fs Disk) ℕ
  unfolding write_fat_sector fill_fat_sector fs_victim
  replace_fat_sector sec_num w =
      let (index, c) = pick (dev 1) fat_buf_num (fat_cache w) in
      then_do (write_fat_sector index (set_fat_cache w c)) (λ _. fill_fat_sector sec_num index)

  unfoldable pub read_fat_sector : (sec_num : ℕ) → Act (Fs Disk) ℕ
  unfolding find_buf replace_fat_sector
  read_fat_sector sec_num w =
      let index = find_buf (dev 1) fat_buf_num 0 sec_num w.fat_buf in
      let b = w.fat_buf index in
      if index == fat_buf_num
      then replace_fat_sector sec_num w
      else checked index
          (record w { fat_buf = update w.fat_buf index (record b { state = bit_or b.state 1 }) })

  unfoldable pub get_fat_entry_value : (clus : ℕ) → Act (Fs Disk) ℕ
  get_fat_entry_value clus w =
      let (sec_num, offset) = cluster_to_fat_entry w.info clus in
      then_do (read_fat_sector sec_num w)
        (λ index. gets (λ v. get_u32 (v.fat_buf index).buf offset % 2 ^ 28))

  unfoldable pub fs_modify_fat : (clus value : ℕ) → Act (Fs Disk) (Unit {0})
  fs_modify_fat clus value w =
      let (sec_num, offset) = cluster_to_fat_entry w.info clus in
      then_do (read_fat_sector sec_num w) (λ index. modify (put_at index offset value))
