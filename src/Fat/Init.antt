-- ===== src/Fat/Init.antt =====
-- The start of the file system in kernel/fs/fat/fat.c: the checks of the boot sector, empty buffers.
use mini_operating_system.Prelude.{
  ℕ, ◌*◌, ◌/◌, ◌%◌, Bool, false, not, ltb, ◌==◌, if◌then◌else◌, word, add32, sub32,
}
use mini_operating_system.FsCache.{Device, Buf, no_sector}
use mini_operating_system.Fat.{
  Bytes, done, Act, ◌>>=◌, ◌>>◌, gets, modify, or_fail, Fs, FsInfo, fat_buf_num, dir_data_buf_num,
}
use mini_operating_system.Fat.Bytes.{
  get_u16, get_u32, sector_size, sectors_per_cluster, reserved_sectors, num_of_sectors_per_fat,
}

-- The fields at 17, 22, 19 and 32 of the boot sector
abbrev pub max_root_dir_entries : FsInfo → ℕ
unfolding get_u16
max_root_dir_entries info = get_u16 info.bpb 17

abbrev pub sectors_per_fat : FsInfo → ℕ
unfolding get_u16
sectors_per_fat info = get_u16 info.bpb 22

abbrev pub num_of_small_sectors : FsInfo → ℕ
unfolding get_u16
num_of_small_sectors info = get_u16 info.bpb 19

abbrev pub num_of_sectors : FsInfo → ℕ
unfolding get_u32
num_of_sectors info = get_u32 info.bpb 32

-- The sectors of the two tables with those before them
abbrev pub meta_sectors : FsInfo → ℕ
meta_sectors info = add32 (reserved_sectors info) (num_of_sectors_per_fat info * 2 % word)

-- A division by 0 is 0 here; in the source it is undefined.
abbrev pub data_clusters : FsInfo → ℕ
data_clusters info =
    sub32 (sub32 (num_of_sectors info) (reserved_sectors info))
      (num_of_sectors_per_fat info * 2 % word)
    / sectors_per_cluster info

module _ {Disk : Type 0} (dev : ℕ → Device Bytes Disk) where
  abbrev pub set_info : (FsInfo → FsInfo) → Act (Fs Disk) (Unit {0})
  set_info f = modify (λ w. record w { info = f w.info })

  -- `read_block(buf, sector, 1)`: whether it did not return 1, and the bytes
  abbrev pub read_meta : (sector : ℕ) → Act (Fs Disk) (Bool × Bytes)
  read_meta sector w =
      let (err, block) = (dev 1).read_block sector (λ _. 0) w.disk in done (not (err == 1), block) w

  -- The checks that the partition is FAT32 with sectors of 512 bytes
  abbrev pub is_fat32 : FsInfo → Bool
  is_fat32 info =
      if not (sector_size info == 512)
      then false
      else if not (max_root_dir_entries info == 0)
      then false
      else if not (sectors_per_fat info == 0)
      then false
      else if not (num_of_small_sectors info == 0)
      then false
      else not (ltb (data_clusters info) 65525)

  abbrev pub no_info : FsInfo
  no_info = record {
    base_addr = 0;
    total_data_clusters = 0;
    first_data_sector = 0;
    bpb = λ _. 0;
    fat_fs_info = λ _. 0;
  }

  -- `total_data_clusters` is set also where a check of it fails, not where an earlier one does; the
  -- caller stops in both cases.
  unfoldable pub init_fat_info : Act (Fs Disk) (Unit {0})
  unfolding get_u32
  init_fat_info = do
    set_info (λ _. no_info)
    (ok, mbr) ← read_meta 0
    or_fail ok
    set_info (λ i. record i { base_addr = get_u32 mbr 454 })
    base ← gets (λ w. w.info.base_addr)
    (ok_bpb, boot) ← read_meta base
    set_info (λ i. record i { bpb = boot })
    or_fail ok_bpb
    fat32 ← gets (λ w. is_fat32 w.info)
    or_fail fat32
    set_info (λ i. record i {
      total_data_clusters = data_clusters i;
      first_data_sector = meta_sectors i;
    })
    (ok_info, fs_info) ← read_meta (add32 1 base)
    set_info (λ i. record i { fat_fs_info = fs_info })

  abbrev pub empty_bufs : (size : ℕ) → (ℕ → Buf Bytes) → ℕ → Buf Bytes
  empty_bufs size bufs i =
      if ltb i size then record (bufs i) { cur = no_sector; state = 0 } else bufs i

  unfoldable pub init_fat_buf : Fs Disk → Fs Disk
  init_fat_buf w = record w { fat_buf = empty_bufs fat_buf_num w.fat_buf }

  unfoldable pub init_dir_buf : Fs Disk → Fs Disk
  init_dir_buf w = record w { dir_data_buf = empty_bufs dir_data_buf_num w.dir_data_buf }

  unfoldable pub init_fs : Act (Fs Disk) (Unit {0})
  unfolding init_fat_info init_fat_buf init_dir_buf
  init_fs = init_fat_info >> modify init_fat_buf >> modify init_dir_buf
