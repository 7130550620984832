-- ===== src/Fat/Dir.antt =====
-- kernel/fs/fat/dir.c: a directory is opened and read entry by entry.
use mini_operating_system.Prelude.{
  ℕ, zero, suc, ◌+◌, ◌-◌, ◌/◌, true, false, ◌&&◌, not, Option, none, some, bit_and, ltb, leb, ◌==◌,
  if◌then◌else◌, add32, sub32,
}
use mini_operating_system.FsCache.{Device}
use mini_operating_system.Fat.{
  Bytes, Outcome, done, failed, spins, then_do, beside, pure, File, Fs, read_dir_sector,
}
use mini_operating_system.Fat.Bytes.{
  last_cluster, sectors_per_cluster, fs_dataclus2sec, get_start_cluster,
}
use mini_operating_system.Fat.Table.{get_fat_entry_value}
use mini_operating_system.Fat.Find.{Look, at_end, at_entry, each_entry, entry_at, fs_find, no_entry}
use mini_operating_system.Fat.Reading.{copy_path, set_path}

-- `FS_FAT_DIR`
pub record FatDir : Type 0 where
  pub cur_sector : ℕ
  pub loc : ℕ
  pub sec : ℕ

-- Long paths and removed files are passed over.
abbrev pub listed : (buf : Bytes) → ℕ → Option Look
listed buf i =
    if buf i == 0
    then some at_end
    else if not (buf i == 0xe5) && (bit_and (buf (i + 11)) 0x08 == 0)
    then some (at_entry i)
    else none

-- The number of entries from `loc` on
abbrev pub entries_from : (loc : ℕ) → ℕ
entries_from loc = if leb 512 loc then 0 else (543 - loc) / 32

module _ {Disk : Type 0} where
  abbrev pub keep_found : {A : Type 0} → Outcome (Fs Disk × File) A → Outcome (Fs Disk) A
  keep_found (done a (w, f)) = done a (record w { dir_find = f })
  keep_found (failed (w, f)) = failed (record w { dir_find = f })
  keep_found spins = spins

module _ {Disk : Type 0} (dev : ℕ → Device Bytes Disk) where
  abbrev pub DirAct : Type 0 → Type 0
  DirAct A = Fs Disk × FatDir → Outcome (Fs Disk × FatDir) A

  -- The directory's first sector is in the cache.
  abbrev pub open_sector : (sector : ℕ) → DirAct (Unit {0})
  unfolding read_dir_sector
  open_sector sector (w, dir) =
      then_do (beside (record dir { cur_sector = sector }) (read_dir_sector dev sector w))
        (λ _. pure tt)

  -- The path is looked up into `dir_find`, whose other fields stay as they are.
  abbrev pub find_dir : (fuel : ℕ) (filename : Bytes) → Fs Disk → Outcome (Fs Disk) (Unit {0})
  unfolding fs_find copy_path
  find_dir fuel filename w =
      keep_found
        (fs_find dev fuel (w, record (w.dir_find) { path = set_path filename w.dir_find.path }))

  -- The directory that `fs_find` has found
  unfoldable pub open_found : DirAct (Unit {0})
  unfolding get_start_cluster fs_dataclus2sec open_sector
  open_found (w, dir) =
      if w.dir_find.dir_entry_pos == no_entry
      then failed (w, dir)
      else if bit_and (w.dir_find.entry 11) 0x10 == 0
      then failed (w, dir)
      else open_sector (fs_dataclus2sec w.info (get_start_cluster w.dir_find)) (w, dir)

  unfoldable pub fs_open_dir : (fuel : ℕ) (filename : Bytes) → DirAct (Unit {0})
  unfolding fs_dataclus2sec open_sector find_dir open_found
  fs_open_dir fuel filename (w, dir) =
      if filename 0 == b'/'
      then then_do (open_sector (fs_dataclus2sec w.info 2) (w, record dir { loc = 0; sec = 1 }))
          (λ _ (v, d).
            if filename 1 == 0
            then done tt (v, d)
            else then_do (beside d (find_dir fuel filename v)) (λ _ s. open_found s))
      else failed (w, dir)

  -- The next sector of the directory: in the cluster, or the first of the next one
  abbrev pub next_sector : (index sec : ℕ) → DirAct (Option ℕ)
  unfolding read_dir_sector
  next_sector index sec (w, dir) =
      let b = w.dir_data_buf index in
      let cur = add32 b.cur sec in
      then_do
        (beside (record dir { sec = sec + 1; loc = 0; cur_sector = cur })
          (read_dir_sector dev cur w))
        (λ j. pure (some j))

  unfoldable pub to_next_cluster : (index : ℕ) → DirAct (Option ℕ)
  unfolding get_fat_entry_value fs_dataclus2sec read_dir_sector
  to_next_cluster index (w, dir) =
      let from = add32 (sub32 (w.dir_data_buf index).cur (sectors_per_cluster w.info)) 1 in
      then_do (beside dir (get_fat_entry_value dev from w)) (λ next_clus (v, d).
        let cur = fs_dataclus2sec v.info next_clus in
        if leb next_clus (last_cluster v.info)
        then then_do
            (beside (record d { sec = 1; loc = 0; cur_sector = cur }) (read_dir_sector dev cur v))
            (λ j. pure (some j))
        else done none (v, d))

  -- The entry at the place where the directory is read, or none behind the last. Each sector read
  -- takes fuel.
  unfoldable pub read_entries : (fuel sec index : ℕ) → Bytes → DirAct (Option Bytes)
  unfolding each_entry next_sector to_next_cluster
  read_entries zero sec index buf s = spins
  read_entries (suc fuel) sec index buf (w, dir) =
      let b = w.dir_data_buf index in
      let spc = sectors_per_cluster w.info in
      elim (leb sec spc) [
        | false ↦ read_entries fuel dir.sec index buf (w, dir)
        | true ↦ elim (each_entry (entries_from dir.loc) dir.loc (listed b.buf)) [
          | some at_end ↦ done none (w, dir)
          | some (at_entry i) ↦ done (some (entry_at b.buf i buf)) (w, record dir { loc = i + 32 })
          | none ↦
              then_do
                (if ltb sec spc
                  then next_sector index sec (w, dir)
                  else to_next_cluster index (w, dir))
                (λ o. elim o [ some j ↦ read_entries fuel (sec + 1) j buf | none ↦ pure none ])
        ]
      ]

  unfoldable pub fs_read_dir : (fuel : ℕ) → Bytes → DirAct (Option Bytes)
  unfolding read_dir_sector read_entries
  fs_read_dir fuel buf (w, dir) =
      then_do (beside dir (read_dir_sector dev dir.cur_sector w))
        (λ index (v, d). read_entries fuel d.sec index buf (v, d))
