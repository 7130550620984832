-- ===== src/Fat/Find.antt =====
-- `fs_find` of kernel/fs/fat/fat.c: the search of a path through the directories.
use mini_operating_system.Prelude.{
  ℕ, zero, suc, ◌+◌, true, false, ◌&&◌, Option, none, some, bit_and, ltb, leb, ◌==◌, if◌then◌else◌,
  add32, sub32,
}
use mini_operating_system.FsCache.{Device}
use mini_operating_system.Fat.{
  Bytes, done, failed, spins, Act, then_do, beside, pure, File, Fs, read_dir_sector,
}
use mini_operating_system.Fat.Bytes.{
  sectors_per_cluster, last_cluster, fs_dataclus2sec, get_start_cluster,
}
use mini_operating_system.Fat.Table.{get_fat_entry_value}
use mini_operating_system.Fat.Path.{fs_next_slash, fs_cmp_filename}

-- A name is at most 256 characters, the length of `path`.
abbrev pub name_fuel : ℕ
name_fuel = 256

abbrev pub no_entry : ℕ
no_entry = 0xffffffff

-- `for (i = 0; i < 512; i += 32)` up to the first entry where the body jumps out
unfoldable pub each_entry : {A : Type 0} → (rounds i : ℕ) → (ℕ → Option A) → Option A
each_entry zero i body = none
each_entry (suc rounds) i body =
    let rest = each_entry rounds (i + 32) body in elim (body i) [ some a ↦ some a | none ↦ rest ]

-- What the loop over the entries of a sector meets: the end of the directory, or the entry at `i`.
pub data Look : Type 0 where
  at_end : Look
  at_entry : ℕ → Look

abbrev pub look_for : (buf name : Bytes) → ℕ → Option Look
unfolding fs_cmp_filename
look_for buf name i =
    if buf i == 0
    then some at_end
    else if (fs_cmp_filename (λ k. buf (i + k)) name == 0) && (bit_and (buf (i + 11)) 0x08 == 0)
    then some (at_entry i)
    else none

-- 32 bytes of a sector as `entry.data`
abbrev pub entry_at : (buf : Bytes) → (i : ℕ) → Bytes → Bytes
entry_at buf i old k = if ltb k 32 then buf (i + k) else old k

abbrev pub take_entry : {Disk : Type 0} → (index i : ℕ) → Fs Disk × File → Fs Disk × File
take_entry index i (w, file) =
    let b = w.dir_data_buf index in
    (
      w,
      record file {
        dir_entry_pos = i;
        dir_entry_sector = sub32 b.cur w.info.base_addr;
        entry = entry_at b.buf i file.entry;
      },
    )

module _ {Disk : Type 0} (dev : ℕ → Device Bytes Disk) where
  -- The sector behind the last one of a cluster: the first of the next cluster, or none.
  unfoldable pub next_dir_cluster : (index : ℕ) → Act (Fs Disk) (Option ℕ)
  unfolding read_dir_sector get_fat_entry_value fs_dataclus2sec
  next_dir_cluster index w =
      let from = add32 (sub32 (w.dir_data_buf index).cur (sectors_per_cluster w.info)) 1 in
      then_do (get_fat_entry_value dev from w) (λ next_clus v.
        if leb next_clus (last_cluster v.info)
        then then_do (read_dir_sector dev (fs_dataclus2sec v.info next_clus) v) (λ j. pure (some j))
        else done none v)

  -- The loops over the sectors of a directory, from sector `sec` of a cluster, which is in buffer
  -- `index`. Each sector read takes fuel.
  unfoldable pub find_entry : (fuel sec index : ℕ) → Act (Fs Disk × File) (Unit {0})
  unfolding each_entry next_dir_cluster read_dir_sector
  find_entry zero sec index s = spins
  find_entry (suc fuel) sec index (w, file) =
      let b = w.dir_data_buf index in
      let spc = sectors_per_cluster w.info in
      elim (leb sec spc) [
        | false ↦ find_entry fuel 1 index (w, file)
        | true ↦ elim (each_entry 16 0 (look_for b.buf w.filename11)) [
          | some at_end ↦ done tt (w, file)
          | some (at_entry i) ↦ done tt (take_entry index i (w, file))
          | none ↦ elim (ltb sec spc) [
            | true ↦
                then_do (beside file (read_dir_sector dev (add32 b.cur 1) w))
                  (λ j. find_entry fuel (sec + 1) j)
            | false ↦
                then_do (beside file (next_dir_cluster index w))
                  (λ o. elim o [ some j ↦ find_entry fuel (sec + 1) j | none ↦ pure tt ])
          ]
        ]
      ]

  -- What `fs_find` does once the part of the path is looked up: it is at its end, or it opens a
  -- directory, `some index`.
  unfoldable pub descend : (next_slash at : ℕ) → Act (Fs Disk × File) (Option ℕ)
  unfolding read_dir_sector fs_dataclus2sec get_start_cluster
  descend next_slash at (w, file) =
      let next_clus = get_start_cluster file in
      if file.dir_entry_pos == no_entry
      then done none (w, file)
      else if file.path (at + next_slash) == 0
      then done none (w, file)
      else if bit_and (file.entry 11) 0x10 == 0
      then failed (w, file)
      else if leb next_clus (last_cluster w.info)
      then then_do (beside file (read_dir_sector dev (fs_dataclus2sec w.info next_clus) w))
          (λ j. pure (some j))
      else failed (w, file)

  -- The loop over the parts of the path, from `at`, in the directory with its sector in `index`
  unfoldable pub find_parts : (fuel depth at index : ℕ) → Act (Fs Disk × File) (Unit {0})
  unfolding fs_next_slash find_entry descend
  find_parts fuel zero at index s = spins
  find_parts fuel (suc depth) at index (w, file) =
      let (next_slash, name) = fs_next_slash name_fuel (λ k. file.path (at + k)) w.filename11 in
      then_do
        (find_entry fuel 1 index
          (record w { filename11 = name }, record file { dir_entry_pos = no_entry }))
        (λ _ s.
          then_do (descend next_slash at s) (λ o. elim o [
            | none ↦ pure tt
            | some j ↦ find_parts fuel depth (at + next_slash + 1) j
          ]))

  unfoldable pub fs_find : (fuel : ℕ) → Act (Fs Disk × File) (Unit {0})
  unfolding read_dir_sector fs_dataclus2sec find_parts
  fs_find fuel (w, file) =
      if file.path 0 == b'/'
      then then_do (beside file (read_dir_sector dev (fs_dataclus2sec w.info 2) w))
          (λ index. find_parts fuel fuel 1 index)
      else failed (w, file)
