-- ===== src/Fat/Create.antt =====
-- `fs_find_empty_entry`, `fs_create_with_attr` and `fs_create` of kernel/fs/fat/fat.c.
use mini_operating_system.Prelude.{
  ℕ, zero, suc, ◌+◌, ◌-◌, Bool, true, false, ◌&&◌, ◌||◌, not, Option, none, some, ltb, leb, ◌==◌,
  if◌then◌else◌, add32, sub32, update,
}
use mini_operating_system.FsCache.{Device, fs_clr}
use mini_operating_system.Fat.{
  Bytes, done, failed, spins, Act, then_do, beside, ◌>>=◌, ◌>>◌, pure, hang, gets, or_fail, attempt,
  with_local, on_first, File, Fs, read_dir_sector, dir_cache, set_dir_cache, dir_data_buf_num,
}
use mini_operating_system.Fat.Bytes.{
  sectors_per_cluster, last_cluster, fs_dataclus2sec, fs_sec2dataclus, get_start_cluster,
}
use mini_operating_system.Fat.Table.{get_fat_entry_value, fs_modify_fat}
use mini_operating_system.Fat.Path.{fs_next_slash}
use mini_operating_system.Fat.Find.{each_entry, fs_find, no_entry, name_fuel}
use mini_operating_system.Fat.Reading.{fs_open, fs_fflush, copy_bytes}
use mini_operating_system.Fat.Write.{fs_alloc}

-- An entry that is empty or of a file that was removed
abbrev pub free_entry : (buf : Bytes) → ℕ → Option ℕ
free_entry buf i = if buf i == 0 || buf i == 0xe5 then some i else none

-- `for (i = 255; i >= 0; i--)`, `rounds` indices down to 0
unfoldable pub last_index : (rounds : ℕ) → (ℕ → Bool) → Option ℕ
last_index zero test = none
last_index (suc rounds) test = if test rounds then some rounds else last_index rounds test

abbrev pub clear_path : (l1 l2 : ℕ) → File → File
clear_path l1 l2 file = record file { path = λ k. if leb l1 k && leb k l2 then 0 else file.path k }

-- The name behind the last slash at the start of `path`
abbrev pub name_path : (l1 l2 : ℕ) → (filename path : Bytes) → Bytes
name_path l1 l2 filename path = update (copy_bytes (l2 - l1) (l1 + 1) 0 filename path) (l2 - l1) 0

-- The new entry: a name, `attr`, and zeros
abbrev pub new_entry : (name : Bytes) (attr at : ℕ) → Bytes → Bytes
new_entry name attr at buf =
    copy_bytes 20 0 (at + 12) (λ _. 0) (update (copy_bytes 11 0 at name buf) (at + 11) attr)

module _ {Disk : Type 0} (dev : ℕ → Device Bytes Disk) where
  -- A new cluster of the directory, behind the one that ends in buffer `index`
  unfoldable pub extend_directory : (index : ℕ) → Act (Fs Disk) ℕ
  unfolding fs_alloc fs_modify_fat fs_sec2dataclus fs_dataclus2sec
  extend_directory index = do
    new ← fs_alloc dev
    clus ← gets (λ w.
        fs_sec2dataclus w.info
          (add32 (sub32 (w.dir_data_buf index).cur (sectors_per_cluster w.info)) 1))
    fs_modify_fat dev clus new
    (λ w.
        let (err, c) =
          fs_clr (dev 1) (λ _. 0) (fs_dataclus2sec w.info new) dir_data_buf_num (dir_cache w) in
        if err == 1 then failed (set_dir_cache w c) else done new (set_dir_cache w c))

  -- The first sector of the next cluster of the directory, a new one behind the last
  unfoldable pub next_or_new : (index : ℕ) → Act (Fs Disk) ℕ
  unfolding get_fat_entry_value extend_directory read_dir_sector fs_dataclus2sec
  next_or_new index w =
      let from = add32 (sub32 (w.dir_data_buf index).cur (sectors_per_cluster w.info)) 1 in
      then_do (get_fat_entry_value dev from w) (λ next v.
        then_do (if ltb (last_cluster v.info) next then extend_directory index v else done next v)
          (λ clus u. read_dir_sector dev (fs_dataclus2sec u.info clus) u))

  -- The entry and its buffer. Each sector read takes fuel.
  unfoldable pub find_empty : (fuel sec index : ℕ) → Act (Fs Disk) (ℕ × ℕ)
  unfolding each_entry next_or_new read_dir_sector
  find_empty zero sec index w = spins
  find_empty (suc fuel) sec index w =
      let b = w.dir_data_buf index in
      let spc = sectors_per_cluster w.info in
      elim (leb sec spc) [
        | false ↦ find_empty fuel 1 index w
        | true ↦ elim (each_entry 16 0 (free_entry b.buf)) [
          | some i ↦ done (i, index) w
          | none ↦ elim (ltb sec spc) [
            | true ↦
                then_do (read_dir_sector dev (add32 b.cur sec) w) (λ j. find_empty fuel (sec + 1) j)
            | false ↦ then_do (next_or_new index w) (λ j. find_empty fuel (sec + 1) j)
          ]
        ]
      ]

  abbrev pub fs_find_empty_entry : (fuel index : ℕ) → Act (Fs Disk) (ℕ × ℕ)
  unfolding find_empty
  fs_find_empty_entry fuel index = find_empty fuel 1 index

  -- The directory that the new file is in, opened: the buffer of its first sector
  unfoldable pub open_parent : (fuel l1 l2 : ℕ) → Act (Fs Disk × File) ℕ
  unfolding fs_find read_dir_sector get_start_cluster fs_dataclus2sec
  open_parent fuel l1 l2 (w, file) =
      if l1 == 0
      then then_do (beside file (read_dir_sector dev (fs_dataclus2sec w.info 2) w))
          (λ index (v, f). done index (v, record f { dir_entry_pos = 2 }))
      else then_do (fs_find dev fuel (w, clear_path l1 l2 file)) (λ _ (v, f).
        let clus = get_start_cluster f in
        if f.dir_entry_pos == no_entry
        then failed (v, f)
        else then_do (beside f (read_dir_sector dev (fs_dataclus2sec v.info clus) v))
            (λ index (u, g). done index (u, record g { dir_entry_pos = clus })))

  abbrev pub fill_entry :
      (filename : Bytes) (attr l1 l2 at index : ℕ) → Act (Fs Disk × File) (Unit {0})
  unfolding fs_next_slash
  fill_entry filename attr l1 l2 at index (w, file) =
      let path = name_path l1 l2 filename file.path in
      let name = (fs_next_slash name_fuel path w.filename11).1 in
      let b = w.dir_data_buf index in
      done tt (
        record w {
          filename11 = name;
          dir_data_buf =
              update w.dir_data_buf index
                (record b { buf = new_entry name attr at b.buf; state = 3 });
        },
        record file { path = path },
      )

  -- What is behind the two searches for the last character and the last slash
  unfoldable pub create_at :
      (fuel : ℕ) (filename : Bytes) (attr : ℕ)
      → Option ℕ
      → Option ℕ
      → Act (Fs Disk × File) (Unit {0})
  unfolding open_parent find_empty fs_fflush
  create_at fuel filename attr (some l2) (some l1) = do
    index ← open_parent fuel l1 l2
    (at, found) ← on_first (fs_find_empty_entry fuel index)
    fill_entry filename attr l1 l2 at found
    on_first (fs_fflush dev)
  create_at fuel filename attr none _ = hang
  create_at fuel filename attr (some l2) none = hang

  -- A path with no character or no slash has the index run below 0.
  unfoldable pub create_in :
      (fuel : ℕ) (filename : Bytes) (attr : ℕ) → Act (Fs Disk × File) (Unit {0})
  unfolding fs_open last_index create_at
  create_in fuel filename attr = do
    exists ← attempt (fs_open dev fuel filename)
    or_fail (not exists)
    l2 ← gets (λ s. last_index 256 (λ i. not (s.1.path i == 0)))
    l1 ← gets (λ s. last_index 256 (λ i. s.1.path i == b'/'))
    create_at fuel filename attr l2 l1

  -- `junk` is what the local `file_creat` holds at first.
  unfoldable pub fs_create_with_attr :
      (fuel : ℕ) (junk : File) (filename : Bytes) (attr : ℕ) → Act (Fs Disk) (Unit {0})
  unfolding create_in
  fs_create_with_attr fuel junk filename attr =
      with_local junk (create_in fuel filename attr) >> pure tt

  abbrev pub fs_create : (fuel : ℕ) (junk : File) (filename : Bytes) → Act (Fs Disk) (Unit {0})
  unfolding fs_create_with_attr
  fs_create fuel junk filename = fs_create_with_attr fuel junk filename 0x20
