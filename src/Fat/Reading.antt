-- ===== src/Fat/Reading.antt =====
-- Files in kernel/fs/fat/fat.c: `fs_open`, `fs_fflush`, `fs_close`, `fs_read` and `fs_lseek`.
pub mod Steps
mod Rounds
mod Places
mod Parts
pub mod Loop
pub mod Content
use mini_operating_system.Prelude.{
  ℕ, zero, suc, ◌+◌, ◌-◌, ◌*◌, ◌/◌, ◌^◌, Bool, true, false, ◌&&◌, not, bit_and, ltb, leb, ◌==◌,
  if◌then◌else◌, add32, sub32, update,
}
use mini_operating_system.FsCache.{Device, Buf, Cache, no_sector, fs_error}
use mini_operating_system.FsCache
use mini_operating_system.Fat.{
  Bytes, Outcome, done, failed, spins, Act, then_do, beside, ◌>>=◌, ◌>>◌, pure, fail, gets, modify,
  or_fail, on_first, File, Fs, read_dir_sector, dir_cache, set_dir_cache, fat_buf_num,
  dir_data_buf_num, local_data_buf_num,
}
use mini_operating_system.Fat.Bytes.{
  sectors_per_cluster, fs_dataclus2sec, get_start_cluster, fs_wa, get_u32,
}
use mini_operating_system.Fat.Table.{get_fat_entry_value, write_fat_sector}
use mini_operating_system.Fat.Find.{fs_find, no_entry}

-- `for (i = 0; i < 256 && filename[i] != 0; i++) path[i] = filename[i];`
unfoldable pub copy_path : (rounds i : ℕ) → (filename path : Bytes) → Bytes
copy_path zero i filename path = path
copy_path (suc rounds) i filename path =
    let rest = copy_path rounds (i + 1) filename (update path i (filename i)) in
    if filename i == 0 then path else rest

abbrev pub set_path : (filename old : Bytes) → Bytes
unfolding copy_path
set_path filename old = copy_path 256 0 filename (λ k. if ltb k 256 then 0 else old k)

-- `file` before the search in `fs_open`
abbrev pub opening : (filename : Bytes) → File → File
unfolding copy_path
opening filename file = record file {
  data_buf = λ i.
      if ltb i local_data_buf_num
      then record (file.data_buf i) { cur = no_sector; state = 0 }
      else file.data_buf i;
  clock_head = 0;
  path = set_path filename file.path;
  loc = 0;
}

-- `n` bytes of `source` from `from`, put into `target` at `at` by a loop
abbrev pub copy_bytes : (n from at : ℕ) → (source target : Bytes) → Bytes
copy_bytes n from at source target k =
    if leb at k && ltb k (at + n) then source (from + (k - at)) else target k

module _ {Disk : Type 0} (dev : ℕ → Device Bytes Disk) where
  unfoldable pub fs_open : (fuel : ℕ) (filename : Bytes) → Act (Fs Disk × File) (Unit {0})
  unfolding fs_find copy_path
  fs_open fuel filename (w, file) =
      then_do (fs_find dev fuel (w, opening filename file)) (λ _ (v, found).
        if found.dir_entry_pos == no_entry then failed (v, found) else done tt (v, found))

  unfoldable pub flush_fat : (rounds i : ℕ) → Act (Fs Disk) (Unit {0})
  unfolding write_fat_sector
  flush_fat zero i = pure tt
  flush_fat (suc rounds) i = write_fat_sector dev i >> flush_fat rounds (i + 1)

  -- `fs_write_512(dir_data_buf + i)`
  abbrev pub write_dir_sector : (i : ℕ) → Act (Fs Disk) (Unit {0})
  write_dir_sector i w =
      let (err, c) = FsCache.fs_write (dev 1) i (dir_cache w) in
      if err == 1 then failed (set_dir_cache w c) else done tt (set_dir_cache w c)

  unfoldable pub flush_dir : (rounds i : ℕ) → Act (Fs Disk) (Unit {0})
  flush_dir zero i = pure tt
  flush_dir (suc rounds) i = write_dir_sector i >> flush_dir rounds (i + 1)

  -- `write_block(fat_info.fat_fs_info, at + fat_info.base_addr, 1)`
  abbrev pub write_fs_info : (at : ℕ) → Act (Fs Disk) (Unit {0})
  write_fs_info at w =
      let (err, disk) = (dev 1).write_block w.info.fat_fs_info (add32 at w.info.base_addr) w.disk in
      if err == 1 then failed (record w { disk = disk }) else done tt (record w { disk = disk })

  unfoldable pub fs_fflush : Act (Fs Disk) (Unit {0})
  unfolding flush_fat flush_dir
  fs_fflush = do
    write_fs_info 1
    write_fs_info 7
    flush_fat fat_buf_num 0
    flush_dir dir_data_buf_num 0

  -- The data buffers of a file as a cache
  abbrev pub file_cache : Fs Disk × File → Cache Bytes Disk
  file_cache (w, file) = record { bufs = file.data_buf; clock = file.clock_head; disk = w.disk }

  abbrev pub set_file_cache : Fs Disk × File → Cache Bytes Disk → Fs Disk × File
  set_file_cache (w, file) c =
      (record w { disk = c.disk }, record file { data_buf = c.bufs; clock_head = c.clock })

  -- `fs_write_4k(file->data_buf + i)`
  abbrev pub write_data : (i : ℕ) → Act (Fs Disk × File) (Unit {0})
  write_data i s =
      let (err, c) = FsCache.fs_write (dev (sectors_per_cluster s.0.info)) i (file_cache s) in
      if err == 1 then failed (set_file_cache s c) else done tt (set_file_cache s c)

  unfoldable pub flush_data : (rounds i : ℕ) → Act (Fs Disk × File) (Unit {0})
  flush_data zero i = pure tt
  flush_data (suc rounds) i = write_data i >> flush_data rounds (i + 1)

  -- The entry of the file in its sector of the directory
  abbrev pub put_dir_entry : (index : ℕ) → Act (Fs Disk × File) (Unit {0})
  put_dir_entry index (w, file) =
      let b = w.dir_data_buf index in
      done tt (
        record w {
          dir_data_buf =
              update w.dir_data_buf index
                (record b { buf = copy_bytes 32 0 file.dir_entry_pos file.entry b.buf; state = 3 });
        },
        file,
      )

  unfoldable pub fs_close : Act (Fs Disk × File) (Unit {0})
  unfolding read_dir_sector fs_fflush flush_data
  fs_close = do
    at ← gets (λ s. s.1.dir_entry_sector)
    index ← on_first (read_dir_sector dev at)
    put_dir_entry index
    on_first fs_fflush
    flush_data local_data_buf_num 0

  -- `fs_read_4k` of the cluster
  unfoldable pub read_cluster : (clus : ℕ) → Act (Fs Disk × File) ℕ
  read_cluster clus (w, file) =
      let (index, c) =
        FsCache.fs_read (dev (sectors_per_cluster w.info)) w.info.base_addr
          (fs_dataclus2sec w.info clus) local_data_buf_num (file_cache (w, file)) in
      if index == fs_error
      then failed (set_file_cache (w, file) c)
      else done index (set_file_cache (w, file) c)

  -- `for (i = 0; i < start_clus; i++)`: the cluster that many behind `clus`
  unfoldable pub follow : (rounds clus : ℕ) → Act (Fs Disk × File) ℕ
  follow zero clus = pure clus
  follow (suc rounds) clus = on_first (get_fat_entry_value dev clus) >>= follow rounds

  -- The bytes of a cluster, `sectors_per_cluster << 9`
  abbrev pub cluster_bytes : Fs Disk → ℕ
  cluster_bytes w = sectors_per_cluster w.info * 2 ^ 9

  -- `loc >> fs_wa(cluster_bytes)` and `loc & (cluster_bytes - 1)`
  abbrev pub cluster_of : Fs Disk → (loc : ℕ) → ℕ
  cluster_of w loc = loc / 2 ^ fs_wa (cluster_bytes w)

  abbrev pub byte_of : Fs Disk → (loc : ℕ) → ℕ
  byte_of w loc = bit_and loc (sub32 (cluster_bytes w) 1)

  -- The loop over the clusters from the current one to the last, `rounds` of them: the `cc` of the end
  -- and `buf`.
  unfoldable pub read_clusters :
      (rounds clus start_byte end_byte cc : ℕ) → Bytes → Act (Fs Disk × File) (ℕ × Bytes)
  read_clusters zero clus start_byte end_byte cc buf s = done (cc, buf) s
  read_clusters (suc rounds) clus start_byte end_byte cc buf s =
      then_do (read_cluster clus s) (λ index (w, file).
        let block = (file.data_buf index).buf in
        elim (rounds == 0) [
          | true ↦
              let n = end_byte + 1 - start_byte in
              done (cc + n, copy_bytes n start_byte cc block buf) (w, file)
          | false ↦
              let n = cluster_bytes w - start_byte in
              then_do (on_first (get_fat_entry_value dev clus) (w, file)) (λ next_clus.
                read_clusters rounds next_clus 0 end_byte (cc + n)
                  (copy_bytes n start_byte cc block buf))
        ])

  -- `count`, at most up to the end of the file
  abbrev pub readable : File → (count : ℕ) → ℕ
  readable file count =
      let filesize = get_u32 file.entry 28 in
      if ltb filesize (add32 file.loc count) then sub32 filesize file.loc else count

  abbrev pub advance_loc : (count : ℕ) → Fs Disk × File → Fs Disk × File
  advance_loc count (w, file) = (w, record file { loc = add32 file.loc count })

  -- The value of `fs_read` and what is in `buf`, where it ends without an error
  unfoldable pub fs_read : (count : ℕ) → Bytes → Act (Fs Disk × File) (ℕ × Bytes)
  fs_read count buf (w, file) =
      let n = readable file count in
      let last = sub32 (add32 file.loc n) 1 in
      let first_clus = cluster_of w file.loc in
      if get_start_cluster file == 0
      then done (0, buf) (w, file)
      else if n == 0
      then done (0, buf) (w, file)
      else then_do (follow first_clus (get_start_cluster file) (w, file)) (λ clus s.
        then_do
          (read_clusters (cluster_of w last + 1 - first_clus) clus (byte_of w file.loc)
            (byte_of w last) 0 buf s)
          (λ r v. done r (advance_loc n v)))

unfoldable pub fs_lseek : (new_loc : ℕ) → File → File
unfolding get_u32
fs_lseek new_loc file =
    let filesize = get_u32 file.entry 28 in
    record file { loc = if ltb new_loc filesize then new_loc else filesize }
