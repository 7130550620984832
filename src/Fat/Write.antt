-- ===== src/Fat/Write.antt =====
-- Free clusters and `fs_write` of kernel/fs/fat/fat.c.
use mini_operating_system.Prelude.{
  ℕ, zero, suc, ◌+◌, ◌-◌, ◌/◌, ◌^◌, ◌%◌, true, false, ltb, leb, ◌==◌, if◌then◌else◌, add32, sub32,
  update,
}
use mini_operating_system.FsCache.{Device, fs_clr}
use mini_operating_system.Fat.{
  Bytes, done, failed, Act, then_do, beside, ◌>>=◌, ◌>>◌, pure, gets, modify, or_fail, on_first,
  File, Fs, local_data_buf_num,
}
use mini_operating_system.Fat.Bytes.{
  sectors_per_cluster, last_cluster, fs_dataclus2sec, get_start_cluster, fs_wa, get_u32, set_u16,
  set_u32,
}
use mini_operating_system.Fat.Table.{get_fat_entry_value, fs_modify_fat}
use mini_operating_system.Fat.Find.{no_entry}
use mini_operating_system.Fat.Reading.{
  file_cache, set_file_cache, read_cluster, copy_bytes, cluster_bytes, cluster_of, byte_of,
  advance_loc,
}

module _ {Disk : Type 0} (dev : ℕ → Device Bytes Disk) where
  -- The loop from `clus` over the clusters up to the last, `rounds` of them; 0xFFFFFFFF for none.
  unfoldable pub free_loop : (rounds clus : ℕ) → Act (Fs Disk) ℕ
  unfolding get_fat_entry_value
  free_loop zero clus w = done no_entry w
  free_loop (suc rounds) clus w =
      then_do (get_fat_entry_value dev clus w)
        (λ value. elim (value == 0) [ true ↦ pure clus | false ↦ free_loop rounds (clus + 1) ])

  unfoldable pub fs_next_free : (start : ℕ) → Act (Fs Disk) ℕ
  unfolding free_loop
  fs_next_free start w = free_loop (last_cluster w.info + 1 - start) start w

  -- Where `FSI_Nxt_Free` is out of range the first free cluster of all is marked.
  abbrev pub choose_cluster : Act (Fs Disk) ℕ
  unfolding get_u32 fs_next_free fs_modify_fat
  choose_cluster w =
      let clus = add32 (get_u32 w.info.fat_fs_info 492) 1 in
      if ltb (add32 (get_u32 w.info.fat_fs_info 488) 1) clus
      then then_do (fs_next_free 2 w)
          (λ free v. then_do (fs_modify_fat dev free 0xffffffff v) (λ _. pure free))
      else done clus w

  abbrev pub set_next_free : (next_free : ℕ) → Act (Fs Disk) (Unit {0})
  unfolding set_u32
  set_next_free next_free = modify (λ w. record w {
    info = record (w.info) { fat_fs_info = set_u32 w.info.fat_fs_info 492 (sub32 next_free 1) };
  })

  -- Zeros are written to the cluster.
  abbrev pub erase : (clus : ℕ) → Act (Fs Disk) (Unit {0})
  unfolding fs_dataclus2sec
  erase clus w =
      let (err, disk) =
        (dev (sectors_per_cluster w.info)).write_block (λ _. 0) (fs_dataclus2sec w.info clus)
          w.disk in
      if err == 1 then failed (record w { disk = disk }) else done tt (record w { disk = disk })

  unfoldable pub fs_alloc : Act (Fs Disk) ℕ
  unfolding choose_cluster fs_modify_fat fs_next_free set_next_free erase
  fs_alloc = do
    clus ← choose_cluster
    fs_modify_fat dev clus 0xffffffff
    next_free ← fs_next_free clus
    last ← gets (λ w. last_cluster w.info)
    or_fail (leb next_free last)
    set_next_free next_free
    erase clus
    pure clus

  -- `fs_clr_4k(file->data_buf, &(file->clock_head), LOCAL_DATA_BUF_NUM, fs_dataclus2sec(clus))`
  unfoldable pub clear_cluster : (clus : ℕ) → Act (Fs Disk × File) (Unit {0})
  unfolding fs_dataclus2sec
  clear_cluster clus s =
      let (err, c) =
        fs_clr (dev (sectors_per_cluster s.0.info)) (λ _. 0) (fs_dataclus2sec s.0.info clus)
          local_data_buf_num (file_cache dev s) in
      if err == 1 then failed (set_file_cache dev s c) else done tt (set_file_cache dev s c)

  -- The first cluster of the file, a new one for an empty file
  unfoldable pub first_cluster : Act (Fs Disk × File) ℕ
  unfolding get_start_cluster fs_alloc clear_cluster set_u16
  first_cluster (w, file) =
      let start = get_start_cluster file in
      if start == 0
      then then_do (beside file (fs_alloc w)) (λ clus (v, f).
        let entry = set_u16 (set_u16 f.entry 20 (clus / 2 ^ 16)) 26 (clus % 2 ^ 16) in
        then_do (clear_cluster clus (v, record f { entry = entry })) (λ _. pure clus))
      else done start (w, file)

  -- A new cluster chained behind `clus`
  unfoldable pub chain_cluster : (clus : ℕ) → Act (Fs Disk × File) ℕ
  unfolding fs_alloc fs_modify_fat clear_cluster
  chain_cluster clus = do
    new ← on_first fs_alloc
    on_first (fs_modify_fat dev clus new)
    clear_cluster new
    pure new

  -- The cluster behind `clus`: behind the last one a new one is chained.
  unfoldable pub next_cluster : (clus : ℕ) → Act (Fs Disk × File) ℕ
  unfolding get_fat_entry_value chain_cluster
  next_cluster clus s = then_do (on_first (get_fat_entry_value dev clus) s) (λ next (w, file).
      if ltb (last_cluster w.info) next then chain_cluster clus (w, file) else done next (w, file))

  unfoldable pub advance_clusters : (rounds clus : ℕ) → Act (Fs Disk × File) ℕ
  unfolding next_cluster
  advance_clusters zero clus = pure clus
  advance_clusters (suc rounds) clus = next_cluster clus >>= advance_clusters rounds

  -- `n` bytes of `buf` from `cc`, put into the data buffer at `at`
  abbrev pub put_data : (index n cc at : ℕ) → Bytes → Act (Fs Disk × File) (Unit {0})
  put_data index n cc at buf (w, file) =
      let b = file.data_buf index in
      done tt (
        w,
        record file {
          data_buf =
              update file.data_buf index
                (record b { buf = copy_bytes n cc at buf b.buf; state = 3 });
        },
      )

  -- The loop over the clusters that are written, `rounds` of them
  unfoldable pub write_clusters :
      (rounds clus start_byte end_byte cc : ℕ) → Bytes → Act (Fs Disk × File) ℕ
  unfolding read_cluster next_cluster
  write_clusters zero clus start_byte end_byte cc buf s = done cc s
  write_clusters (suc rounds) clus start_byte end_byte cc buf s =
      then_do (read_cluster dev clus s) (λ index t. elim (rounds == 0) [
        | true ↦
            let n = end_byte + 1 - start_byte in
            then_do (put_data index n cc start_byte buf t) (λ _. pure (cc + n))
        | false ↦
            let n = cluster_bytes dev t.0 - start_byte in
            then_do (put_data index n cc start_byte buf t) (λ _ u.
              then_do (next_cluster clus u)
                (λ next. write_clusters rounds next 0 end_byte (cc + n) buf))
      ])

  abbrev pub grow : (count : ℕ) → Fs Disk × File → Fs Disk × File
  unfolding get_u32 set_u32
  grow count (w, file) =
      let after = add32 file.loc count in
      (
        w,
        if ltb (get_u32 file.entry 28) after
            then record file { entry = set_u32 file.entry 28 after }
            else file,
      )

  unfoldable pub fs_write : (count : ℕ) → Bytes → Act (Fs Disk × File) ℕ
  unfolding first_cluster advance_clusters write_clusters fs_wa get_u32 set_u32
  fs_write count buf (w, file) =
      let last = sub32 (add32 file.loc count) 1 in
      let first = cluster_of dev w file.loc in
      if count == 0
      then done 0 (w, file)
      else then_do (first_cluster (w, file)) (λ start s.
        then_do (advance_clusters first start s) (λ clus t.
          then_do
            (write_clusters (cluster_of dev w last + 1 - first) clus (byte_of dev w file.loc)
              (byte_of dev w last) 0 buf t)
            (λ cc u. done cc (advance_loc dev count (grow count u)))))
