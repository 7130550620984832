-- ===== src/Fat/Usr.antt =====
-- kernel/fs/fat/usr.c: removing, moving and copying of files, and new directories. `junk` is what a
-- local structure holds at first.
use mini_operating_system.Prelude.{
  ℕ, zero, suc, ◌/◌, ◌%◌, ◌^◌, Bool, true, false, ◌&&◌, not, ltb, leb, ◌==◌, if◌then◌else◌, update,
}
use mini_operating_system.FsCache.{Device}
use mini_operating_system.Fat.{
  Bytes, Outcome, done, failed, spins, Act, then_do, ◌>>=◌, ◌>>◌, pure, gets, modify, attempt,
  with_local, on_first, File, Fs,
}
use mini_operating_system.Fat.Bytes.{last_cluster, get_start_cluster, set_u16}
use mini_operating_system.Fat.Table.{get_fat_entry_value, fs_modify_fat}
use mini_operating_system.Fat.Find.{entry_at}
use mini_operating_system.Fat.Reading.{fs_open, fs_close, fs_lseek}
use mini_operating_system.Fat.Write.{fs_write}
use mini_operating_system.Fat.Create.{fs_create_with_attr}

module _ {Disk : Type 0} where
  abbrev pub change_entry : (Bytes → Bytes) → Act (Fs Disk × File) (Unit {0})
  change_entry f = modify (λ s. (s.0, record (s.1) { entry = f s.1.entry }))

  -- `entry.data[0] = 0xE5`
  abbrev pub mark_removed : Act (Fs Disk × File) (Unit {0})
  mark_removed = change_entry (λ e. update e 0 0xe5)

  abbrev pub keep_created : {A : Type 0} → Outcome (Fs Disk × File) A → Outcome (Fs Disk) A
  keep_created (done a (w, f)) = done a (record w { file_create = f })
  keep_created (failed (w, f)) = failed (record w { file_create = f })
  keep_created spins = spins

  -- A function on the global `file_create`
  abbrev pub on_created : {A : Type 0} → Act (Fs Disk × File) A → Act (Fs Disk) A
  on_created m w = keep_created (m (w, w.file_create))

module _ {Disk : Type 0} (dev : ℕ → Device Bytes Disk) where
  -- The loop that releases the chain from `clus`; each cluster takes fuel.
  unfoldable pub release : (fuel clus : ℕ) → Act (Fs Disk) (Unit {0})
  unfolding get_fat_entry_value fs_modify_fat
  release zero clus w = spins
  release (suc fuel) clus w = elim (not (clus == 0) && leb clus (last_cluster w.info)) [
    | false ↦ done tt w
    | true ↦
        then_do (get_fat_entry_value dev clus w)
          (λ next v. then_do (fs_modify_fat dev clus 0 v) (λ _. release fuel next))
  ]

  unfoldable pub remove_in : (fuel : ℕ) (filename : Bytes) → Act (Fs Disk × File) (Unit {0})
  unfolding fs_open release fs_close get_start_cluster
  remove_in fuel filename = do
    fs_open dev fuel filename
    mark_removed
    clus ← gets (λ s. get_start_cluster s.1)
    on_first (release fuel clus)
    fs_close dev

  unfoldable pub fs_rm : (fuel : ℕ) (junk : File) (filename : Bytes) → Act (Fs Disk) (Unit {0})
  unfolding remove_in
  fs_rm fuel junk filename = with_local junk (remove_in fuel filename) >> pure tt

  -- The body is that of `fs_rm`.
  abbrev pub fs_rmdir : (fuel : ℕ) (junk : File) (filename : Bytes) → Act (Fs Disk) (Unit {0})
  unfolding fs_rm
  fs_rmdir fuel junk filename = fs_rm fuel junk filename

  -- The part that `fs_mv` and `fs_cp` share: `dest` is created, opened, and gets the entry of `src`.
  unfoldable pub duplicate :
      (fuel : ℕ) (junk : File) (src dest : Bytes) → Act (Fs Disk × File) (Unit {0})
  unfolding fs_open fs_create_with_attr fs_close
  duplicate fuel junk src dest = do
    fs_open dev fuel src
    attr ← gets (λ s. s.1.entry 11)
    on_first (fs_create_with_attr dev fuel junk dest attr)
    modify (λ s. (record (s.0) { mk_dir_buf = entry_at s.1.entry 0 s.0.mk_dir_buf }, s.1))
    on_first (on_created (fs_open dev fuel dest))
    on_first (on_created (λ s. change_entry (entry_at s.0.mk_dir_buf 0) s))
    on_first (on_created (fs_close dev))

  unfoldable pub fs_mv : (fuel : ℕ) (junk : File) (src dest : Bytes) → Act (Fs Disk) (Unit {0})
  unfolding duplicate fs_close
  fs_mv fuel junk src dest =
      with_local junk (duplicate fuel junk src dest >> mark_removed >> fs_close dev) >> pure tt

  unfoldable pub fs_cp : (fuel : ℕ) (junk : File) (src dest : Bytes) → Act (Fs Disk) (Unit {0})
  unfolding duplicate fs_close
  fs_cp fuel junk src dest =
      with_local junk (duplicate fuel junk src dest >> fs_close dev) >> pure tt

  -- An entry of a directory with no cluster: `dots` dots, spaces, 0x30, zeros.
  abbrev pub dot_entry : (dots : ℕ) → Bytes → Bytes
  dot_entry dots old k =
      if ltb k dots
      then b'.'
      else if ltb k 11
      then 0x20
      else if k == 11
      then 0x30
      else if ltb k 32
      then 0
      else old k

  -- The bytes 20, 21, 26 and 27 of the entry of the new directory
  abbrev pub own_cluster : (entry old : Bytes) → Bytes
  own_cluster entry old k =
      if (leb 20 k && leb k 21) then entry k else if (leb 26 k && leb k 27) then entry k else old k

  abbrev pub set_mk_dir_buf : (File → Bytes → Bytes) → Act (Fs Disk × File) (Unit {0})
  set_mk_dir_buf f = modify (λ s. (record (s.0) { mk_dir_buf = f s.1 s.0.mk_dir_buf }, s.1))

  -- `fs_write(&mk_dir, mk_dir_buf, 32)`. Its value is compared with 1, and is 32 or 0xFFFFFFFF.
  abbrev pub write_dot_entry : Act (Fs Disk × File) Bool
  unfolding fs_write
  write_dot_entry s = attempt (fs_write dev 32 s.0.mk_dir_buf) s

  -- `parent` is the field `dir_entry_pos` of the local `file_creat`, which nothing has set.
  unfoldable pub mkdir_in :
      (fuel : ℕ) (parent : ℕ) (filename : Bytes) → Act (Fs Disk × File) (Unit {0})
  unfolding fs_open fs_write fs_lseek fs_close set_u16
  mkdir_in fuel parent filename = do
    fs_open dev fuel filename
    set_mk_dir_buf (λ _ b. dot_entry 1 b)
    write_dot_entry
    modify (λ s. (s.0, fs_lseek 0 s.1))
    set_mk_dir_buf (λ f b. own_cluster f.entry b)
    write_dot_entry
    set_mk_dir_buf (λ _ b.
        set_u16 (set_u16 (dot_entry 2 b) 20 (parent / 2 ^ 16 % 2 ^ 16)) 26 (parent % 2 ^ 16))
    write_dot_entry
    change_entry (λ e k. if leb 28 k && ltb k 32 then 0 else e k)
    fs_close dev

  unfoldable pub fs_mkdir :
      (fuel : ℕ) (junk file_creat : File) (filename : Bytes) → Act (Fs Disk) (Unit {0})
  unfolding fs_create_with_attr mkdir_in
  fs_mkdir fuel junk file_creat filename =
      fs_create_with_attr dev fuel junk filename 0x30
      >> (with_local junk (mkdir_in fuel file_creat.dir_entry_pos filename) >> pure tt)
