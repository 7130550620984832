-- ===== src/Fat/Reading/Steps.antt =====
-- What the loops of `fs_read` in kernel/fs/fat/fat.c do at a cluster: its entry in the table and its
-- block, on a disk where nothing is left to be written.
use mini_operating_system.Prelude.{
  ℕ, ◌+◌, ◌%◌, ◌^◌, ◌<◌, ◌≡◌, ◌≢◌, refl, sym, ap, ◌∙◌, inl, inr, if◌then◌else◌, ◌==◌, add32, subst,
  arith, Bool-cases,
}
use mini_operating_system.FsCache.{Device, Cache, no_sector, fs_error}
use mini_operating_system.FsCache
use mini_operating_system.FsCache.Clean.{IsClean, Reads, IsBlock, fs_read-IsBlock}
use mini_operating_system.Fat.{
  Bytes, FsInfo, Act, Outcome, done, failed, spins, then_do, on_first, beside, File, Fs,
}
use mini_operating_system.Fat.Bytes.{
  get_u32, reserved_sectors, sectors_per_cluster, cluster_to_fat_entry, fs_dataclus2sec,
}
use mini_operating_system.Fat.Table.{get_fat_entry_value}
use mini_operating_system.Fat.Table.Clean.{IsCleanTable, get_fat_entry_value-clean}
use mini_operating_system.Fat.Reading.{file_cache, set_file_cache, read_cluster}

-- A function that ends has come through its first part.
pub then_do-done :
    {S A B : Type 0} (o : Outcome S A) (f : A → Act S B) (b : B) (t : S)
    → then_do o f ≡ done b t
    → (a : A) × (s : S) × (o ≡ done a s) × (f a s ≡ done b t)
then_do-done (done a s) f b t e = (a, s, refl, e)
then_do-done (failed s) f b t e = cc
then_do-done spins f b t e = cc

beside-done :
    {S T A : Type 0} (t : T) (o : Outcome S A) (a : A) (u : S × T)
    → beside t o ≡ done a u
    → (o ≡ done a u.0) × (u.1 ≡ t)
beside-done t (done a s) b u e = (cc, cc)
beside-done t (failed s) b u e = cc
beside-done t spins b u e = cc

-- `sector s` is sector `s` of the disk, `block s` the block of a cluster that starts there.
module _ {Disk : Type 0} (dev : ℕ → Device Bytes Disk) (sector block : ℕ → Bytes) (disk : Disk)
    (info : FsInfo) (loc : ℕ) where
  -- Nothing is left to be written to the disk, neither of the table nor of the file.
  pub record IsSettled (s : Fs Disk × File) : Type 0 where
    pub table : IsCleanTable dev sector disk s.0
    pub contents : IsClean (dev (sectors_per_cluster info)) block 4 disk (file_cache dev s)
    pub same_info : s.0.info ≡ info
    pub same_loc : s.1.loc ≡ loc

  -- The entry of a cluster in the table, and the block of a cluster
  abbrev pub entry_of : ℕ → ℕ
  entry_of clus =
      let (sec_num, offset) = cluster_to_fat_entry info clus in
      get_u32 (sector sec_num) offset % 2 ^ 28

  abbrev pub block_of : ℕ → Bytes
  block_of clus = block (add32 (fs_dataclus2sec info clus) info.base_addr)

  table_range :
      reserved_sectors info + 2 ^ 23 + info.base_addr < no_sector
      → (clus : ℕ) → (cluster_to_fat_entry info clus).0 < no_sector
  unfolding cluster_to_fat_entry
  table_range fits clus = omega (arith, fits)

  module _ (good_sectors : Reads (dev 1) sector 2 disk)
      (good_blocks : Reads (dev (sectors_per_cluster info)) block 4 disk)
      (fits : reserved_sectors info + 2 ^ 23 + info.base_addr < no_sector) where
    pub entry_step :
        (clus n : ℕ) (s t : Fs Disk × File)
        → IsSettled s
        → on_first (get_fat_entry_value dev clus) s ≡ done n t
        → (n ≡ entry_of clus) × IsSettled t
    entry_step clus n (w, file) (u, f) r e =
        let (got, is_file) = beside-done file (get_fat_entry_value dev clus w) n (u, f) e in
        let range =
          subst (λ x. (cluster_to_fat_entry x clus).0 < no_sector) (sym r.same_info)
            (table_range fits clus) in
        let (value, clean, (c, is_u)) =
          get_fat_entry_value-clean dev sector disk good_sectors clus n w u range r.table got in
        let here =
          subst
            (λ x.
              n
              ≡ get_u32 (sector (cluster_to_fat_entry x clus).0) (cluster_to_fat_entry x clus).1
                % 2 ^ 28)
            r.same_info value in
        (
          here,
          subst (λ x. IsSettled (u, x)) (sym is_file)
              (record {
                table = clean;
                contents = record {
                  clock_inside = r.contents.clock_inside;
                  clean = r.contents.clean;
                  stored = r.contents.stored;
                  same_disk = clean.same_disk;
                };
                same_info = ap (λ x. x.info) is_u ∙ r.same_info;
                same_loc = r.same_loc;
              }),
        )

    ended_read :
        (w : Fs Disk) (file : File) (first i : ℕ) (t : Fs Disk × File) (q : ℕ × Cache Bytes Disk)
        → IsSettled (w, file)
        → (q.0 ≢ fs_error → IsBlock (dev (sectors_per_cluster info)) block 4 disk first q)
        → (if q.0 == fs_error
            then failed (set_file_cache dev (w, file) q.1)
            else done q.0 (set_file_cache dev (w, file) q.1))
          ≡ done i t
        → ((t.1.data_buf i).buf ≡ block first) × IsSettled t
    ended_read w file first i t q r h = elim (Bool-cases (q.0 == fs_error)) [
      | inl e ↦ rw e (λ k. absurd (no_value k))
      | inr e ↦
          let b = h (λ f. ground (arith, e, f)) in
          let settled : IsSettled (set_file_cache dev (w, file) q.1) = record {
            table = record {
              clock_inside = r.table.clock_inside;
              clean = r.table.clean;
              stored = r.table.stored;
              same_disk = b.valid.same_disk;
            };
            contents = b.valid;
            same_info = r.same_info;
            same_loc = r.same_loc;
          } in
          rw e (λ k.
            let (index, state) = done_parts k in
            subst (λ u. ((u.1.data_buf i).buf ≡ block first) × IsSettled u) state
              (subst (λ j. (q.1.bufs j).buf ≡ block first) index b.block, settled))
    ]
      where
        no_value : {s : Fs Disk × File} → failed s ≡ done i t → ⊥
        no_value k = cc

        done_parts : {j : ℕ} {s : Fs Disk × File} → done j s ≡ done i t → (j ≡ i) × (s ≡ t)
        done_parts k = (cc, cc)

    pub block_step :
        (clus i : ℕ) (s t : Fs Disk × File)
        → add32 (fs_dataclus2sec info clus) info.base_addr ≢ no_sector
        → IsSettled s
        → read_cluster dev clus s ≡ done i t
        → ((t.1.data_buf i).buf ≡ block_of clus) × IsSettled t
    unfolding read_cluster
    block_step clus i (w, file) t real r =
        ended_read w file (add32 (fs_dataclus2sec info clus) info.base_addr) i t _ r (
          subst
            (λ x.
              (FsCache.fs_read (dev (sectors_per_cluster x)) x.base_addr (fs_dataclus2sec x clus) 4
                  (file_cache dev (w, file))).0
                ≢ fs_error
              → IsBlock (dev (sectors_per_cluster info)) block 4 disk
                  (add32 (fs_dataclus2sec info clus) info.base_addr)
                  (FsCache.fs_read (dev (sectors_per_cluster x)) x.base_addr
                    (fs_dataclus2sec x clus) 4 (file_cache dev (w, file))))
            (sym r.same_info)
            (fs_read-IsBlock (dev (sectors_per_cluster info)) block 4 disk good_blocks
              (add32 (fs_dataclus2sec info clus) info.base_addr) real info.base_addr
              (fs_dataclus2sec info clus) (file_cache dev (w, file)) refl r.contents))
