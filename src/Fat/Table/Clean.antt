-- ===== src/Fat/Table/Clean.antt =====
-- The table of kernel/fs/fat read where its buffers have nothing to write.
use mini_operating_system.Prelude.{
  ℕ, ◌%◌, ◌^◌, ◌<◌, ◌≡◌, ◌≢◌, refl, sym, ap, ◌∙◌, inl, inr, false, ◌==◌, ◌&&◌, not, add32, subst,
  arith, Bool-cases,
}
use mini_operating_system.FsCache.{
  Device, Cache, no_sector, dirty, fs_error, fs_victim, fs_read, find_buf, replace, fill,
}
use mini_operating_system.FsCache.Victim.{fs_victim-Chosen}
use mini_operating_system.FsCache.Lookup.{find_buf-cases}
use mini_operating_system.FsCache.Clean.{
  IsClean, Reads, IsBlock, fs_read-IsBlock, fs_write-clean, fs_read-miss, Same-IsClean,
}
use mini_operating_system.Fat.{
  Bytes, Outcome, done, failed, gets, then_do, Fs, fat_cache, set_fat_cache, checked,
}
use mini_operating_system.Fat.Bytes.{get_u32, cluster_to_fat_entry}
use mini_operating_system.Fat.Table.{
  write_fat_sector, fill_fat_sector, replace_fat_sector, read_fat_sector, get_fat_entry_value,
}

module _ {Disk : Type 0} (dev : ℕ → Device Bytes Disk) (on : ℕ → Bytes) (disk : Disk) where
  abbrev pub IsCleanTable : Fs Disk → Type 0
  IsCleanTable w = IsClean (dev 1) on 2 disk (fat_cache w)

  write_nothing :
      (i : ℕ) (w : Fs Disk) → dirty (w.fat_buf i) ≡ false → write_fat_sector dev i w ≡ done tt w
  unfolding write_fat_sector
  write_nothing i w e =
      let skip : not ((w.fat_buf i).cur == no_sector) && dirty (w.fat_buf i) ≡ false =
        ground (arith, e) in
      rw skip refl

  -- What a function of the cache leaves, in the state of the file system
  abbrev in_table : Fs Disk → ℕ × Cache Bytes Disk → Outcome (Fs Disk) ℕ
  in_table w (index, c) = checked index (set_fat_cache w c)

  fill-in_table :
      (sec_num i : ℕ) (w : Fs Disk)
      → i < 2
      → fill_fat_sector dev sec_num i w ≡ in_table w (fill (dev 1) sec_num i (0, fat_cache w))
  unfolding fill_fat_sector fill
  fill-in_table sec_num i w h =
      let no_err : (i == fs_error) ≡ false = ground (arith, h) in
      elim (Bool-cases (((dev 1).read_block sec_num (w.fat_buf i).buf w.disk).0 == 1)) [
        | inl e ↦ rw e refl
        | inr e ↦ rw (e, no_err) refl
      ]

  replace-in_table :
      (sec_num : ℕ) (w : Fs Disk)
      → IsCleanTable w
      → replace_fat_sector dev sec_num w ≡ in_table w (replace (dev 1) sec_num 2 (fat_cache w))
  unfolding replace_fat_sector replace
  replace-in_table sec_num w v =
      let r = fs_victim w.fat_clock_head 2 w.fat_buf in
      let chosen = fs_victim-Chosen w.fat_clock_head 2 w.fat_buf v.clock_inside in
      let picked : Fs Disk = record w { fat_buf = r.2; fat_clock_head = r.1 } in
      let valid =
        Same-IsClean (dev 1) on 2 disk (fat_cache w) r.2 r.1 chosen.unchanged chosen.clock_bound
          v in
      let clean = valid.clean r.0 chosen.victim_bound in
      rw (write_nothing r.0 picked clean, fs_write-clean (dev 1) on 2 r.0 (fat_cache picked) clean)
        (fill-in_table sec_num r.0 picked chosen.victim_bound)

  hit-in_table :
      (s : ℕ) (w : Fs Disk)
      → add32 s 0 ≡ s
      → find_buf (dev 1) 2 0 s w.fat_buf < 2
      → read_fat_sector dev s w ≡ in_table w (fs_read (dev 1) 0 s 2 (fat_cache w))
  unfolding read_fat_sector fs_read
  hit-in_table s w same inside =
      let no : (find_buf (dev 1) 2 0 s w.fat_buf == 2) ≡ false = ground (arith, inside) in
      rw (same, no) refl

  -- A read of a sector of the table is `fs_read_512` on its buffers, with no sectors before it.
  read_fat_sector-in_table :
      (sec_num : ℕ) (w : Fs Disk)
      → sec_num < no_sector
      → IsCleanTable w
      → read_fat_sector dev sec_num w ≡ in_table w (fs_read (dev 1) 0 sec_num 2 (fat_cache w))
  unfolding read_fat_sector
  read_fat_sector-in_table sec_num w l v =
      let same : add32 sec_num 0 ≡ sec_num = omega arith in
      elim (find_buf-cases (dev 1) 2 sec_num 2 0 w.fat_buf (omega arith)
        (λ j k. absurd (omega arith))) [
          | inl (miss, absent) ↦
              let miss' : find_buf (dev 1) 2 0 (add32 sec_num 0) w.fat_buf ≡ 2 = rw same miss in
              let step = fs_read-miss (dev 1) on 2 0 sec_num (fat_cache w) miss' in
              rw (miss, step, same) (replace-in_table sec_num w v)
          | inr (inside, holds) ↦ hit-in_table sec_num w same inside
        ]

  -- The sector of the table is in buffer `i`, and the state is clean.
  pub data IsTableRead (sec_num : ℕ) (w : Fs Disk) : Outcome (Fs Disk) ℕ → Type 0 where
    read :
        (i : ℕ) (v : Fs Disk)
        → (v.fat_buf i).buf ≡ on sec_num
        → IsCleanTable v
        → ((c : Cache Bytes Disk) × (v ≡ set_fat_cache w c))
        → IsTableRead sec_num w (done i v)
    not_read : (v : Fs Disk) → IsTableRead sec_num w (failed v)

  module _ (good : Reads (dev 1) on 2 disk) where
    in_table-IsTableRead :
        (sec_num : ℕ) (w : Fs Disk) (r : ℕ × Cache Bytes Disk)
        → (r.0 ≢ fs_error → IsBlock (dev 1) on 2 disk sec_num r)
        → IsTableRead sec_num w (in_table w r)
    in_table-IsTableRead sec_num w r h = elim (Bool-cases (r.0 == fs_error)) [
      | inl e ↦ rw e (not_read _)
      | inr e ↦
          let b = h (λ f. ground (arith, e, f)) in rw e (read r.0 _ b.block b.valid (r.1, refl))
    ]

    pub read_fat_sector-IsTableRead :
        (sec_num : ℕ) (w : Fs Disk)
        → sec_num < no_sector
        → IsCleanTable w
        → IsTableRead sec_num w (read_fat_sector dev sec_num w)
    read_fat_sector-IsTableRead sec_num w l v =
        let real : sec_num ≢ no_sector = (λ e. omega (arith, e, l)) in
        rw (read_fat_sector-in_table sec_num w l v) (
          in_table-IsTableRead sec_num w _ (
            fs_read-IsBlock (dev 1) on 2 disk good sec_num real 0 sec_num (fat_cache w)
              (omega arith) v))

    value_read :
        (sec_num at n : ℕ) (w u : Fs Disk) (o : Outcome (Fs Disk) ℕ)
        → IsTableRead sec_num w o
        → then_do o (λ index. gets (λ v. get_u32 (v.fat_buf index).buf at % 2 ^ 28)) ≡ done n u
        → (n ≡ get_u32 (on sec_num) at % 2 ^ 28)
          × IsCleanTable u
          × ((c : Cache Bytes Disk) × (u ≡ set_fat_cache w c))
    value_read sec_num at n w u o (read i v e k (c, f)) h =
        let same : v ≡ u = cc in
        let value : get_u32 (v.fat_buf i).buf at % 2 ^ 28 ≡ n = cc in
        (
          sym value ∙ ap (λ b. get_u32 b at % 2 ^ 28) e,
          subst IsCleanTable same k,
          (c, sym same ∙ f),
        )
    value_read sec_num at n w u o (not_read v) h = absurd (no_value h)
      where
        no_value : failed v ≡ done n u → ⊥
        no_value k = cc

    pub get_fat_entry_value-clean :
        (clus n : ℕ) (w u : Fs Disk)
        → (cluster_to_fat_entry w.info clus).0 < no_sector
        → IsCleanTable w
        → get_fat_entry_value dev clus w ≡ done n u
        → (n
            ≡ get_u32 (on (cluster_to_fat_entry w.info clus).0) (cluster_to_fat_entry w.info clus).1
              % 2 ^ 28)
          × IsCleanTable u
          × ((c : Cache Bytes Disk) × (u ≡ set_fat_cache w c))
    unfolding get_fat_entry_value
    get_fat_entry_value-clean clus n w u l v =
        let (sec_num, at) = cluster_to_fat_entry w.info clus in
        value_read sec_num at n w u _ (read_fat_sector-IsTableRead sec_num w l v)
