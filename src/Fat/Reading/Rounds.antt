-- ===== src/Fat/Reading/Rounds.antt =====
-- One round of the loop of `fs_read` in kernel/fs/fat/fat.c, and what it copies.
use mini_operating_system.Prelude.{
  ℕ, suc, ◌+◌, ◌-◌, ◌<◌, ◌≤◌, ◌≡◌, ◌⊎◌, refl, ap, true, false, ◌==◌, ◌&&◌, ltb, leb, arith,
}
use mini_operating_system.FsCache.{Device}
use mini_operating_system.Fat.{Bytes, done, then_do, on_first, File, Fs}
use mini_operating_system.Fat.Table.{get_fat_entry_value}
use mini_operating_system.Fat.Reading.{copy_bytes, read_cluster, read_clusters, cluster_bytes}

module _ {Disk : Type 0} (dev : ℕ → Device Bytes Disk) where
  -- The loop at its last cluster, and before it.
  pub read_last :
      (clus start_byte end_byte cc : ℕ) (buf : Bytes) (s : Fs Disk × File)
      → read_clusters dev 1 clus start_byte end_byte cc buf s
        ≡ then_do (read_cluster dev clus s) (λ index u.
          done
            (
              cc + (end_byte + 1 - start_byte),
              copy_bytes (end_byte + 1 - start_byte) start_byte cc (u.1.data_buf index).buf buf,
            )
            u)
  unfolding read_clusters
  read_last clus start_byte end_byte cc buf s = refl

  pub read_more :
      (rounds clus start_byte end_byte cc : ℕ) (buf : Bytes) (s : Fs Disk × File)
      → read_clusters dev (suc (suc rounds)) clus start_byte end_byte cc buf s
        ≡ then_do (read_cluster dev clus s) (λ index u.
          then_do (on_first (get_fat_entry_value dev clus) u) (λ next.
            read_clusters dev
              (suc rounds)
              next
              0
              end_byte
              (cc + (cluster_bytes dev u.0 - start_byte))
              (copy_bytes
                (cluster_bytes dev u.0 - start_byte)
                start_byte
                cc
                (u.1.data_buf index).buf
                buf)))
  unfolding read_clusters
  read_more rounds clus start_byte end_byte cc buf s =
      let no : (suc rounds == 0) ≡ false = ground arith in rw no refl

pub done_parts : {S A : Type 0} {a b : A} {s t : S} → done a s ≡ done b t → (a ≡ b) × (s ≡ t)
done_parts e = (cc, cc)

module _ (n from at : ℕ) (source target : Bytes) where
  pub copied_in :
      (i j : ℕ)
      → at ≤ j
      → j < at + n
      → from + (j - at) ≡ i
      → copy_bytes n from at source target j ≡ source i
  copied_in i j low high e =
      let here : leb at j && ltb j (at + n) ≡ true = ground arith in rw here (ap source e)

  pub copied_out :
      (j : ℕ) → (j < at) ⊎ (at + n ≤ j) → copy_bytes n from at source target j ≡ target j
  copied_out j out = let there : leb at j && ltb j (at + n) ≡ false = ground arith in rw there refl
