-- ===== src/Fat/Bytes/Sectors.antt =====
-- Clusters and sectors in kernel/fs/fat/utils.c.
use mini_operating_system.Prelude.{
  ℕ, ◌+◌, ◌-◌, ◌*◌, ◌/◌, ◌%◌, ◌^◌, ◌<◌, ◌≤◌, ◌≡◌, ap, ◌∙◌, arith, sub32, word,
}
use native.Mathlib.Nat.{add_comm, add-mul-div_right, div-eq_of_lt}
use mini_operating_system.Fat.{FsInfo}
use mini_operating_system.Fat.Bytes.{sectors_per_cluster, fs_dataclus2sec, fs_sec2dataclus, fs_wa}
use mini_operating_system.Fat.Bytes.Log.{fs_wa-pow}

div_in : (q p s : ℕ) → s < p → (q * p + s) / p ≡ q
div_in q p s h =
    let pos : 0 < p = omega arith in
    ap (λ (n : ℕ). n / p) (add_comm (q * p) s)
    ∙ add-mul-div_right s q pos
    ∙ omega (arith, div-eq_of_lt h)

-- On a disk with a power of two of sectors in a cluster: each sector of a cluster, from the one that
-- `fs_dataclus2sec` gives on, belongs to that cluster by `fs_sec2dataclus`, as long as the numbers of
-- sectors are words.
pub fs_sec2dataclus-fs_dataclus2sec :
    (info : FsInfo) (k clus s : ℕ)
    → k < 8
    → sectors_per_cluster info ≡ 2 ^ k
    → 2 ≤ clus
    → clus < 2 ^ 32
    → s < 2 ^ k
    → (clus - 2) * 2 ^ k + info.first_data_sector + s < 2 ^ 32
    → fs_sec2dataclus info (fs_dataclus2sec info clus + s) ≡ clus
unfolding fs_sec2dataclus fs_dataclus2sec
fs_sec2dataclus-fs_dataclus2sec info k clus s b e two small inside fits =
    let log : fs_wa (sectors_per_cluster info) ≡ k = rw e (fs_wa-pow k (omega arith)) in
    let q : ℕ = clus - 2 in
    let small_q : sub32 clus 2 ≡ q = omega arith in
    let sector : ((q * 2 ^ k % word + info.first_data_sector) % word
            + s
            + word
            - info.first_data_sector)
          % word
        ≡ q * 2 ^ k + s =
      omega arith in
    rw (log, small_q, sector, div_in q (2 ^ k) s inside) (omega arith)
