-- ===== src/Fat/Reading/Parts.antt =====
-- `fs_read` of kernel/fs/fat/fat.c in its parts: the way to the first cluster, and the loop.
use mini_operating_system.Prelude.{
  ℕ, ◌+◌, ◌-◌, ◌*◌, ◌/◌, ◌%◌, ◌^◌, ◌<◌, ◌≡◌, ◌≢◌, ap, ◌∙◌, false, ◌==◌, add32, sub32, subst, arith,
}
use mini_operating_system.FsCache.{Device}
use mini_operating_system.Fat.{Bytes, FsInfo, done, then_do, File, Fs}
use mini_operating_system.Fat.Bytes.{sectors_per_cluster, get_start_cluster}
use mini_operating_system.Fat.Reading.{
  follow, read_clusters, cluster_bytes, cluster_of, byte_of, readable, advance_loc, fs_read,
}
use mini_operating_system.Fat.Reading.Steps.{then_do-done}
use mini_operating_system.Fat.Reading.Rounds.{done_parts}
use mini_operating_system.Fat.Reading.Places.{cluster_of-div, byte_of-mod}

module _ {Disk : Type 0} (dev : ℕ → Device Bytes Disk) (info : FsInfo) (k : ℕ) (small : k < 32)
    (whole : sectors_per_cluster info * 2 ^ 9 ≡ 2 ^ k) where
  module _ (count : ℕ) (buf : Bytes) (w : Fs Disk) (file : File) (t : Fs Disk × File)
      (r : ℕ × Bytes) (some_clus : get_start_cluster file ≢ 0)
      (some_bytes : readable dev file count ≢ 0) where
    abbrev pub n : ℕ
    n = readable dev file count

    -- `fs_read` past its first tests: it follows the chain to the first cluster, and reads.
    abbrev pub Parts : (first_clus first_byte last_clus last_byte : ℕ) → Type 0
    Parts first_clus first_byte last_clus last_byte =
        (u : Fs Disk × File) × (start : ℕ) × (v : Fs Disk × File) × (follow dev first_clus
            (get_start_cluster file) (w, file)
          ≡ done start u)
        × (read_clusters dev (last_clus + 1 - first_clus) start first_byte last_byte 0 buf u
            ≡ done r v)
        × (advance_loc dev n v ≡ t)

    abbrev last_place : ℕ
    last_place = sub32 (add32 file.loc n) 1

    fs_read-Parts :
        fs_read dev count buf (w, file) ≡ done r t
        → Parts
            (cluster_of dev w file.loc)
            (byte_of dev w file.loc)
            (cluster_of dev w last_place)
            (byte_of dev w last_place)
    unfolding fs_read
    fs_read-Parts e =
        let no_clus : (get_start_cluster file == 0) ≡ false = ground (arith, some_clus) in
        let no_bytes : (n == 0) ≡ false = ground (arith, some_bytes) in
        let rest : then_do
              (follow dev (cluster_of dev w file.loc) (get_start_cluster file) (w, file))
              (λ clus s.
                then_do
                  (read_clusters dev (cluster_of dev w last_place + 1 - cluster_of dev w file.loc)
                    clus (byte_of dev w file.loc) (byte_of dev w last_place) 0 buf s)
                  (λ q v. done q (advance_loc dev n v)))
            ≡ done r t =
          rw (no_clus, no_bytes) at e in
        let (start, u, got, after) =
          then_do-done (follow dev (cluster_of dev w file.loc) (get_start_cluster file) (w, file)) _
            r t rest in
        let (q, v, copied, ends) = then_do-done _ (λ q v. done q (advance_loc dev n v)) r t after in
        let (same_q, state) = done_parts ends in
        (u, start, v, got, copied ∙ ap (λ x. done x v) same_q, state)

    pub read-Parts :
        file.loc + n < 2 ^ 32
        → w.info ≡ info
        → fs_read dev count buf (w, file) ≡ done r t
        → Parts
            (file.loc / 2 ^ k)
            (file.loc % 2 ^ k)
            ((file.loc + n - 1) / 2 ^ k)
            ((file.loc + n - 1) % 2 ^ k)
    read-Parts fits_loc same e =
        let last : last_place ≡ file.loc + n - 1 = omega (arith, some_bytes) in
        let size : cluster_bytes dev w ≡ 2 ^ k =
          ap (λ x. sectors_per_cluster x * 2 ^ 9) same ∙ whole in
        let at_last = ap (λ (x : ℕ). x / 2 ^ k) last in
        subst (λ x. Parts (file.loc / 2 ^ k) (file.loc % 2 ^ k) ((file.loc + n - 1) / 2 ^ k) x)
          (byte_of-mod dev k small w size last_place ∙ ap (λ (x : ℕ). x % 2 ^ k) last)
          (subst (λ x. Parts (file.loc / 2 ^ k) (file.loc % 2 ^ k) x (byte_of dev w last_place))
            (cluster_of-div dev k small w size last_place ∙ at_last)
            (subst
              (λ x.
                Parts (file.loc / 2 ^ k) x (cluster_of dev w last_place) (byte_of dev w last_place))
              (byte_of-mod dev k small w size file.loc)
              (subst
                (λ x.
                  Parts x (byte_of dev w file.loc) (cluster_of dev w last_place)
                    (byte_of dev w last_place))
                (cluster_of-div dev k small w size file.loc) (fs_read-Parts e))))
