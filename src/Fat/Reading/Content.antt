-- ===== src/Fat/Reading/Content.antt =====
-- `fs_read` of kernel/fs/fat/fat.c against the contents of the file on the disk.
use mini_operating_system.Prelude.{
  ℕ, zero, suc, ◌+◌, ◌-◌, ◌*◌, ◌/◌, ◌%◌, ◌^◌, ◌<◌, ◌≤◌, ◌≡◌, ◌≢◌, ◌⊎◌, inl, inr, sym, ap, ◌∙◌, ltb,
  add32, subst, arith, Bool-cases,
}
use native.Mathlib.Nat.{mod-lt}
use mini_operating_system.Prelude.Bits.{pow_pos}
use mini_operating_system.FsCache.{Device, no_sector}
use mini_operating_system.FsCache.Clean.{Reads}
use mini_operating_system.Fat.{Bytes, FsInfo, done, File, Fs}
use mini_operating_system.Fat.Bytes.{
  reserved_sectors, sectors_per_cluster, fs_dataclus2sec, get_start_cluster,
}
use mini_operating_system.Fat.Reading.{read_clusters, readable, fs_read}
use mini_operating_system.Fat.Reading.Steps.{IsSettled, entry_of, block_of}
use mini_operating_system.Fat.Reading.Loop.{
  chain, block_at, InRange, follow-chain, IsCopied, read_clusters-IsCopied,
}
use mini_operating_system.Fat.Reading.Places.{span}
use mini_operating_system.Fat.Reading.Parts.{read-Parts}

module _ {Disk : Type 0} (dev : ℕ → Device Bytes Disk) (sector block : ℕ → Bytes) (disk : Disk)
    (info : FsInfo) where
  module _ (k : ℕ) (file : File) where
    abbrev pub content : ℕ → ℕ
    content place =
        block_at dev sector block disk info file.loc (get_start_cluster file) (place / 2 ^ k)
          (place % 2 ^ k)

    module _ (buf : Bytes) (n : ℕ) where
      -- `n` bytes of the file from `loc` on are in `out`, and the rest is as in `buf`.
      pub record IsContent (r : ℕ × Bytes) (t : Fs Disk × File) : Type 0 where
        pub length_read : r.0 ≡ n
        pub bytes : (i : ℕ) → i < n → r.1 i ≡ content (file.loc + i)
        pub behind : (i : ℕ) → n ≤ i → r.1 i ≡ buf i
        pub new_loc : t.1.loc ≡ file.loc + n

  chain-add :
      (loc clus a b : ℕ)
      → chain dev sector block disk info loc (chain dev sector block disk info loc clus a) b
        ≡ chain dev sector block disk info loc clus (a + b)
  chain-add loc clus zero b =
      let e : b ≡ 0 + b = omega arith in ap (chain dev sector block disk info loc clus) e
  chain-add loc clus (suc a) b =
      let e : suc (a + b) ≡ suc a + b = omega arith in
      chain-add loc (entry_of dev sector block disk info loc clus) a b
      ∙ ap (chain dev sector block disk info loc clus) e

  module _ (good_sectors : Reads (dev 1) sector 2 disk)
      (good_blocks : Reads (dev (sectors_per_cluster info)) block 4 disk)
      (fits : reserved_sectors info + 2 ^ 23 + info.base_addr < no_sector) where
    -- The bytes that the loop has copied are those of the file from `loc` on.
    copied_content :
        (file : File) (buf : Bytes) (n cc' : ℕ) (out : Bytes) (k : ℕ)
        → 0 < n
        → IsCopied dev sector block disk info file.loc good_sectors good_blocks fits
            (2 ^ k)
            ((file.loc + n - 1) / 2 ^ k - file.loc / 2 ^ k)
            (chain dev sector block disk info file.loc (get_start_cluster file) (file.loc / 2 ^ k))
            (file.loc % 2 ^ k)
            ((file.loc + n - 1) % 2 ^ k)
            0
            buf
            cc'
            out
        → (cc' ≡ n)
          × ((i : ℕ) → i < n → out i ≡ content k file (file.loc + i))
          × ((i : ℕ) → n ≤ i → out i ≡ buf i)
    copied_content file buf n cc' out k some c =
        let b : ℕ = 2 ^ k in
        let last : ℕ = file.loc + n - 1 in
        let total : cc' ≡ n =
          omega
            (arith, c.length_read, (span b file.loc last (pow_pos k) (omega (arith, some))).1) in
        (total, (λ i l. found i l), λ i l. c.behind i (omega (arith, total)))
      where
        found : (i : ℕ) → i < n → out i ≡ content k file (file.loc + i)
        found i l =
            let b : ℕ = 2 ^ k in
            let place : ℕ = file.loc + i in
            let last : ℕ = file.loc + n - 1 in
            let q : ℕ = place / b - file.loc / b in
            let (up, row) = span b file.loc place (pow_pos k) (omega arith) in
            let (down, rest) = span b place last (pow_pos k) (omega arith) in
            let within : (q < last / b - file.loc / b)
                ⊎ ((q ≡ last / b - file.loc / b) × (place % b ≤ last % b)) =
              elim (Bool-cases (ltb (place / b) (last / b))) [
                | inl e ↦
                    let less : place / b < last / b = ground arith in inl (omega (arith, up, less))
                | inr e ↦
                    let same : last / b - place / b ≡ 0 = ground (arith, down, e) in
                    let none_left : (last / b - place / b) * b ≡ 0 =
                      ap (λ (x : ℕ). x * b) same ∙ omega arith in
                    inr (omega (arith, up, down, same), omega (arith, rest, none_left))
              ] in
            let reached : file.loc / b + q ≡ place / b = omega (arith, up) in
            c.bytes q (place % b) i (mod-lt place (pow_pos k)) (omega (arith, row))
              (omega (arith, row)) within
            ∙ ap (λ x. block_of dev sector block disk info file.loc x (place % b))
                (chain-add file.loc (get_start_cluster file) (file.loc / b) q
                  ∙ ap (chain dev sector block disk info file.loc (get_start_cluster file)) reached)

  module _ (good_sectors : Reads (dev 1) sector 2 disk)
      (good_blocks : Reads (dev (sectors_per_cluster info)) block 4 disk)
      (fits : reserved_sectors info + 2 ^ 23 + info.base_addr < no_sector) (k : ℕ) (small : k < 32)
      (whole : sectors_per_cluster info * 2 ^ 9 ≡ 2 ^ k) where
    module _ (count : ℕ) (buf : Bytes) (w : Fs Disk) (file : File) (t : Fs Disk × File)
        (r : ℕ × Bytes) (some_clus : get_start_cluster file ≢ 0)
        (some_bytes : readable dev file count ≢ 0) where
      abbrev pub n : ℕ
      n = readable dev file count

      -- On a disk where nothing is left to be written, of the table or the file, with the hands of the
      -- clocks in their buffers, a power of two of bytes in a cluster, and numbers of sectors that are
      -- words and not the mark of an empty buffer, and where the device reads what it says unless it
      -- returns 1: a read of a file with a cluster, of more than no bytes, with `loc` behind them a word,
      -- that ends without an error, gives as many bytes as were asked for, or as there are up to the end
      -- of the file. They are those of the file from `loc` on, found along the chain of its clusters in
      -- the table; the rest of the buffer is as before, and `loc` is behind them.
      pub fs_read-IsContent :
          IsSettled dev sector block disk info file.loc (w, file)
          → file.loc + n < 2 ^ 32
          → InRange dev sector block disk info file.loc
              (get_start_cluster file)
              ((file.loc + n - 1) / 2 ^ k)
          → fs_read dev count buf (w, file) ≡ done r t
          → IsContent k file buf n r t
      fs_read-IsContent v fits_loc range e =
          let (u, start, s, got, copied, state) =
            read-Parts dev info k small whole count buf w file t r some_clus some_bytes fits_loc
              v.same_info e in
          let (value, v') =
            follow-chain dev sector block disk info file.loc good_sectors good_blocks fits
              (file.loc / 2 ^ k) (get_start_cluster file) start (w, file) u v got in
          let b : ℕ = 2 ^ k in
          let last : ℕ = file.loc + n - 1 in
          let (ordered, row) = span b file.loc last (pow_pos k) (omega (arith, some_bytes)) in
          let d : ℕ = last / b - file.loc / b in
          let rounds : last / b + 1 - file.loc / b ≡ suc d = omega (arith, ordered) in
          let (all, v'') =
            read_clusters-IsCopied dev sector block disk info file.loc good_sectors good_blocks fits
              b d
              (chain dev sector block disk info file.loc (get_start_cluster file) (file.loc / b))
              (file.loc % b) (last % b) 0 buf u s r whole v'
              (λ j l h. range (file.loc / b + j) (omega (arith, ordered)) (
                ap (λ x. add32 (fs_dataclus2sec info x) info.base_addr)
                  (sym (chain-add file.loc (get_start_cluster file) (file.loc / b) j))
                ∙ h))
              (mod-lt file.loc (pow_pos k))
              (λ z.
                let none_left : d * b ≡ 0 = ap (λ (x : ℕ). x * b) z ∙ omega arith in
                omega (arith, row, none_left, some_bytes))
              (subst (λ x. read_clusters dev (suc d) x (file.loc % b) (last % b) 0 buf u ≡ done r s)
                value
                (subst
                  (λ (x : ℕ).
                    read_clusters dev x start (file.loc % b) (last % b) 0 buf u ≡ done r s)
                  rounds copied)) in
          let bytes =
            copied_content good_sectors good_blocks fits file buf n r.0 r.1 k
              (omega (arith, some_bytes)) all in
          record {
            length_read = bytes.0;
            bytes = bytes.1;
            behind = bytes.2;
            new_loc =
                sym (ap (λ x. x.1.loc) state)
                ∙ ap (λ (x : ℕ). add32 x n) v''.same_loc
                ∙ omega (arith, fits_loc);
          }
