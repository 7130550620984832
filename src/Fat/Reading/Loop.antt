-- ===== src/Fat/Reading/Loop.antt =====
-- The loops of `fs_read` in kernel/fs/fat/fat.c along the chain of a file's clusters.
use mini_operating_system.Prelude.{
  ℕ, zero, suc, ◌+◌, ◌-◌, ◌*◌, ◌^◌, ◌<◌, ◌≤◌, ◌≡◌, ◌≢◌, ◌⊎◌, inl, inr, refl, sym, ap, ◌∙◌, add32,
  subst, arith,
}
use mini_operating_system.FsCache.{Device, no_sector}
use mini_operating_system.FsCache.Clean.{Reads}
use mini_operating_system.Fat.{Bytes, FsInfo, done, on_first, File, Fs}
use mini_operating_system.Fat.Bytes.{reserved_sectors, sectors_per_cluster, fs_dataclus2sec}
use mini_operating_system.Fat.Table.{get_fat_entry_value}
use mini_operating_system.Fat.Reading.{
  copy_bytes, read_cluster, follow, read_clusters, cluster_bytes,
}
use mini_operating_system.Fat.Reading.Steps.{
  then_do-done, IsSettled, entry_of, block_of, entry_step, block_step,
}
use mini_operating_system.Fat.Reading.Rounds.{
  read_last, read_more, done_parts, copied_in, copied_out,
}

module _ {Disk : Type 0} (dev : ℕ → Device Bytes Disk) (sector block : ℕ → Bytes) (disk : Disk)
    (info : FsInfo) (loc : ℕ) where
  abbrev Settled : Fs Disk × File → Type 0
  Settled = IsSettled dev sector block disk info loc

  -- The cluster `j` places behind `clus` in the chain that the table on the disk has
  abbrev pub chain : (clus j : ℕ) → ℕ
  chain clus zero = clus
  chain clus (suc j) = chain (entry_of dev sector block disk info loc clus) j

  abbrev pub block_at : (clus j : ℕ) → Bytes
  block_at clus j = block_of dev sector block disk info loc (chain clus j)

  -- The first sector of each of the clusters up to `last` can be told from an empty buffer.
  abbrev pub InRange : (clus last : ℕ) → Type 0
  InRange clus last =
      (j : ℕ) → j ≤ last → add32 (fs_dataclus2sec info (chain clus j)) info.base_addr ≢ no_sector

  module _ (good_sectors : Reads (dev 1) sector 2 disk)
      (good_blocks : Reads (dev (sectors_per_cluster info)) block 4 disk)
      (fits : reserved_sectors info + 2 ^ 23 + info.base_addr < no_sector) where
    pub follow-chain :
        (rounds clus n : ℕ) (s t : Fs Disk × File)
        → Settled s
        → follow dev rounds clus s ≡ done n t
        → (n ≡ chain clus rounds) × Settled t
    unfolding follow
    follow-chain zero clus n s t r e = (cc, subst Settled (let same : s ≡ t = cc in same) r)
    follow-chain (suc rounds) clus n s t r e =
        let (next, u, got, rest) =
          then_do-done (on_first (get_fat_entry_value dev clus) s) (follow dev rounds) n t e in
        let (value, r') =
          entry_step dev sector block disk info loc good_sectors good_blocks fits clus next s u r
            got in
        let (end, r'') = follow-chain rounds next n u t r' rest in
        (end ∙ ap (λ (c : ℕ). chain c rounds) value, r'')

    module _ (size : ℕ) where
      -- `out` is `buf` with the bytes from `start_byte` of the first of the clusters to `end_byte` of
      -- the last, `rounds` further on, at `cc`.
      pub record IsCopied (rounds clus start_byte end_byte cc : ℕ) (buf : Bytes) (cc' : ℕ)
          (out : Bytes) : Type 0 where
        pub length_read : cc' + start_byte ≡ cc + (rounds * size + end_byte + 1)
        pub bytes :
            (q i j : ℕ)
            → i < size
            → j + start_byte ≡ cc + (q * size + i)
            → start_byte ≤ q * size + i
            → (q < rounds) ⊎ ((q ≡ rounds) × (i ≤ end_byte))
            → out j ≡ block_at clus q i
        pub before : (j : ℕ) → j < cc → out j ≡ buf j
        pub behind : (j : ℕ) → cc' ≤ j → out j ≡ buf j

      last-IsCopied :
          (clus start_byte end_byte cc : ℕ) (buf source : Bytes)
          → start_byte ≤ end_byte
          → source ≡ block_at clus 0
          → IsCopied 0 clus start_byte end_byte cc buf
              (cc + (end_byte + 1 - start_byte))
              (copy_bytes (end_byte + 1 - start_byte) start_byte cc source buf)
      last-IsCopied clus start_byte end_byte cc buf source h e = record {
        length_read = omega (arith, h);
        bytes = λ q i j l place low within. elim within [
          | inl none_left ↦ absurd (omega (arith, none_left))
          | inr (one, le) ↦
              let row : q * size ≡ 0 = ap (λ (t : ℕ). t * size) one ∙ omega arith in
              copied_in (end_byte + 1 - start_byte) start_byte cc source buf i j (omega arith)
                (omega arith) (omega arith)
              ∙ ap (λ b. b i) (e ∙ ap (block_at clus) (sym one))
        ];
        before = λ j l. copied_out (end_byte + 1 - start_byte) start_byte cc source buf j (inl l);
        behind = λ j l. copied_out (end_byte + 1 - start_byte) start_byte cc source buf j (inr l);
      }

      more-IsCopied :
          (rounds clus next start_byte end_byte cc cc' : ℕ) (buf source out : Bytes)
          → start_byte < size
          → source ≡ block_at clus 0
          → next ≡ entry_of dev sector block disk info loc clus
          → IsCopied rounds next 0 end_byte
              (cc + (size - start_byte))
              (copy_bytes (size - start_byte) start_byte cc source buf)
              cc'
              out
          → IsCopied (suc rounds) clus start_byte end_byte cc buf cc' out
      more-IsCopied rounds clus next start_byte end_byte cc cc' buf source out h e f c = record {
        length_read = omega (arith, c.length_read, h);
        bytes = more_bytes;
        before = λ j l.
            c.before j (omega arith)
            ∙ copied_out (size - start_byte) start_byte cc source buf j (inl l);
        behind = λ j l.
            c.behind j l
            ∙ copied_out (size - start_byte) start_byte cc source buf j
                (inr (omega (arith, c.length_read)));
      }
        where
          more_bytes :
              (q i j : ℕ)
              → i < size
              → j + start_byte ≡ cc + (q * size + i)
              → start_byte ≤ q * size + i
              → (q < suc rounds) ⊎ ((q ≡ suc rounds) × (i ≤ end_byte))
              → out j ≡ block_at clus q i
          more_bytes zero i j l place low within =
              c.before j (omega arith)
              ∙ copied_in (size - start_byte) start_byte cc source buf i j (omega arith)
                  (omega arith) (omega arith)
              ∙ ap (λ b. b i) e
          more_bytes (suc q) i j l place low within =
              c.bytes q i j l (omega arith) (omega arith) (elim within [
                | inl k ↦ inl (omega (arith, k))
                | inr (k, le) ↦ inr (omega (arith, k), le)
              ])
              ∙ ap (λ x. block_of dev sector block disk info loc (chain x q) i) f

      pub read_clusters-IsCopied :
          (rounds clus start_byte end_byte cc : ℕ) (buf : Bytes) (s t : Fs Disk × File)
          (r : ℕ × Bytes)
          → sectors_per_cluster info * 2 ^ 9 ≡ size
          → Settled s
          → InRange clus rounds
          → start_byte < size
          → (rounds ≡ 0 → start_byte ≤ end_byte)
          → read_clusters dev (suc rounds) clus start_byte end_byte cc buf s ≡ done r t
          → IsCopied rounds clus start_byte end_byte cc buf r.0 r.1 × Settled t
      read_clusters-IsCopied zero clus start_byte end_byte cc buf s t r whole v range h k e =
          let (index, u, got, rest) =
            then_do-done (read_cluster dev clus s) _ r t
              (sym (read_last dev clus start_byte end_byte cc buf s) ∙ e) in
          let (source, v') =
            block_step dev sector block disk info loc good_sectors good_blocks fits clus index s u
              (range 0 (omega arith)) v got in
          let (result, state) = done_parts rest in
          (
            subst (λ x. IsCopied 0 clus start_byte end_byte cc buf x.0 x.1) result
                (last-IsCopied clus start_byte end_byte cc buf (u.1.data_buf index).buf (k refl)
                  source),
            subst Settled state v',
          )
      read_clusters-IsCopied (suc rounds) clus start_byte end_byte cc buf s t r whole v range h k
            e =
          let (index, u, got, rest) =
            then_do-done (read_cluster dev clus s) _ r t
              (sym (read_more dev rounds clus start_byte end_byte cc buf s) ∙ e) in
          let (source, v') =
            block_step dev sector block disk info loc good_sectors good_blocks fits clus index s u
              (range 0 (omega arith)) v got in
          let (next, w, got_next, rest') =
            then_do-done (on_first (get_fat_entry_value dev clus) u) _ r t rest in
          let (value, v'') =
            entry_step dev sector block disk info loc good_sectors good_blocks fits clus next u w v'
              got_next in
          let same_size : cluster_bytes dev u.0 ≡ size =
            ap (λ x. sectors_per_cluster x * 2 ^ 9) v'.same_info ∙ whole in
          let later : InRange next rounds = λ j l.
            subst (λ x. add32 (fs_dataclus2sec info (chain x j)) info.base_addr ≢ no_sector)
              (sym value) (range (suc j) (omega arith)) in
          let (copied, v_end) =
            read_clusters-IsCopied rounds next 0 end_byte (cc + (size - start_byte))
              (copy_bytes (size - start_byte) start_byte cc (u.1.data_buf index).buf buf) w t r
              whole v'' later (omega arith) (λ z. omega arith)
              (subst
                (λ n.
                  read_clusters dev (suc rounds) next 0 end_byte (cc + (n - start_byte))
                    (copy_bytes (n - start_byte) start_byte cc (u.1.data_buf index).buf buf) w
                  ≡ done r t)
                same_size rest') in
          (
            more-IsCopied rounds clus next start_byte end_byte cc r.0 buf (u.1.data_buf index).buf
                r.1 h source value copied,
            v_end,
          )
