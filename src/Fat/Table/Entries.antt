-- ===== src/Fat/Table/Entries.antt =====
-- An entry of the table that `fs_modify_fat` of kernel/fs/fat/utils.c has put in, read again.
use mini_operating_system.Prelude.{
  ℕ, ◌+◌, ◌*◌, ◌/◌, ◌%◌, ◌^◌, ◌<◌, ◌≡◌, ◌≢◌, ◌⊎◌, inl, inr, refl, sym, ap, ◌∙◌, bit_or, arith, word,
  add32, update_eq, subst, ltb, Bool-cases,
}
use mini_operating_system.Prelude.Masks.{bit_or-high_4}
use mini_operating_system.FsCache.{Device}
use mini_operating_system.Fat.{Bytes, FsInfo, Outcome, done, then_do, modify, Fs}
use mini_operating_system.Fat.Bytes.{get_u32, set_u32, cluster_to_fat_entry, reserved_sectors}
use mini_operating_system.Fat.Bytes.Laws.{get_u32-set_u32}
use mini_operating_system.Fat.Table.{
  read_fat_sector, get_fat_entry_value, put_entry, put_at, fs_modify_fat,
}
use mini_operating_system.Fat.Table.Hits.{
  IsFirst, IsFirst-after, update-SameCurs, Held, held, lost, touched, read_fat_sector-hit,
  read_fat_sector-Held,
}

module _ (buf : Bytes) (at value : ℕ) where
  put_entry_word :
      (z : ℕ) × (z < 16) × (put_entry buf at value ≡ set_u32 buf at (z * 2 ^ 28 + value % 2 ^ 28))
  unfolding put_entry
  put_entry_word =
      let (z, l, e) = bit_or-high_4 (get_u32 buf at) (value % 2 ^ 28) (omega arith) in
      (z, l, ap (set_u32 buf at) e)

  get-put_entry : get_u32 (put_entry buf at value) at % 2 ^ 28 ≡ value % 2 ^ 28
  get-put_entry =
      let (z, l, e) = put_entry_word in
      let read = (get_u32-set_u32 buf at (z * 2 ^ 28 + value % 2 ^ 28) (omega (arith, l))).0 in
      ap (λ b. get_u32 b at % 2 ^ 28) e ∙ ap (λ (n : ℕ). n % 2 ^ 28) read ∙ omega arith

  get-put_entry_ne :
      (o : ℕ)
      → (o + 4 < at + 1) ⊎ (at + 4 < o + 1)
      → get_u32 (put_entry buf at value) o ≡ get_u32 buf o
  unfolding get_u32
  get-put_entry_ne o far =
      let (z, l, e) = put_entry_word in
      let same = (get_u32-set_u32 buf at (z * 2 ^ 28 + value % 2 ^ 28) (omega (arith, l))).1 in
      ap (λ b. get_u32 b o) e ∙ ground (arith, same o, same (o + 1), same (o + 2), same (o + 3))

module _ {Disk : Type 0} (dev : ℕ → Device Bytes Disk) where
  -- Where the entry's sector is in buffer `i`.
  get_at :
      (clus i : ℕ) (v : Fs Disk)
      → IsFirst dev (cluster_to_fat_entry v.info clus).0 i v.fat_buf
      → get_fat_entry_value dev clus v
        ≡ done
            (get_u32 (v.fat_buf i).buf (cluster_to_fat_entry v.info clus).1 % 2 ^ 28)
            (touched i v)
  unfolding get_fat_entry_value
  get_at clus i v f =
      let sec_num = (cluster_to_fat_entry v.info clus).0 in
      let at = (cluster_to_fat_entry v.info clus).1 in
      rw (read_fat_sector-hit dev sec_num i v f) (
        ap (λ b. done (get_u32 b.buf at % 2 ^ 28) (touched i v))
          (update_eq v.fat_buf i (record (v.fat_buf i) { state = bit_or (v.fat_buf i).state 1 }) i
            refl))

  get_from :
      (clus : ℕ) (w : Fs Disk) (i : ℕ) (v : Fs Disk)
      → read_fat_sector dev (cluster_to_fat_entry w.info clus).0 w ≡ done i v
      → get_fat_entry_value dev clus w
        ≡ done (get_u32 (v.fat_buf i).buf (cluster_to_fat_entry w.info clus).1 % 2 ^ 28) v
  unfolding get_fat_entry_value
  get_from clus w i v e = rw e refl

  -- What a change of an entry that succeeds has done.
  record IsPut (clus value : ℕ) (w v : Fs Disk) : Type 0 where
    index : ℕ
    state : Fs Disk
    was_read : read_fat_sector dev (cluster_to_fat_entry w.info clus).0 w ≡ done index state
    first : IsFirst dev (cluster_to_fat_entry w.info clus).0 index state.fat_buf
    same_info : state.info ≡ w.info
    stands : v ≡ put_at index (cluster_to_fat_entry w.info clus).1 value state

  fs_modify_fat-IsPut :
      (clus value : ℕ) (w v : Fs Disk)
      → w.fat_clock_head < 2
      → fs_modify_fat dev clus value w ≡ done tt v
      → IsPut clus value w v
  unfolding fs_modify_fat
  fs_modify_fat-IsPut clus value w v c =
      from_held (read_fat_sector dev (cluster_to_fat_entry w.info clus).0 w) refl
        (read_fat_sector-Held dev (cluster_to_fat_entry w.info clus).0 w c)
    where
      from_held :
          (o : Outcome (Fs Disk) ℕ)
          → read_fat_sector dev (cluster_to_fat_entry w.info clus).0 w ≡ o
          → Held dev (cluster_to_fat_entry w.info clus).0 w.info o
          → then_do o (λ index. modify (put_at index (cluster_to_fat_entry w.info clus).1 value))
            ≡ done tt v
          → IsPut clus value w v
      from_held o e (held i u f same) put = record {
        index = i;
        state = u;
        was_read = e;
        first = f;
        same_info = same;
        stands = cc;
      }
      from_held o e (lost u) put = cc

  -- In the buffer of an entry that was put in, all sectors are where they were.
  module _ (clus value : ℕ) (w v : Fs Disk) (p : IsPut clus value w v) where
    abbrev at : ℕ
    at = (cluster_to_fat_entry w.info clus).1

    block_now : (v.fat_buf p.index).buf ≡ put_entry (p.state.fat_buf p.index).buf at value
    unfolding put_at
    block_now =
        ap (λ u. (u.fat_buf p.index).buf) p.stands
        ∙ ap (λ b. b.buf) (update_eq p.state.fat_buf p.index _ p.index refl)

    put_info : v.info ≡ w.info
    unfolding put_at
    put_info = ap (λ u. u.info) p.stands ∙ p.same_info

    put-IsFirst : IsFirst dev (cluster_to_fat_entry w.info clus).0 p.index v.fat_buf
    unfolding put_at
    put-IsFirst =
        subst (λ u. IsFirst dev (cluster_to_fat_entry w.info clus).0 p.index u.fat_buf)
          (sym p.stands)
          (IsFirst-after dev (cluster_to_fat_entry w.info clus).0 p.index p.state.fat_buf _
            (update-SameCurs dev (cluster_to_fat_entry w.info clus).0 p.index p.state.fat_buf _
              refl)
            p.first)

    -- An entry of the sector as it is found now
    get_now :
        (c : ℕ)
        → (cluster_to_fat_entry w.info c).0 ≡ (cluster_to_fat_entry w.info clus).0
        → get_fat_entry_value dev c v
          ≡ done
              (get_u32
                  (put_entry (p.state.fat_buf p.index).buf at value)
                  (cluster_to_fat_entry w.info c).1
                % 2 ^ 28)
              (touched p.index v)
    get_now c near =
        let same = ap (λ x. cluster_to_fat_entry x c) put_info in
        subst
          (λ t.
            get_fat_entry_value dev c v
            ≡ done (get_u32 (v.fat_buf p.index).buf t.1 % 2 ^ 28) (touched p.index v))
          same
          (get_at c p.index v (
            subst (λ s. IsFirst dev s p.index v.fat_buf) (sym (ap (λ t. t.0) same ∙ near))
              put-IsFirst))
        ∙ ap (λ b. done (get_u32 b (cluster_to_fat_entry w.info c).1 % 2 ^ 28) (touched p.index v))
            block_now

    get_other :
        (other n : ℕ) (u : Fs Disk)
        → (cluster_to_fat_entry w.info other).0 ≡ (cluster_to_fat_entry w.info clus).0
        → ((cluster_to_fat_entry w.info other).1 + 4 < at + 1)
          ⊎ (at + 4 < (cluster_to_fat_entry w.info other).1 + 1)
        → get_fat_entry_value dev other w ≡ done n u
        → get_fat_entry_value dev other v ≡ done n (touched p.index v)
    get_other other n u near far e =
        let o = (cluster_to_fat_entry w.info other).1 in
        let before =
          get_from other w p.index p.state (ap (λ s. read_fat_sector dev s w) near ∙ p.was_read) in
        let same = get-put_entry_ne (p.state.fat_buf p.index).buf at value o far in
        let value_n : get_u32 (p.state.fat_buf p.index).buf o % 2 ^ 28 ≡ n = cc in
        get_now other near
        ∙ ap (λ m. done m (touched p.index v)) (ap (λ (m : ℕ). m % 2 ^ 28) same ∙ value_n)

  same_sector :
      (info : FsInfo) (a b : ℕ)
      → a / 128 ≡ b / 128
      → a < 2 ^ 30
      → b < 2 ^ 30
      → a ≢ b
      → ((cluster_to_fat_entry info a).0 ≡ (cluster_to_fat_entry info b).0)
        × (((cluster_to_fat_entry info a).1 + 4 < (cluster_to_fat_entry info b).1 + 1)
            ⊎ ((cluster_to_fat_entry info b).1 + 4 < (cluster_to_fat_entry info a).1 + 1))
  unfolding cluster_to_fat_entry
  same_sector info a b e f g ne =
      let row : a * 4 % word / 2 ^ 9 ≡ b * 4 % word / 2 ^ 9 = omega arith in
      (
        ap (λ (n : ℕ). add32 (add32 (reserved_sectors info) n) info.base_addr) row,
        elim (Bool-cases (ltb a b)) [
          | inl l ↦ let below : a < b = ground arith in inl (omega (arith, below))
          | inr l ↦ let below : b < a = ground arith in inr (omega (arith, below))
        ],
      )

  -- With the clock of the table's buffers inside: after a change of the entry of a cluster that ends
  -- without an error, reading the entry succeeds and gives the low 28 bits of the new value; and every
  -- other entry in the same sector of the table is read as before, if it could be read.
  pub fs_modify_fat-get :
      (clus value : ℕ) (w v : Fs Disk)
      → w.fat_clock_head < 2
      → fs_modify_fat dev clus value w ≡ done tt v
      → ((u : Fs Disk) × (get_fat_entry_value dev clus v ≡ done (value % 2 ^ 28) u))
        × ((other n : ℕ) (u : Fs Disk)
            → other / 128 ≡ clus / 128
            → other < 2 ^ 30
            → clus < 2 ^ 30
            → other ≢ clus
            → get_fat_entry_value dev other w ≡ done n u
            → (t : Fs Disk) × (get_fat_entry_value dev other v ≡ done n t))
  fs_modify_fat-get clus value w v c e =
      let p = fs_modify_fat-IsPut clus value w v c e in
      let own =
        get-put_entry (p.state.fat_buf p.index).buf (cluster_to_fat_entry w.info clus).1 value in
      (
        (
          touched p.index v,
          get_now clus value w v p clus refl ∙ ap (λ m. done m (touched p.index v)) own,
        ),
        λ other n u row small_o small ne read.
            let (near, far) = same_sector w.info other clus row small_o small ne in
            (touched p.index v, get_other clus value w v p other n u near far read),
      )
