-- ===== src/Fat/Table/Hits.antt =====
-- A sector of the table that `read_fat_sector` has found stays in its buffer while no buffer takes
-- another sector.
use mini_operating_system.Prelude.{
  ℕ, zero, suc, ◌<◌, ◌≡◌, ◌≢◌, refl, sym, ap, ◌∙◌, ◌⊎◌, inl, inr, false, ◌&&◌, not, bit_or, ◌==◌,
  update, update_eq, update_ne, add32, subst, arith, Bool-cases, ==_iff,
}
use mini_operating_system.FsCache.{Device, Buf, fs_victim, find_buf, no_sector, dirty, fs_error}
use mini_operating_system.FsCache.Victim.{fs_victim-Chosen}
use mini_operating_system.Fat.{Bytes, FsInfo, Outcome, done, failed, then_do, Fs}
use mini_operating_system.Fat.Bytes.{num_of_sectors_per_fat}
use mini_operating_system.Fat.Table.{
  write_fat_sector, fill_fat_sector, replace_fat_sector, read_fat_sector,
}

-- A read of a sector that is there uses that buffer.
abbrev pub touched : {Disk : Type 0} → ℕ → Fs Disk → Fs Disk
touched i w = record w {
  fat_buf = update w.fat_buf i (record (w.fat_buf i) { state = bit_or (w.fat_buf i).state 1 });
}

module _ {Disk : Type 0} (dev : ℕ → Device Bytes Disk) (sec_num : ℕ) where
  -- The first buffer with the sector, one of the two, is `i`.
  pub record IsFirst (i : ℕ) (bufs : ℕ → Buf Bytes) : Type 0 where
    pub inside : i < 2
    pub holds : (bufs i).cur ≡ sec_num
    pub before : (j : ℕ) → j < i → (bufs j).cur ≢ sec_num

  pub find_buf-IsFirst :
      (i : ℕ) (bufs : ℕ → Buf Bytes) → IsFirst i bufs → find_buf (dev 1) 2 0 sec_num bufs ≡ i
  unfolding find_buf
  find_buf-IsFirst zero bufs f = ground (arith, f.holds)
  find_buf-IsFirst (suc zero) bufs f = ground (arith, f.holds, f.before 0 (omega arith))
  find_buf-IsFirst (suc (suc i)) bufs f = absurd (omega (arith, f.inside))

  -- Every buffer keeps its sector.
  abbrev pub SameCurs : (bufs new : ℕ → Buf Bytes) → Type 0
  SameCurs bufs new = (j : ℕ) → (new j).cur ≡ (bufs j).cur

  pub IsFirst-after :
      (i : ℕ) (bufs new : ℕ → Buf Bytes) → SameCurs bufs new → IsFirst i bufs → IsFirst i new
  IsFirst-after i bufs new s f = record {
    inside = f.inside;
    holds = s i ∙ f.holds;
    before = λ j l e. f.before j l (sym (s j) ∙ e);
  }

  pub update-SameCurs :
      (i : ℕ) (bufs : ℕ → Buf Bytes) (b : Buf Bytes)
      → b.cur ≡ (bufs i).cur
      → SameCurs bufs (update bufs i b)
  update-SameCurs i bufs b e j = elim (Bool-cases (j == i)) [
    | inl f ↦
        ap (λ x. x.cur) (update_eq bufs i b j ((==_iff j i).0 f))
        ∙ e
        ∙ ap (λ k. (bufs k).cur) (sym ((==_iff j i).0 f))
    | inr f ↦ ap (λ x. x.cur) (update_ne bufs i b j f)
  ]

  -- What a read of the sector leaves: it is in buffer `i` and `fat_info` is as it was.
  pub data Held (info : FsInfo) : Outcome (Fs Disk) ℕ → Type 0 where
    held : (i : ℕ) (w : Fs Disk) → IsFirst i w.fat_buf → w.info ≡ info → Held info (done i w)
    lost : (w : Fs Disk) → Held info (failed w)

  pub read_fat_sector-hit :
      (i : ℕ) (w : Fs Disk)
      → IsFirst i w.fat_buf
      → read_fat_sector dev sec_num w ≡ done i (touched i w)
  unfolding read_fat_sector
  read_fat_sector-hit i w f =
      let e = find_buf-IsFirst i w.fat_buf f in
      let in_cache : (i == 2) ≡ false = ground (arith, f.inside) in
      let no_err : (i == fs_error) ≡ false = ground (arith, f.inside) in
      rw (e, in_cache, no_err) refl

  find_buf-cases :
      (bufs : ℕ → Buf Bytes)
      → (IsFirst (find_buf (dev 1) 2 0 sec_num bufs) bufs)
        ⊎ ((find_buf (dev 1) 2 0 sec_num bufs ≡ 2) × ((j : ℕ) → j < 2 → (bufs j).cur ≢ sec_num))
  unfolding find_buf
  find_buf-cases bufs = elim (Bool-cases ((bufs 0).cur == sec_num)) [
    | inl e ↦ inl (
        rw e (record {
          inside = omega arith;
          holds = ground arith;
          before = λ j l. absurd (omega arith);
        }))
    | inr e ↦ elim (Bool-cases ((bufs 1).cur == sec_num)) [
      | inl f ↦ inl (
          rw (e, f)
            (record {
              inside = omega arith;
              holds = ground arith;
              before = λ j l g.
                  ground (
                    arith,
                    e,
                    ap (λ (k : ℕ). (bufs k).cur) (let z : j ≡ 0 = omega (arith, l) in z),
                  );
            }))
      | inr f ↦ inr (
        rw (e, f) refl,
        λ j l g. elim (Bool-cases (j == 0)) [
          | inl z ↦ ground (arith, e, ap (λ (k : ℕ). (bufs k).cur) ((==_iff j 0).0 z))
          | inr z ↦
              let one : j ≡ 1 = ground arith in ground (arith, f, ap (λ (k : ℕ). (bufs k).cur) one)
        ],
      )
    ]
  ]

  read_fat_sector-miss :
      (w : Fs Disk)
      → find_buf (dev 1) 2 0 sec_num w.fat_buf ≡ 2
      → read_fat_sector dev sec_num w ≡ replace_fat_sector dev sec_num w
  unfolding read_fat_sector
  read_fat_sector-miss w e = rw e refl

  data Wrote (w : Fs Disk) : Outcome (Fs Disk) (Unit {0}) → Type 0 where
    wrote : (v : Fs Disk) → SameCurs w.fat_buf v.fat_buf → v.info ≡ w.info → Wrote w (done tt v)
    stopped : (v : Fs Disk) → Wrote w (failed v)

  write_fat_sector-Wrote : (i : ℕ) (w : Fs Disk) → Wrote w (write_fat_sector dev i w)
  unfolding write_fat_sector
  write_fat_sector-Wrote i w =
      let b = w.fat_buf i in
      let first = (dev 1).write_block b.buf b.cur w.disk in
      let copy = (dev 1).write_block b.buf (add32 (num_of_sectors_per_fat w.info) b.cur) first.1 in
      elim (Bool-cases (not (b.cur == no_sector) && dirty b)) [
        | inr e ↦ rw e (wrote w (λ j. refl) refl)
        | inl e ↦ elim (Bool-cases (first.0 == 1)) [
          | inl f ↦ rw (e, f) (stopped _)
          | inr f ↦ elim (Bool-cases (copy.0 == 1)) [
            | inl g ↦ rw (e, f, g) (stopped _)
            | inr g ↦ rw (e, f, g) (wrote _ (update-SameCurs i w.fat_buf _ refl) refl)
          ]
        ]
      ]

  fill_fat_sector-Held :
      (i : ℕ) (w : Fs Disk)
      → i < 2
      → ((j : ℕ) → j < 2 → (w.fat_buf j).cur ≢ sec_num)
      → Held w.info (fill_fat_sector dev sec_num i w)
  unfolding fill_fat_sector
  fill_fat_sector-Held i w l out =
      let r = (dev 1).read_block sec_num (w.fat_buf i).buf w.disk in
      let new : Buf Bytes = record { buf = r.1; cur = sec_num; state = 1 } in
      elim (Bool-cases (r.0 == 1)) [
        | inl e ↦ rw e (lost _)
        | inr e ↦ rw e (
            held i _
              (record {
                inside = l;
                holds = ap (λ x. x.cur) (update_eq w.fat_buf i new i refl);
                before = λ j m g.
                    out j (omega arith)
                      (sym (ap (λ x. x.cur) (update_ne w.fat_buf i new j (ground arith))) ∙ g);
              })
              refl)
      ]

  refill-Held :
      (i : ℕ) (w : Fs Disk) (o : Outcome (Fs Disk) (Unit {0}))
      → i < 2
      → ((j : ℕ) → j < 2 → (w.fat_buf j).cur ≢ sec_num)
      → Wrote w o
      → Held w.info (then_do o (λ _. fill_fat_sector dev sec_num i))
  refill-Held i w o l out (wrote v s e) =
      subst (λ x. Held x (fill_fat_sector dev sec_num i v)) e
        (fill_fat_sector-Held i v l (λ j m g. out j m (sym (s j) ∙ g)))
  refill-Held i w o l out (stopped v) = lost v

  replace-Held :
      (w : Fs Disk)
      → w.fat_clock_head < 2
      → ((j : ℕ) → j < 2 → (w.fat_buf j).cur ≢ sec_num)
      → Held w.info (replace_fat_sector dev sec_num w)
  unfolding replace_fat_sector
  replace-Held w c out =
      let r = fs_victim w.fat_clock_head 2 w.fat_buf in
      let chosen = fs_victim-Chosen w.fat_clock_head 2 w.fat_buf c in
      let picked : Fs Disk = record w { fat_buf = r.2; fat_clock_head = r.1 } in
      refill-Held r.0 picked _ chosen.victim_bound
        (λ j m g. out j m (sym (chosen.unchanged.cur_same j) ∙ g))
        (write_fat_sector-Wrote r.0 picked)

  pub read_fat_sector-Held :
      (w : Fs Disk) → w.fat_clock_head < 2 → Held w.info (read_fat_sector dev sec_num w)
  read_fat_sector-Held w c = elim (find_buf-cases w.fat_buf) [
    | inl f ↦
        rw (read_fat_sector-hit _ w f)
          (held _ _ (IsFirst-after _ w.fat_buf _ (update-SameCurs _ w.fat_buf _ refl) f) refl)
    | inr (e, out) ↦ rw (read_fat_sector-miss w e) (replace-Held w c out)
  ]
