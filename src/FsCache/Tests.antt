-- ===== src/FsCache/Tests.antt =====
-- kernel/fs/fscache/fscache.c at concrete inputs: blocks are numbers, and a disk has one for each
-- sector, or two.
use mini_operating_system.Prelude.{
  true, false, sym, ap, ◌∙◌, ℕ, ◌*◌, ◌≡◌, ◌≢◌, refl, arith, ltb, if◌then◌else◌, update, update_eq,
  update_ne, ◌+◌, Bool-cases, inl, inr,
}
use mini_operating_system.FsCache.{
  Device, Buf, Cache, dirty, fs_victim, sweep_1, sweep_2, fs_write, find_buf, pick, fill, replace,
  fs_read, fs_clr, fs_clr_512, fs_read_512, fs_victim_512, fs_write_512, fs_error,
}
use mini_operating_system.FsCache.Victim.{Chosen, fs_victim-Chosen}
use mini_operating_system.FsCache.View.{IsDevice, IsCache, Written, fs_write-Written}
use mini_operating_system.FsCache.Fill.{Fetched}
use mini_operating_system.FsCache.Read.{fs_read-Fetched}

abbrev ram : Device ℕ (ℕ → ℕ)
ram = record { read_block = λ s b d. (0, d s); write_block = λ b s d. (0, update d s b) }

-- A disk whose blocks have two sectors, each with a number
abbrev disk : Device (ℕ × ℕ) (ℕ → ℕ)
disk = record {
  read_block = λ s b d. (0, (d s, d (s + 1)));
  write_block = λ b s d. (0, update (update d s b.0) (s + 1) b.1);
}

abbrev content : (ℕ → ℕ) → ℕ → ℕ × ℕ
content d s = (d s, d (s + 1))

module _ (b : ℕ × ℕ) (s : ℕ) (d : ℕ → ℕ) where
  abbrev written : ℕ → ℕ
  written = update (update d s b.0) (s + 1) b.1

  first_sector : written s ≡ b.0
  first_sector = update_ne (update d s b.0) (s + 1) b.1 s (ground arith) ∙ update_eq d s b.0 s refl

  other_sector : (t : ℕ) → t ≢ s → t ≢ s + 1 → written t ≡ d t
  other_sector t e f =
      update_ne (update d s b.0) (s + 1) b.1 t (ground (arith, f))
      ∙ update_ne d s b.0 t (ground (arith, e))

disk-IsDevice : IsDevice content 2 0 disk
disk-IsDevice = record {
  reads = λ s b d ok. refl;
  writes = λ b s d ok. (
    ap (λ x. (x, written b s d (s + 1))) (first_sector b s d)
        ∙ ap (λ x. (b.0, x)) (update_eq (update d s b.0) (s + 1) b.1 (s + 1) refl),
    λ t far.
        ap (λ x. (x, written b s d (t + 1)))
          (other_sector b s d t (λ e. omega (arith, e, far)) (λ e. omega (arith, e, far)))
        ∙ ap (λ x. (d t, x))
            (other_sector b s d (t + 1) (λ e. omega (arith, e, far)) (λ e. omega (arith, e, far))),
  );
}

-- The block at sector 4 is in buffer 0 and has to be written, that at sector 6 is in buffer 1 as on
-- the disk.
abbrev two_bufs : ℕ → Buf (ℕ × ℕ)
two_bufs i =
    if ltb i 1
    then record { buf = (1, 2); cur = 4; state = 3 }
    else record { buf = (60, 70); cur = 6; state = 1 }

abbrev pair : Cache (ℕ × ℕ) (ℕ → ℕ)
pair = record { bufs = two_bufs; clock = 0; disk = λ s. s * 10 }

-- The clean buffer is the victim.
victim_1 : (fs_victim 0 2 two_bufs).0 ≡ 1
unfolding fs_victim sweep_1 sweep_2
victim_1 = refl

no_confusion : true ≢ false
no_confusion e = ground arith

pair-IsCache : IsCache content 2 0 2 pair
pair-IsCache = record {
  clock_inside = omega arith;
  distinct = λ i j a b e r. elim (Bool-cases (ltb i 1)) [
    | inl f ↦ elim (Bool-cases (ltb j 1)) [ inl g ↦ ground arith | inr g ↦ ground (arith, e, f, g) ]
    | inr f ↦ elim (Bool-cases (ltb j 1)) [ inl g ↦ ground (arith, e, f, g) | inr g ↦ ground arith ]
  ];
  starts = λ i l r. elim (Bool-cases (ltb i 1)) [ inl f ↦ rw f refl | inr f ↦ rw f refl ];
  clean = λ i l d r. elim (Bool-cases (ltb i 1)) [
    | inl f ↦
        let state_3 : two_bufs i ≡ record { buf = (1, 2); cur = 4; state = 3 } = rw f refl in
        absurd (no_confusion (sym (ap dirty state_3) ∙ d))
    | inr f ↦ rw f refl
  ];
}

miss : (fs_read disk 0 8 2 pair).0 ≡ 1
unfolding fs_read find_buf replace fill fs_write pick fs_victim sweep_1 sweep_2
miss = refl

fs_victim-Chosen_example : Chosen 2 two_bufs (fs_victim 0 2 two_bufs)
fs_victim-Chosen_example = fs_victim-Chosen 0 2 two_bufs (omega arith)

write_ok : (fs_write disk 0 pair).0 ≢ 1
unfolding fs_write
write_ok e = omega (arith, e)

fs_write-Written_example : Written content 2 0 2 pair 0 (fs_write disk 0 pair).1
fs_write-Written_example =
    fs_write-Written content 2 0 2 disk disk-IsDevice pair pair-IsCache 0 (omega arith) write_ok

read_ok : (fs_read disk 0 8 2 pair).0 ≢ fs_error
read_ok e = omega (arith, miss, e)

fs_read-Fetched_example : Fetched content 2 0 2 pair 8 (fs_read disk 0 8 2 pair)
fs_read-Fetched_example =
    fs_read-Fetched content 2 0 2 disk disk-IsDevice 8 (λ e. omega (arith, e)) refl 0 8 pair refl
      pair-IsCache read_ok

abbrev idle : Cache ℕ (ℕ → ℕ)
idle = record {
  bufs = λ i. record { buf = 10 * i; cur = i; state = 0 };
  clock = 0;
  disk = λ s. s * 10;
}

-- A cleared sector is in a buffer, with nothing to write, and the block of the disk is as it was: a
-- second clearing of the same sector puts it in a second buffer.
abbrev cleared_twice : Cache ℕ (ℕ → ℕ)
unfolding fs_clr fs_write pick fs_victim sweep_1 sweep_2
cleared_twice = (fs_clr_512 ram 0 9 2 (fs_clr_512 ram 0 9 2 idle).1).1

twice : ((cleared_twice.bufs 0).cur ≡ 9) × ((cleared_twice.bufs 1).cur ≡ 9)
unfolding cleared_twice fs_clr fs_write pick fs_victim sweep_1 sweep_2
twice = (refl, refl)

same_functions :
    ((fs_read_512 disk 0 8 2 pair).0 ≡ (fs_read disk 0 8 2 pair).0)
    × ((fs_victim_512 0 2 two_bufs).0 ≡ 1)
    × ((fs_write_512 disk 0 pair).0 ≡ 0)
unfolding fs_victim sweep_1 sweep_2 fs_write
same_functions = (refl, refl, refl)
