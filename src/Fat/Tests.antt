-- ===== src/Fat/Tests.antt =====
-- kernel/fs/fat at concrete inputs: a disk has an array of bytes for each sector.
use mini_operating_system.Prelude.{
  ℕ, zero, suc, ◌+◌, ◌*◌, ◌/◌, ◌%◌, ◌^◌, ◌<◌, ◌≤◌, ◌≡◌, ◌≢◌, ◌⊎◌, refl, arith, ◌==◌, if◌then◌else◌,
  update, some, ltb,
}
use mini_operating_system.FsCache.{
  Device, Buf, no_sector, fs_victim, sweep_1, sweep_2, find_buf, fs_write, fill, replace,
}
use mini_operating_system.FsCache
use mini_operating_system.Fat.{Bytes, Outcome, done, failed, spins, FsInfo, File, Fs}
use mini_operating_system.Fat.Bytes.{
  get_u16, get_u32, set_u32, wa_loop, fs_wa, cluster_to_fat_entry, fs_dataclus2sec, fs_sec2dataclus,
  get_start_cluster,
}
use mini_operating_system.Fat.Bytes.Laws.{get_u32-set_u32}
use mini_operating_system.Fat.Bytes.Log.{fs_wa-log}
use mini_operating_system.Fat.Bytes.Sectors.{fs_sec2dataclus-fs_dataclus2sec}
use mini_operating_system.Fat.Table.{
  write_fat_sector, fill_fat_sector, replace_fat_sector, read_fat_sector, get_fat_entry_value,
  put_at, fs_modify_fat,
}
use mini_operating_system.Fat.Table.Entries.{fs_modify_fat-get}
use mini_operating_system.Fat.Reading.{read_cluster, follow, read_clusters, fs_read}
use mini_operating_system.Fat.Reading.Steps.{IsSettled}
use mini_operating_system.Fat.Reading.Loop.{InRange}
use mini_operating_system.Fat.Reading.Content.{IsContent, fs_read-IsContent}

abbrev blank : Bytes
blank _ = 0

get_u32-set_u32_example :
    (get_u32 (set_u32 blank 10 0x12345678) 10 ≡ 0x12345678)
    × ((j : ℕ) → (j < 10) ⊎ (14 ≤ j) → set_u32 blank 10 0x12345678 j ≡ 0)
get_u32-set_u32_example = get_u32-set_u32 blank 10 0x12345678 (omega arith)

fs_wa-log_example :
    (wa_loop 32 40 0 ≡ some (fs_wa 40)) × (2 ^ fs_wa 40 ≤ 40) × (40 < 2 * 2 ^ fs_wa 40)
fs_wa-log_example = fs_wa-log 40 (omega arith) (omega arith)

wa_40 : fs_wa 40 ≡ 5
unfolding fs_wa wa_loop
wa_40 = refl

-- Eight sectors in a cluster
abbrev info_8 : FsInfo
info_8 = record {
  base_addr = 63;
  total_data_clusters = 70000;
  first_data_sector = 1000;
  bpb = λ i. if i == 13 then 8 else 0;
  fat_fs_info = blank;
}

fs_sec2dataclus-fs_dataclus2sec_example :
    fs_sec2dataclus info_8 (fs_dataclus2sec info_8 20 + 5) ≡ 20
fs_sec2dataclus-fs_dataclus2sec_example =
    fs_sec2dataclus-fs_dataclus2sec info_8 3 20 5 (omega arith) refl (omega arith) (omega arith)
      (omega arith) (omega arith)

abbrev Sectors : Type 0
Sectors = ℕ → Bytes

abbrev ram : ℕ → Device Bytes Sectors
ram count = record { read_block = λ s b d. (0, d s); write_block = λ b s d. (0, update d s b) }

-- One sector in a cluster; the chain of cluster 2 goes on to cluster 3, which is the last.
abbrev info_1 : FsInfo
info_1 = record {
  base_addr = 0;
  total_data_clusters = 70000;
  first_data_sector = 10;
  bpb = λ i. if i == 13 then 1 else if i == 36 then 5 else 0;
  fat_fs_info = blank;
}

abbrev sectors : Sectors
sectors s i =
    if s == 0
    then (if i == 8
        then 3
        else if ltb i 12
        then 0
        else if ltb i 15
        then 0xff
        else if i == 15
        then 0x0f
        else 0)
    else (s + i) % 256

abbrev no_buf : ℕ → Buf Bytes
no_buf _ = record { buf = blank; cur = no_sector; state = 0 }

-- A file of 1000 bytes from cluster 2 on, read up to byte 510
abbrev two_clusters : File
two_clusters = record {
  path = blank;
  loc = 510;
  dir_entry_pos = 0;
  dir_entry_sector = 0;
  entry = λ i. if i == 26 then 2 else if i == 28 then 0xe8 else if i == 29 then 3 else 0;
  clock_head = 0;
  data_buf = no_buf;
}

abbrev fresh : Fs Sectors
fresh = record {
  info = info_1;
  fat_buf = no_buf;
  fat_clock_head = 0;
  dir_data_buf = no_buf;
  dir_data_clock_head = 0;
  filename11 = blank;
  mk_dir_buf = blank;
  file_create = two_clusters;
  dir_find = two_clusters;
  disk = sectors;
}

abbrev state_of : {S A : Type 0} → S → Outcome S A → S
state_of d (done a s) = s
state_of d (failed s) = s
state_of d spins = d

abbrev value_of : {S A : Type 0} → A → Outcome S A → A
value_of d (done a s) = a
value_of d (failed s) = d
value_of d spins = d

abbrev changed : Fs Sectors
unfolding fs_modify_fat
changed = state_of fresh (fs_modify_fat ram 3 4 fresh)

change_ends : fs_modify_fat ram 3 4 fresh ≡ done tt changed
unfolding get_u16 get_u32 changed fs_modify_fat read_fat_sector replace_fat_sector write_fat_sector
    fill_fat_sector cluster_to_fat_entry put_at find_buf fs_victim sweep_1 sweep_2
change_ends = refl

fs_modify_fat-get_example :
    ((u : Fs Sectors) × (get_fat_entry_value ram 3 changed ≡ done 4 u))
    × ((other n : ℕ) (u : Fs Sectors)
        → other / 128 ≡ 0
        → other < 2 ^ 30
        → 3 < 2 ^ 30
        → other ≢ 3
        → get_fat_entry_value ram other fresh ≡ done n u
        → (t : Fs Sectors) × (get_fat_entry_value ram other changed ≡ done n t))
fs_modify_fat-get_example = fs_modify_fat-get ram 3 4 fresh changed (omega arith) change_ends

abbrev four_read : Outcome (Fs Sectors × File) (ℕ × Bytes)
unfolding fs_read
four_read = fs_read ram 4 blank (fresh, two_clusters)

abbrev after_four : Fs Sectors × File
unfolding four_read
after_four = state_of (fresh, two_clusters) four_read

abbrev got_four : ℕ × Bytes
unfolding four_read
got_four = value_of (0, blank) four_read

four_ends : fs_read ram 4 blank (fresh, two_clusters) ≡ done got_four after_four
unfolding got_four after_four four_read fs_read follow read_clusters read_cluster
    get_fat_entry_value read_fat_sector replace_fat_sector write_fat_sector fill_fat_sector
    cluster_to_fat_entry find_buf fs_victim sweep_1 sweep_2 FsCache.fs_read fs_write fill replace
    get_start_cluster get_u32 get_u16 fs_wa wa_loop fs_dataclus2sec
four_ends = refl

-- The last two bytes of sector 10 and the first two of sector 11
four_bytes : got_four.0 ≡ 4
unfolding got_four after_four four_read fs_read follow read_clusters read_cluster
    get_fat_entry_value read_fat_sector replace_fat_sector write_fat_sector fill_fat_sector
    cluster_to_fat_entry find_buf fs_victim sweep_1 sweep_2 FsCache.fs_read fs_write fill replace
    get_start_cluster get_u32 get_u16 fs_wa wa_loop fs_dataclus2sec
four_bytes = refl

nothing_pending : IsSettled ram sectors sectors sectors info_1 510 (fresh, two_clusters)
nothing_pending = record {
  table = record {
    clock_inside = omega arith;
    clean = λ i l. refl;
    stored = λ i l r. absurd (r refl);
    same_disk = refl;
  };
  contents = record {
    clock_inside = omega arith;
    clean = λ i l. refl;
    stored = λ i l r. absurd (r refl);
    same_disk = refl;
  };
  same_info = refl;
  same_loc = refl;
}

in_range : InRange ram sectors sectors sectors info_1 510 2 1
unfolding fs_dataclus2sec cluster_to_fat_entry get_u32 get_u16 fs_wa wa_loop
in_range zero l e = omega (arith, e)
in_range (suc zero) l e = omega (arith, e)
in_range (suc (suc j)) l e = absurd (omega (arith, l))

start_2 : get_start_cluster two_clusters ≡ 2
unfolding get_start_cluster get_u16
start_2 = refl

fs_read-IsContent_example :
    IsContent ram sectors sectors sectors info_1 9 two_clusters blank 4 got_four after_four
unfolding get_u16 get_u32 get_start_cluster cluster_to_fat_entry
fs_read-IsContent_example =
    fs_read-IsContent ram sectors sectors sectors info_1 (λ s b ok. refl) (λ s b ok. refl)
      (omega arith) 9 (omega arith) refl 4 blank fresh two_clusters after_four got_four
      (λ e. omega (arith, e)) (λ e. omega (arith, e)) nothing_pending (omega arith) in_range
      four_ends
