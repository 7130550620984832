-- ===== src/Fat/Bytes.antt =====
-- kernel/fs/fat/utils.c: numbers in arrays of bytes, the logarithm, clusters and sectors; the fields
-- of the boot sector and of a directory entry that the code reads.
pub mod Laws
pub mod Log
pub mod Sectors
use mini_operating_system.Prelude.{
  ℕ, zero, suc, ◌+◌, ◌-◌, ◌*◌, ◌/◌, ◌^◌, ◌%◌, Option, none, some, ltb, if◌then◌else◌, word, add32,
  sub32, update,
}
use mini_operating_system.Fat.{Bytes, FsInfo, File}

unfoldable pub get_u16 : Bytes → (at : ℕ) → ℕ
get_u16 ch at = (ch at + ch (at + 1) * 2 ^ 8) % 2 ^ 16

unfoldable pub get_u32 : Bytes → (at : ℕ) → ℕ
get_u32 ch at = (ch at + ch (at + 1) * 2 ^ 8 + ch (at + 2) * 2 ^ 16 + ch (at + 3) * 2 ^ 24) % word

unfoldable pub set_u16 : Bytes → (at num : ℕ) → Bytes
set_u16 ch at num = update (update ch at (num % 2 ^ 8)) (at + 1) (num / 2 ^ 8 % 2 ^ 8)

unfoldable pub set_u32 : Bytes → (at num : ℕ) → Bytes
set_u32 ch at num =
    update
      (update (update (update ch at (num % 2 ^ 8)) (at + 1) (num / 2 ^ 8 % 2 ^ 8)) (at + 2)
        (num / 2 ^ 16 % 2 ^ 8))
      (at + 3) (num / 2 ^ 24 % 2 ^ 8)

-- `for (i = 0; num > 1; num >>= 1, i++);`
unfoldable pub wa_loop : (fuel num i : ℕ) → Option ℕ
wa_loop zero num i = none
wa_loop (suc fuel) num i =
    let rest = wa_loop fuel (num / 2) (i + 1) in if ltb 1 num then rest else some i

-- A word is 1 or 0 after 31 halvings.
abbrev pub bits_of : Option ℕ → ℕ
bits_of (some i) = i
bits_of none = 0

unfoldable pub fs_wa : ℕ → ℕ
fs_wa num = bits_of (wa_loop 32 num 0)

unfoldable pub get_entry_filesize : Bytes → ℕ
unfolding get_u32
get_entry_filesize entry = get_u32 entry 28

unfoldable pub get_entry_attr : Bytes → ℕ
get_entry_attr entry = entry 11

-- `starthi` is at 20 and `startlow` at 26 of the entry.
unfoldable pub get_start_cluster : File → ℕ
unfolding get_u16
get_start_cluster file = (get_u16 file.entry 20 * 2 ^ 16 + get_u16 file.entry 26) % word

abbrev pub sector_size : FsInfo → ℕ
unfolding get_u16
sector_size info = get_u16 info.bpb 11

abbrev pub sectors_per_cluster : FsInfo → ℕ
sectors_per_cluster info = info.bpb 13

abbrev pub reserved_sectors : FsInfo → ℕ
unfolding get_u16
reserved_sectors info = get_u16 info.bpb 14

abbrev pub num_of_sectors_per_fat : FsInfo → ℕ
unfolding get_u32
num_of_sectors_per_fat info = get_u32 info.bpb 36

-- `fat_info.total_data_clusters + 1`, the last cluster of the disk
abbrev pub last_cluster : FsInfo → ℕ
last_cluster info = add32 info.total_data_clusters 1

-- The sector of the FAT and the offset in it
unfoldable pub cluster_to_fat_entry : FsInfo → (clus : ℕ) → ℕ × ℕ
cluster_to_fat_entry info clus =
    let offset = clus * 2 ^ 2 % word in
    (add32 (add32 (reserved_sectors info) (offset / 2 ^ 9)) info.base_addr, offset % 2 ^ 9)

unfoldable pub fs_dataclus2sec : FsInfo → (clus : ℕ) → ℕ
unfolding fs_wa
fs_dataclus2sec info clus =
    add32 (sub32 clus 2 * 2 ^ fs_wa (sectors_per_cluster info) % word) info.first_data_sector

unfoldable pub fs_sec2dataclus : FsInfo → (sec : ℕ) → ℕ
unfolding fs_wa
fs_sec2dataclus info sec =
    add32 (sub32 sec info.first_data_sector / 2 ^ fs_wa (sectors_per_cluster info)) 2
