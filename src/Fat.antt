-- ===== src/Fat.antt =====
-- kernel/fs/fat: the FAT32 file system over the caches of kernel/fs/fscache. The state of the module,
-- the structures of include/zjunix/fs/fat.h, and functions that can jump to their error label.
mod Bytes
mod Table
mod Path
mod Find
mod Reading
mod Write
mod Create
mod Usr
mod Dir
mod Init
mod Names
mod Tests
use mini_operating_system.Prelude.{
  ℕ, zero, suc, ◌+◌, ◌*◌, ◌^◌, ◌%◌, Bool, true, false, Option, none, some, ◌==◌, if◌then◌else◌,
}
use mini_operating_system.FsCache.{Device, Buf, Cache, fs_read, fs_error}

-- `u8 *`
abbrev pub Bytes : Type 0
Bytes = ℕ → ℕ

-- How a function ends: by its last `return` with a value, by the error label, or not within the fuel.
-- The state is the one that it leaves.
pub data Outcome (S A : Type 0) : Type 0 where
  done : A → S → Outcome S A
  failed : S → Outcome S A
  spins : Outcome S A

abbrev pub Act : Type 0 → Type 0 → Type 0
Act S A = S → Outcome S A

infixl 5 ◌>>=◌ ◌>>◌
abbrev pub then_do : {S A B : Type 0} → Outcome S A → (A → Act S B) → Outcome S B
then_do (done a s) f = f a s
then_do (failed s) f = failed s
then_do spins f = spins

abbrev pub ◌>>=◌ : {S A B : Type 0} → Act S A → (A → Act S B) → Act S B
◌>>=◌ m f s = then_do (m s) f

abbrev pub ◌>>◌ : {S A B : Type 0} → Act S A → Act S B → Act S B
m >> k = m >>= λ _. k

abbrev pub pure : {S A : Type 0} → A → Act S A
pure a s = done a s

-- `goto` the error label
abbrev pub fail : {S A : Type 0} → Act S A
fail s = failed s

-- The function does not come to an end.
abbrev pub hang : {S A : Type 0} → Act S A
hang s = spins

abbrev pub gets : {S A : Type 0} → (S → A) → Act S A
gets f s = done (f s) s

abbrev pub modify : {S : Type 0} → (S → S) → Act S (Unit {0})
modify f s = done tt (f s)

abbrev pub or_fail : {S : Type 0} → Bool → Act S (Unit {0})
or_fail true = pure tt
or_fail false = fail

-- Whether a function came to its last `return`, for a caller that goes on either way.
abbrev pub ended : {S A : Type 0} → Outcome S A → Outcome S Bool
ended (done a s) = done true s
ended (failed s) = done false s
ended spins = spins

abbrev pub attempt : {S A : Type 0} → Act S A → Act S Bool
attempt m s = ended (m s)

-- A function on the first or the second of two objects
abbrev pub beside : {S T A : Type 0} → T → Outcome S A → Outcome (S × T) A
beside t (done a s) = done a (s, t)
beside t (failed s) = failed (s, t)
beside t spins = spins

abbrev pub on_first : {S T A : Type 0} → Act S A → Act (S × T) A
on_first m (s, t) = beside t (m s)

-- A function with an object of its own, `t` at the start; the caller sees what is left of it.
abbrev pub apart : {S T A : Type 0} → Outcome (S × T) A → Outcome S (A × T)
apart (done a (s, t)) = done (a, t) s
apart (failed (s, t)) = failed s
apart spins = spins

abbrev pub with_local : {S T A : Type 0} → T → Act (S × T) A → Act S (A × T)
with_local t m s = apart (m (s, t))

-- `struct fs_info`; the fields of `BPB.attr` are at their offsets in `bpb`.
pub record FsInfo : Type 0 where
  pub base_addr : ℕ
  pub total_data_clusters : ℕ
  pub first_data_sector : ℕ
  pub bpb : Bytes
  pub fat_fs_info : Bytes

abbrev pub fat_buf_num : ℕ
fat_buf_num = 2

abbrev pub dir_data_buf_num : ℕ
dir_data_buf_num = 4

abbrev pub local_data_buf_num : ℕ
local_data_buf_num = 4

-- `FILE`; `data` of `union dir_entry` is `entry`, and its `attr` the fields at their offsets.
pub record File : Type 0 where
  pub path : Bytes
  pub loc : ℕ
  pub dir_entry_pos : ℕ
  pub dir_entry_sector : ℕ
  pub entry : Bytes
  pub clock_head : ℕ
  pub data_buf : ℕ → Buf Bytes

-- The globals of fat.c, dir.c and usr.c, and the disk.
pub record Fs (Disk : Type 0) : Type 0 where
  pub info : FsInfo
  pub fat_buf : ℕ → Buf Bytes
  pub fat_clock_head : ℕ
  pub dir_data_buf : ℕ → Buf Bytes
  pub dir_data_clock_head : ℕ
  pub filename11 : Bytes
  pub mk_dir_buf : Bytes
  pub file_create : File
  pub dir_find : File
  pub disk : Disk

module _ {Disk : Type 0} where
  -- `fat_buf` and `dir_data_buf` as caches
  abbrev pub fat_cache : Fs Disk → Cache Bytes Disk
  fat_cache w = record { bufs = w.fat_buf; clock = w.fat_clock_head; disk = w.disk }

  abbrev pub dir_cache : Fs Disk → Cache Bytes Disk
  dir_cache w = record { bufs = w.dir_data_buf; clock = w.dir_data_clock_head; disk = w.disk }

  abbrev pub set_fat_cache : Fs Disk → Cache Bytes Disk → Fs Disk
  set_fat_cache w c = record w { fat_buf = c.bufs; fat_clock_head = c.clock; disk = c.disk }

  abbrev pub set_dir_cache : Fs Disk → Cache Bytes Disk → Fs Disk
  set_dir_cache w c = record w {
    dir_data_buf = c.bufs;
    dir_data_clock_head = c.clock;
    disk = c.disk;
  }

  -- `index == 0xffffffff` after a read of a cache is an error.
  abbrev pub checked : ℕ → Fs Disk → Outcome (Fs Disk) ℕ
  checked index w = if index == fs_error then failed w else done index w

  -- `dev count` reads and writes `count` sectors at once.
  module _ (dev : ℕ → Device Bytes Disk) where
    -- `fs_read_512(dir_data_buf, first, &dir_data_clock_head, DIR_DATA_BUF_NUM)`
    unfoldable pub read_dir_sector : (first : ℕ) → Act (Fs Disk) ℕ
    read_dir_sector first w =
        let (index, c) = fs_read (dev 1) w.info.base_addr first dir_data_buf_num (dir_cache w) in
        checked index (set_dir_cache w c)
