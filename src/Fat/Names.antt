-- ===== src/Fat/Names.antt =====
-- What the commands print of a directory entry: `get_filename`, `get_filetime`, `get_filedate` and
-- `get_filesize` of kernel/fs/fat/fat.c.
use mini_operating_system.Prelude.{
  ℕ, zero, suc, ◌+◌, ◌-◌, Option, none, some, ◌==◌, if◌then◌else◌, update,
}
use mini_operating_system.Fat.{Bytes}
use mini_operating_system.Fat.Reading.{copy_bytes}

-- `n` bytes of the entry from `at`, and a 0 behind them
abbrev pub text_at : (n at : ℕ) → (entry buf : Bytes) → Bytes
text_at n at entry buf = update (copy_bytes n at 0 entry buf) n 0

abbrev pub get_filetime : (entry buf : Bytes) → Bytes
get_filetime = text_at 2 22

abbrev pub get_filedate : (entry buf : Bytes) → Bytes
get_filedate = text_at 2 24

abbrev pub get_filesize : (entry buf : Bytes) → Bytes
get_filesize = text_at 4 28

-- The first space from `i` on, in `rounds` characters
unfoldable pub find_space : (rounds i : ℕ) → Bytes → Option ℕ
find_space zero i buf = none
find_space (suc rounds) i buf =
    let rest = find_space rounds (i + 1) buf in if buf i == 0x20 then some i else rest

-- The loop from `i` that moves the extension: where it stops, and the buffer. `from` is `l2 - l1 - 1`.
unfoldable pub move_ext : (rounds i l1 l2 : ℕ) → Bytes → ℕ × Bytes
move_ext zero i l1 l2 buf = (i, buf)
move_ext (suc rounds) i l1 l2 buf =
    let c = buf (l2 + i - l1 - 1) in
    let rest = move_ext rounds (i + 1) l1 l2 (update buf i c) in
    if c == 0x20 then (i, buf) else rest

-- What is behind the extension, and a dot with nothing behind it, becomes the end.
abbrev pub close_name : ℕ × Bytes → Bytes
close_name (i, buf) =
    let ended = update buf i 0 in if ended (i - 1) == b'.' then update ended (i - 1) 0 else ended

-- `for (i = 11; i > 8; i--) buf[i] = buf[i - 1];` and the dot
abbrev pub make_room : Bytes → Bytes
make_room buf = update (copy_bytes 3 8 9 buf buf) 8 b'.'

unfoldable pub dotted : Option ℕ → Bytes → Bytes
unfolding move_ext
dotted (some l1) buf = close_name (move_ext 3 (l1 + 1) l1 8 (update buf l1 b'.'))
dotted none buf = close_name (move_ext 3 9 8 9 (make_room buf))

unfoldable pub get_filename : (entry buf : Bytes) → Bytes
unfolding find_space dotted
get_filename entry buf =
    let name = copy_bytes 11 0 0 entry buf in
    if name 0 == b'.'
    then (if name 1 == b'.' then update name 2 0 else update name 1 0)
    else dotted (find_space 8 0 name) name
