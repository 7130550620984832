-- ===== src/Fat/Path.antt =====
-- Names in kernel/fs/fat/fat.c: a part of a path as 8 and 3 characters, and their comparison.
use mini_operating_system.Prelude.{
  ℕ, zero, suc, ◌+◌, ◌-◌, Bool, true, false, ◌&&◌, ◌||◌, not, ltb, leb, ◌==◌, if◌then◌else◌, update,
}

-- `for (i = 0; (*(f + i) != 0) && (*(f + i) != '/'); i++);` The fuel is a bound on the length.
unfoldable pub slash_loop : (fuel i : ℕ) → (f : ℕ → ℕ) → ℕ
slash_loop zero i f = i
slash_loop (suc fuel) i f =
    let rest = slash_loop fuel (i + 1) f in if not (f i == 0) && not (f i == b'/') then rest else i

abbrev pub to_upper : ℕ → ℕ
to_upper c = if leb b'a' c && leb c b'z' then c - 32 else c

-- The loop from `j` that puts the first 12 characters of the part into `chr11`
unfoldable pub copy_loop : (rounds j i : ℕ) → (f chr11 : ℕ → ℕ) → ℕ → ℕ
copy_loop zero j i f chr11 = chr11
copy_loop (suc rounds) j i f chr11 =
    let rest = copy_loop rounds (j + 1) i f (update chr11 j (to_upper (f j))) in
    if ltb j i then rest else chr11

-- The loop from `j` that copies up to a dot; the `j` where it ends, and `filename11`.
unfoldable pub stem_loop : (rounds j : ℕ) → (chr11 name : ℕ → ℕ) → ℕ × (ℕ → ℕ)
stem_loop zero j chr11 name = (j, name)
stem_loop (suc rounds) j chr11 name =
    let rest = stem_loop rounds (j + 1) chr11 (update name j (chr11 j)) in
    if chr11 j == 0 || chr11 j == b'.' then (j, name) else rest

-- The loop from `j` and `k` that copies what is behind the dot
unfoldable pub ext_loop : (rounds j k : ℕ) → (chr11 name : ℕ → ℕ) → ℕ → ℕ
ext_loop zero j k chr11 name = name
ext_loop (suc rounds) j k chr11 name =
    let rest = ext_loop rounds (j + 1) (k + 1) chr11 (update name k (chr11 j)) in
    if not (chr11 j == 0) && ltb j 12 then rest else name

-- The arrays as the loops find them: `filename11[12]` is not written.
abbrev pub blank_name : (ℕ → ℕ) → ℕ → ℕ
blank_name old j = if ltb j 12 then 0x20 else old j

unfoldable pub short_name : (i : ℕ) → (f old : ℕ → ℕ) → ℕ → ℕ
unfolding copy_loop stem_loop ext_loop
short_name i f old =
    let chr11 = copy_loop 12 0 i f (λ _. 0) in
    let (j, stem) = stem_loop 12 0 chr11 (blank_name old) in
    let name = if chr11 j == b'.' then ext_loop 3 (j + 1) 8 chr11 stem else stem in update name 11 0

-- The length of the first part of the path, and `filename11`
unfoldable pub fs_next_slash : (fuel : ℕ) → (f old : ℕ → ℕ) → ℕ × (ℕ → ℕ)
unfolding slash_loop short_name
fs_next_slash fuel f old = let i = slash_loop fuel 0 f in (i, short_name i f old)

-- `fs_cmp_filename(f1, f2) == 0`
unfoldable pub same_loop : (rounds i : ℕ) → (f1 f2 : ℕ → ℕ) → Bool
same_loop zero i f1 f2 = true
same_loop (suc rounds) i f1 f2 =
    let rest = same_loop rounds (i + 1) f1 f2 in if f1 i == f2 i then rest else false

unfoldable pub fs_cmp_filename : (f1 f2 : ℕ → ℕ) → ℕ
unfolding same_loop
fs_cmp_filename f1 f2 = if same_loop 11 0 f1 f2 then 0 else 1
