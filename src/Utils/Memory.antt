-- ===== src/Utils/Memory.antt =====
-- The copies of utils/utils.c over a memory of bytes. Pointers do not wrap round.
use mini_operating_system.Prelude.{
  ℕ, zero, suc, ◌+◌, ◌-◌, ◌≤◌, ◌≡◌, ap, ◌⊎◌, inl, inr, Bool, ◌&&◌, ◌||◌, arith, ltb, leb, ◌==◌,
  if◌then◌else◌, update, Bool-cases,
}

abbrev pub Memory : Type 0
Memory = ℕ → ℕ

unfoldable pub kernel_memcpy : (dest src len : ℕ) → Memory → Memory
kernel_memcpy dest src zero mem = mem
kernel_memcpy dest src (suc len) mem =
    kernel_memcpy (dest + 1) (src + 1) len (update mem dest (mem src))

-- The second loop of `kernel_memmove`, from the last byte down: `len` bytes are left, the next one
-- at offset `len - 1`.
unfoldable pub copy_down : (to from len : ℕ) → Memory → Memory
copy_down to from zero mem = mem
copy_down to from (suc len) mem = copy_down to from len (update mem (to + len) (mem (from + len)))

-- `pto < pfrom || pto > pfrom + count - 1`
unfoldable pub kernel_memmove : (to from count : ℕ) → Memory → Memory
kernel_memmove to from count mem =
    if ltb to from || leb (from + count) to
    then kernel_memcpy to from count mem
    else copy_down to from count mem

-- `content` is -1 for every `b` but 0.
unfoldable pub kernel_memset : (dest b len : ℕ) → Memory → Memory
kernel_memset dest b zero mem = mem
kernel_memset dest b (suc len) mem =
    kernel_memset (dest + 1) b len (update mem dest (if b == 0 then 0 else 255))

-- The address `a` is one of the `len` from `start` on.
abbrev pub within : ℕ → ℕ → ℕ → Bool
within start len a = leb start a && ltb a (start + len)

-- `kernel_memcpy` does so where the destination starts at or before the source, or behind its end.
pub kernel_memcpy_lem :
    (dest src len : ℕ) (mem : Memory) (a : ℕ)
    → (dest ≤ src) ⊎ (src + len ≤ dest)
    → kernel_memcpy dest src len mem a
      ≡ (if within dest len a then mem (src + (a - dest)) else mem a)
unfolding kernel_memcpy
kernel_memcpy_lem dest src zero mem a apart = ground arith
kernel_memcpy_lem dest src (suc len) mem a apart =
    let ih =
      kernel_memcpy_lem (dest + 1) (src + 1) len (update mem dest (mem src)) a (omega arith) in
    elim (Bool-cases (within (dest + 1) len a)) [
      | inl later ↦
          let same : src + 1 + (a - (dest + 1)) ≡ src + (a - dest) = ground arith in
          let kept : update mem dest (mem src) (src + 1 + (a - (dest + 1)))
              ≡ mem (src + (a - dest)) =
            rw same (ground arith) in
          ground (arith, ih, kept)
      | inr other ↦ elim (Bool-cases (a == dest)) [
        | inl e ↦
            let zero_off : src + (a - dest) ≡ src = ground arith in
            ground (arith, ih, ap mem zero_off)
        | inr e ↦ ground (arith, ih)
      ]
    ]

copy_down_lem :
    (to from len : ℕ) (mem : Memory) (a : ℕ)
    → from ≤ to
    → copy_down to from len mem a ≡ (if within to len a then mem (from + (a - to)) else mem a)
unfolding copy_down
copy_down_lem to from zero mem a behind = ground arith
copy_down_lem to from (suc len) mem a behind =
    let ih = copy_down_lem to from len (update mem (to + len) (mem (from + len))) a behind in
    elim (Bool-cases (within to len a)) [
      | inl lower ↦
          let kept : update mem (to + len) (mem (from + len)) (from + (a - to))
              ≡ mem (from + (a - to)) =
            ground arith in
          ground (arith, ih, kept)
      | inr other ↦ elim (Bool-cases (a == to + len)) [
        | inl e ↦
            let last_off : from + (a - to) ≡ from + len = ground arith in
            ground (arith, ih, ap mem last_off)
        | inr e ↦ ground (arith, ih)
      ]
    ]

-- `kernel_memmove` copies: each byte of the destination is the byte that its source held before,
-- however the two areas overlap, and no other byte changes.
pub kernel_memmove_lem :
    (to from count : ℕ) (mem : Memory) (a : ℕ)
    → kernel_memmove to from count mem a
      ≡ (if within to count a then mem (from + (a - to)) else mem a)
unfolding kernel_memmove
kernel_memmove_lem to from count mem a =
    ground (arith, kernel_memcpy_lem to from count mem a, copy_down_lem to from count mem a)

pub kernel_memset_lem :
    (dest b len : ℕ) (mem : Memory) (a : ℕ)
    → kernel_memset dest b len mem a
      ≡ (if within dest len a then (if b == 0 then 0 else 255) else mem a)
unfolding kernel_memset
kernel_memset_lem dest b zero mem a = ground arith
kernel_memset_lem dest b (suc len) mem a =
    ground
      (arith, kernel_memset_lem (dest + 1) b len (update mem dest (if b == 0 then 0 else 255)) a)
