-- ===== src/Fat/Bytes/Laws.antt =====
-- Numbers put into the byte arrays of kernel/fs/fat/utils.c and read again.
use mini_operating_system.Prelude.{
  ℕ, ◌+◌, ◌/◌, ◌%◌, ◌^◌, ◌<◌, ◌≤◌, ◌≡◌, ◌⊎◌, ◌==◌, arith, if◌then◌else◌,
}
use mini_operating_system.Fat.{Bytes}
use mini_operating_system.Fat.Bytes.{get_u32, set_u32}

module _ (ch : Bytes) (at num : ℕ) where
  -- The bytes of a number from the lowest on, at `at`; all others are as before.
  set_u32_at :
      (j : ℕ)
      → set_u32 ch at num j ≡ (
          if j == at + 3
          then num / 2 ^ 24 % 2 ^ 8
          else if j == at + 2
          then num / 2 ^ 16 % 2 ^ 8
          else if j == at + 1
          then num / 2 ^ 8 % 2 ^ 8
          else if j == at
          then num % 2 ^ 8
          else ch j)
  unfolding set_u32
  set_u32_at j = ground arith

  -- A word that `set_u32` puts into an array is what `get_u32` reads there, and no byte but the four at
  -- that place changes.
  pub get_u32-set_u32 :
      num < 2 ^ 32
      → (get_u32 (set_u32 ch at num) at ≡ num)
        × ((j : ℕ) → (j < at) ⊎ (at + 4 ≤ j) → set_u32 ch at num j ≡ ch j)
  unfolding get_u32
  get_u32-set_u32 h = (
    ground (arith, set_u32_at at, set_u32_at (at + 1), set_u32_at (at + 2), set_u32_at (at + 3)),
    λ j out. ground (arith, set_u32_at j),
  )
