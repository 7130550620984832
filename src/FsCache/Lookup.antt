-- ===== src/FsCache/Lookup.antt =====
-- The search for a sector among the buffers of kernel/fs/fscache/fscache.c, and the reference bit that
-- a use sets.
use mini_operating_system.Prelude.{
  ℕ, zero, suc, ◌+◌, ◌<◌, ◌≡◌, ◌≢◌, ◌⊎◌, inl, inr, bit_and, bit_or, ap, ◌==◌, arith, Bool-cases,
  ==_iff,
}
use mini_operating_system.Prelude.Bits.{bit_and-pow, bit-bit_or, bit-lt}
use mini_operating_system.FsCache.{Device, Buf, find_buf}

pub hit_keeps_dirty : (s : ℕ) → bit_and (bit_or s 1) 2 ≡ bit_and s 2
hit_keeps_dirty s =
    omega (arith, bit_and-pow 1 (bit_or s 1), bit_and-pow 1 s, bit-bit_or 1 s 1, bit-lt s 1)

module _ {Block Disk : Type 0} (dev : Device Block Disk) (size sector : ℕ) where
  -- The first buffer with the sector, or none has it.
  pub find_buf-cases :
      (rounds index : ℕ) (m : ℕ → Buf Block)
      → rounds + index ≡ size
      → ((j : ℕ) → j < index → (m j).cur ≢ sector)
      → (find_buf dev rounds index sector m ≡ size × ((j : ℕ) → j < size → (m j).cur ≢ sector))
        ⊎ ((find_buf dev rounds index sector m < size)
            × ((m (find_buf dev rounds index sector m)).cur ≡ sector))
  unfolding find_buf
  find_buf-cases zero index m h before =
      inl (omega (arith, h), (λ j l. before j (omega (arith, h))))
  find_buf-cases (suc rounds) index m h before = elim (Bool-cases ((m index).cur == sector)) [
    | inl e ↦ rw e (inr (omega (arith, h), (==_iff _ _).0 e))
    | inr e ↦ rw e (
        find_buf-cases rounds (suc index) m (omega (arith, h)) (λ j l f.
          elim (Bool-cases (j == index)) [
            | inl g ↦ ground (arith, e, ap (λ k. (m k).cur) ((==_iff j index).0 g), f)
            | inr g ↦ before j (ground arith) f
          ]))
  ]
