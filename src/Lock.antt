-- ===== src/Lock.antt =====
-- kernel/lock/lock.c with the interrupt enable bit of arch/mips32/intr.c.
use mini_operating_system.Prelude.{
  ℕ, ◌≡◌, refl, ◌<◌, arith, ◌==◌, if◌then◌else◌, Bool-cases, ==_iff, inl, inr,
}
use mini_operating_system.ListHead.{Links, init_list_head}

-- `spin` of a lock, and the bit 0 of the CPU's status register.
pub record Lock : Type 0 where
  pub spin : ℕ
  pub ie : ℕ

-- The value is the old bit.
unfoldable pub enable_interrupts : Lock → ℕ × Lock
enable_interrupts s = (s.ie, record s { ie = 1 })

unfoldable pub disable_interrupts : Lock → ℕ × Lock
disable_interrupts s = (s.ie, record s { ie = 0 })

-- `wait` is the address of the list of that name.
unfoldable pub init_lock : (wait : ℕ) → Lock × Links → Lock × Links
init_lock wait (s, l) = (record s { spin = 0 }, init_list_head wait l)

abbrev restore : ℕ → Lock → Lock
restore old_ie s = if old_ie == 0 then s else (enable_interrupts s).1

-- The test of `spin` has an empty body.
unfoldable pub lockup : Lock → ℕ × Lock
unfolding disable_interrupts enable_interrupts
lockup s = let (old_ie, off) = disable_interrupts s in (1, restore old_ie (record off { spin = 1 }))

unfoldable pub unlock : Lock → ℕ × Lock
unfolding disable_interrupts enable_interrupts
unlock s =
    let (old_ie, off) = disable_interrupts s in
    (1, restore old_ie (if off.spin == 0 then off else record off { spin = 0 }))

restore_lem :
    (s : Lock) (v : ℕ)
    → s.ie < 2
    → restore s.ie (record { spin = v; ie = 0 }) ≡ record s { spin = v }
unfolding enable_interrupts
restore_lem s v h = elim (Bool-cases (s.ie == 0)) [
  | inl e ↦ let off : s.ie ≡ 0 = (==_iff _ _).0 e in rw off refl
  | inr e ↦ let on : s.ie ≡ 1 = ground arith in rw on refl
]

pub lockup_lem : (s : Lock) → s.ie < 2 → lockup s ≡ (1, record s { spin = 1 })
unfolding lockup
lockup_lem s h = rw (restore_lem s 1 h) refl

pub unlock_lem : (s : Lock) → s.ie < 2 → unlock s ≡ (1, record s { spin = 0 })
unfolding unlock
unlock_lem s h = elim (Bool-cases (s.spin == 0)) [
  | inl e ↦ let free : s.spin ≡ 0 = (==_iff _ _).0 e in rw (free, restore_lem s 0 h) refl
  | inr e ↦ rw (e, restore_lem s 0 h) refl
]

-- Where the interrupt bit is 0 or 1, `lockup` and `unlock` leave it as it was; after `lockup` the lock
-- is taken, after `unlock` it is free.
pub lockup-unlock :
    (s : Lock)
    → s.ie < 2
    → (lockup s ≡ (1, record s { spin = 1 })) × ((unlock (lockup s).1) ≡ (1, record s { spin = 0 }))
lockup-unlock s h = (lockup_lem s h, rw (lockup_lem s h) (unlock_lem (record s { spin = 1 }) h))

-- A lock that is taken stops nobody: `lockup` gives the same answer for it as for a free lock, at
-- once, and leaves it as it is.
pub lockup_taken :
    (s : Lock)
    → s.ie < 2
    → s.spin ≡ 1
    → (lockup s ≡ (1, s)) × ((lockup s).0 ≡ (lockup (record s { spin = 0 })).0)
lockup_taken s h t =
    let same : record s { spin = 1 } ≡ s = rw t refl in
    (rw (lockup_lem s h, same) refl, rw (lockup_lem s h, lockup_lem (record s { spin = 0 }) h) refl)
