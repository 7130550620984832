-- ===== src/Pc/Schedule/Seek.antt =====
-- The cyclic search of pc.c finds the first slot that passes its test.
use mini_operating_system.Prelude.{
  ℕ, zero, suc, ◌+◌, ◌-◌, ◌%◌, ◌<◌, ◌≡◌, refl, subst, inl, inr, Bool, true, false, arith,
  Bool-cases, add32,
}
use mini_operating_system.Pc.State.{Task, seek}

-- The slot that is looked at in round `i`.
abbrev pub visited : ℕ → ℕ → ℕ
visited pos i = (pos + 1 + i) % 16

module _ (test : Task → Bool) (level : ℕ → Task) where
  -- None of the first `n` slots passes.
  abbrev pub NoneIn : ℕ → ℕ → Type 0
  NoneIn pos n = (i : ℕ) → i < n → test (level (visited pos i)) ≡ false

  pub data Sought (pos rounds : ℕ) : ℕ × Bool → Type 0 where
    hit :
        (j : ℕ) {r : ℕ}
        → j < rounds
        → r ≡ visited pos j
        → test (level r) ≡ true
        → NoneIn pos j
        → Sought pos rounds (r, true)
    miss :
        {r : ℕ}
        → NoneIn pos rounds
        → (rounds ≡ 0 → r ≡ pos)
        → (0 < rounds → r ≡ (pos + rounds) % 16)
        → Sought pos rounds (r, false)

  shift :
      (pos n : ℕ)
      → NoneIn (add32 pos 1 % 16) n
      → test (level (visited pos 0)) ≡ false
      → NoneIn pos (suc n)
  shift pos n rest first zero h = first
  shift pos n rest first (suc i) h =
      let e : visited pos (suc i) ≡ visited (add32 pos 1 % 16) i = omega arith in
      rw e (rest i (omega arith))

  pub seek-Sought : (rounds pos : ℕ) → Sought pos rounds (seek test level rounds pos)
  unfolding seek
  seek-Sought zero pos = miss (λ i l. absurd (omega arith)) (λ e. refl) (λ l. absurd (omega arith))
  seek-Sought (suc n) pos = elim (Bool-cases (test (level next))) [
    | inl now ↦ rw now (hit 0 (omega arith) here now (λ i l. absurd (omega arith)))
    | inr later ↦ rw later (extend later _ (seek-Sought n next))
  ]
    where
      next : ℕ
      next = add32 pos 1 % 16

      here : next ≡ visited pos 0
      here = omega arith

      extend : test (level next) ≡ false → (r : ℕ × Bool) → Sought next n r → Sought pos (suc n) r
      extend later _ (hit j l e t before) =
          hit (suc j) (omega arith) (omega arith) t (shift pos j before (rw (← here) later))
      extend later _ (miss before none_left some_left) =
          miss (shift pos n before (rw (← here) later)) (λ e. absurd (omega arith))
            (λ _. ground (arith, none_left, some_left))

-- Sixteen rounds visit every slot.
pub NoneIn-all :
    (test : Task → Bool) (level : ℕ → Task) (pos : ℕ)
    → NoneIn test level pos 16
    → (i : ℕ) → i < 16
    → test (level i) ≡ false
NoneIn-all test level pos none_in i h =
    let e : visited pos ((i + 31 - pos % 16) % 16) ≡ i = omega arith in
    subst (λ k. test (level k) ≡ false) e (none_in _ (omega arith))

-- After sixteen rounds every slot has been looked at, and the position is a slot.
pub seek-full :
    (test : Task → Bool) (level : ℕ → Task) (pos : ℕ)
    → let (r, found) = seek test level 16 pos in
      (r < 16)
      × ((found ≡ true) → test (level r) ≡ true)
      × ((found ≡ false) → (i : ℕ) → i < 16 → test (level i) ≡ false)
seek-full test level pos = cases _ (seek-Sought test level 16 pos)
  where
    cases :
        (r : ℕ × Bool)
        → Sought test level pos 16 r
        → (r.0 < 16)
          × ((r.1 ≡ true) → test (level r.0) ≡ true)
          × ((r.1 ≡ false) → (i : ℕ) → i < 16 → test (level i) ≡ false)
    cases _ (hit j l e t before) = (omega arith, λ _. t, λ f. cc)
    cases _ (miss before none_left some_left) =
        (omega (arith, some_left (omega arith)), λ f. cc, λ _. NoneIn-all test level pos before)
