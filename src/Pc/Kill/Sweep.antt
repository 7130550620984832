-- ===== src/Pc/Kill/Sweep.antt =====
-- The loops of `pc_kill` come to each of the 128 slots once.
use mini_operating_system.Prelude.{
  ℕ, zero, suc, ◌+◌, ◌-◌, ◌%◌, ◌≤◌, ◌<◌, ◌≡◌, false, ◌&&◌, arith, ltb, ◌==◌, if◌then◌else◌, add32,
  Bool-cases, inl, inr,
}
use mini_operating_system.Pc.State.{Task, Table}
use mini_operating_system.Pc.Kill.{sweep_queue, sweep}

-- In which round, from 0 on, the slot `i` comes after `pos`.
abbrev pub round_of : ℕ → ℕ → ℕ
round_of pos i = (i + 31 - pos % 16) % 16

-- A visit that changes its slot by `g`, in the table `table s` of the state.
module _ {ℓ} {S : Type ℓ} (visit : ℕ → ℕ → S → S) (table : S → Table) (g : Task → Task)
    (acts : (q i : ℕ) (s : S) (a b : ℕ)
      → table (visit q i s) a b
        ≡ (if (a == q) && (b == i) then g (table s a b) else table s a b)) where
  sweep_queue-table :
      (q rounds pos : ℕ) (s : S) (a b : ℕ)
      → rounds ≤ 16
      → table (sweep_queue visit q rounds pos s) a b ≡ (
          if ((a == q) && (ltb b 16 && ltb (round_of pos b) rounds))
          then g (table s a b)
          else table s a b)
  unfolding sweep_queue
  sweep_queue-table q zero pos s a b h = ground arith
  sweep_queue-table q (suc n) pos s a b h =
      let next = add32 pos 1 % 16 in
      ground (arith, sweep_queue-table q n next (visit q next s) a b, acts q next s a b)

  pub sweep-table :
      (curr_proc : ℕ → ℕ) (n : ℕ) (s : S) (a b : ℕ)
      → table (sweep visit curr_proc n s) a b
        ≡ (if ltb a n && ltb b 16 then g (table s a b) else table s a b)
  unfolding sweep
  sweep-table curr_proc zero s a b = ground arith
  sweep-table curr_proc (suc n) s a b = ground (
    arith,
    sweep-table curr_proc n (sweep_queue visit n 16 (curr_proc n) s) a b,
    sweep_queue-table n 16 (curr_proc n) s a b,
  )

module _ {ℓ κ} {S : Type ℓ} (visit : ℕ → ℕ → S → S) (P : S → Type κ) where
  sweep_queue_inv :
      (q rounds cur : ℕ) (s : S)
      → ((i : ℕ) (s : S) → i < 16 → P s → P (visit q i s))
      → P s
      → P (sweep_queue visit q rounds cur s)
  unfolding sweep_queue
  sweep_queue_inv q zero cur s keep h = h
  sweep_queue_inv q (suc n) cur s keep h = sweep_queue_inv q n _ _ keep (keep _ s (omega arith) h)

  -- What every visit keeps, the loops keep.
  pub sweep_inv :
      (curr_proc : ℕ → ℕ) (n : ℕ) (s : S)
      → ((q i : ℕ) (s : S) → q < n → i < 16 → P s → P (visit q i s))
      → P s
      → P (sweep visit curr_proc n s)
  unfolding sweep
  sweep_inv curr_proc zero s keep h = h
  sweep_inv curr_proc (suc n) s keep h =
      sweep_inv curr_proc n _ (λ q i s lt. keep q i s (omega arith))
        (sweep_queue_inv n 16 (curr_proc n) s (λ i s. keep n i s (omega arith)) h)

module _ {ℓ κ μ} {S : Type ℓ} (visit : ℕ → ℕ → S → S) (P : S → Type κ) where
  -- What the visit of slot `i₀` of queue `q₀` establishes, the loops establish, if it needs only
  -- what the visits of the other slots keep.
  module _ (Q : S → Type μ) (q₀ i₀ : ℕ) (inside : i₀ < 16)
      (keep : (q i : ℕ) (s : S) → P s → P (visit q i s))
      (wait : (q i : ℕ) (s : S) → ((q == q₀) && (i == i₀)) ≡ false → Q s → Q (visit q i s))
      (here : (s : S) → Q s → P (visit q₀ i₀ s)) where
    sweep_queue_reach :
        (rounds cur : ℕ) (s : S)
        → round_of cur i₀ < rounds
        → Q s
        → P (sweep_queue visit q₀ rounds cur s)
    unfolding sweep_queue
    sweep_queue_reach zero cur s lt h = absurd (omega arith)
    sweep_queue_reach (suc n) cur s lt h =
        let next = add32 cur 1 % 16 in
        elim (Bool-cases (next == i₀)) [
          | inl e ↦
              let e' : next ≡ i₀ = ground arith in
              sweep_queue_inv visit P q₀ n next _ (λ i s _. keep q₀ i s) (rw e' (here s h))
          | inr e ↦ sweep_queue_reach n next _ (ground arith) (wait q₀ next s (ground arith) h)
        ]

    pub sweep_reach :
        (curr_proc : ℕ → ℕ) (n : ℕ) (s : S) → q₀ < n → Q s → P (sweep visit curr_proc n s)
    unfolding sweep
    sweep_reach curr_proc zero s lt h = absurd (omega arith)
    sweep_reach curr_proc (suc n) s lt h = elim (Bool-cases (n == q₀)) [
      | inl e ↦
          let e' : n ≡ q₀ = ground arith in
          sweep_inv visit P curr_proc n _ (λ q i s _ _. keep q i s)
            (rw e' (sweep_queue_reach 16 (curr_proc q₀) s (omega arith) h))
      | inr e ↦
          sweep_reach curr_proc n _ (ground arith)
            (sweep_queue_inv visit Q n 16 (curr_proc n) s (λ i s _. wait n i s (ground arith)) h)
    ]
