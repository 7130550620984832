-- ===== src/Trap/Pending.antt =====
-- What the dispatch of interrupts does: the handlers of the pending lines, in the order of the lines.
use mini_operating_system.Prelude.{
  ℕ, zero, suc, ◌+◌, ◌/◌, ◌≡◌, refl, Bool, true, false, Option, none, some, List, [], ◌∷◌, ◌==◌,
  ◌∙◌, ap, if◌then◌else◌, bit_and, arith,
}
use mini_operating_system.Prelude.Bits.{bit, bit_and-pow}
use mini_operating_system.Trap.Table.{IntrFn, Vectors}
use mini_operating_system.Trap.Dispatch.{run_handler, interrupt_loop, do_interrupts}

-- The handler of line `i`, if that line is pending.
abbrev pub pending : (line : ℕ → ℕ) (i : ℕ) → (ℕ → Option IntrFn) → Option IntrFn
pending line i interrupts = if line i == 0 then none else interrupts i

-- The handlers of `rounds` lines from `i` on, in order.
abbrev pub all_pending : (rounds i : ℕ) (line : ℕ → ℕ) → (ℕ → Option IntrFn) → List IntrFn
all_pending zero i line interrupts = []
all_pending (suc rounds) i line interrupts =
    let rest = all_pending rounds (suc i) line interrupts in
    elim (pending line i interrupts) [ none ↦ rest | some fn ↦ fn ∷ rest ]

module _ {S : Type 0} (call : IntrFn → S → S) where
  abbrev pub run_all : List IntrFn → S → S
  run_all [] s = s
  run_all (fn ∷ fns) s = run_all fns (call fn s)

  module _ (interrupts : ℕ → Option IntrFn) (line : ℕ → ℕ) where
    run_first :
        (idle : Bool) (o : Option IntrFn) (rest : List IntrFn) (s : S)
        → run_all rest (if idle then s else run_handler call o s)
          ≡ run_all (elim (if idle then none else o) [ none ↦ rest | some fn ↦ fn ∷ rest ]) s
    run_first true o rest s = refl
    run_first false none rest s = refl
    run_first false (some fn) rest s = refl

    interrupt_loop-run_all :
        (rounds i index : ℕ) (s : S)
        → ((k : ℕ) → bit index k ≡ line (i + k))
        → interrupt_loop call rounds i index interrupts s
          ≡ run_all (all_pending rounds i line interrupts) s
    unfolding interrupt_loop
    interrupt_loop-run_all zero i index s bits = refl
    interrupt_loop-run_all (suc rounds) i index s bits =
        let same : line (i + 0) ≡ line i = ap line (omega arith) in
        let here : bit_and index 1 ≡ line i = omega (arith, bit_and-pow 0 index, bits 0, same) in
        let later : (k : ℕ) → bit (index / 2) k ≡ line (suc i + k) =
          λ k. bits (suc k) ∙ ap line (omega arith) in
        interrupt_loop-run_all rounds (suc i) (index / 2) _ later
        ∙ rw here (run_first (line i == 0) (interrupts i) _ s)

  -- `do_interrupts` calls the handlers of the lines that are pending in the bits 8 to 15 of the cause
  -- and have one, each once, from line 0 up, and does nothing else.
  pub do_interrupts-run_all :
      (cause : ℕ) (v : Vectors) (s : S)
      → do_interrupts call cause v s ≡ run_all (all_pending 8 0 (bit (cause / 256)) v.interrupts) s
  unfolding do_interrupts
  do_interrupts-run_all cause v s =
      interrupt_loop-run_all v.interrupts (bit (cause / 256)) 8 0 (cause / 256) s
        (λ k. let same : k ≡ 0 + k = omega arith in ap (bit (cause / 256)) same)
