-- ===== src/Trap/Dispatch.antt =====
-- The dispatch of system calls, interrupts and exceptions: kernel/syscall/syscall.c,
-- arch/mips32/intr.c, arch/mips32/exc.c. What a handler does to the state of the kernel is `run` of it.
use mini_operating_system.Prelude.{
  ℕ, zero, suc, ◌/◌, ◌%◌, Option, none, some, bit_and, ◌==◌, if◌then◌else◌,
}
use mini_operating_system.Trap.Table.{SysFn, IntrFn, Vectors}

module _ {S : Type 0} where
  module _ (call : IntrFn → S → S) where
    -- `interrupts[i] != 0`, and the call
    abbrev pub run_handler : Option IntrFn → S → S
    run_handler none s = s
    run_handler (some fn) s = call fn s

    unfoldable pub interrupt_loop : (rounds i index : ℕ) → (ℕ → Option IntrFn) → S → S
    interrupt_loop zero i index interrupts s = s
    interrupt_loop (suc rounds) i index interrupts s =
        interrupt_loop rounds (suc i) (index / 2) interrupts
          (if bit_and index 1 == 0 then s else run_handler (interrupts i) s)

    unfoldable pub do_interrupts : (cause : ℕ) → Vectors → S → S
    unfolding interrupt_loop
    do_interrupts cause v s = interrupt_loop 8 0 (cause / 256) v.interrupts s

  module _ (call : SysFn → S → S) (v0 : S → ℕ) (skip_instruction : S → S) where
    -- The number in `v0` is not tested: one from 256 on reads behind the table.
    unfoldable pub syscall : Vectors → S → S
    syscall v s =
        let next = skip_instruction s in
        elim (v.syscalls (v0 s)) [ none ↦ next | some fn ↦ call fn next ]

-- The exceptions with a handler: only number 8, the system call, is registered.
pub data ExcFn : Type 0 where
  syscall_handler : ExcFn

unfoldable pub register_exception_handler :
    (index : ℕ) → ExcFn → (ℕ → Option ExcFn) → ℕ → Option ExcFn
register_exception_handler index fn exceptions i = if i == index % 32 then some fn else exceptions i

-- For an exception without a handler the process is killed, and `while (1)` follows: none.
unfoldable pub do_exceptions :
    {S : Type 0} → (ExcFn → S → S) → (cause : ℕ) → (ℕ → Option ExcFn) → S → Option S
do_exceptions call cause exceptions s = elim (exceptions (cause / 4 % 32)) [
  | none ↦ none
  | some fn ↦ some (call fn s)
]
