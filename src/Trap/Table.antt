-- ===== src/Trap/Table.antt =====
-- The tables of handlers of kernel/syscall/syscall.c and arch/mips32/intr.c.
use mini_operating_system.Prelude.{ℕ, Option, some, ◌%◌, bit_or, update}

-- The functions that the kernel registers as system calls.
pub data SysFn : Type 0 where
  pc_kill_syscall pc_preempt_syscall do_fork syscall4 : SysFn

-- The functions that it registers as interrupt handlers.
pub data IntrFn : Type 0 where
  pc_schedule ps2_handler : IntrFn

-- `syscalls`, `interrupts`, and the status register (CP0 $12).
pub record Vectors : Type 0 where
  pub syscalls : ℕ → Option SysFn
  pub interrupts : ℕ → Option IntrFn
  pub status : ℕ

-- `index &= 255`, of an index that is not negative
unfoldable pub register_syscall : ℕ → SysFn → Vectors → Vectors
register_syscall index fn v = record v { syscalls = update v.syscalls (index % 256) (some fn) }

-- The `asm` that sets the bit of the line in the status register has `index` as its output and not as
-- its input: what it sets is what stands in the register that it is given, here `reg`.
unfoldable pub register_interrupt_handler : (reg index : ℕ) → IntrFn → Vectors → Vectors
register_interrupt_handler reg index fn v =
    let i = index % 8 in
    record v { interrupts = update v.interrupts i (some fn); status = bit_or v.status reg }

-- The call of `init_syscall` that fills the table (its handler is registered in arch/mips32/exc.c).
unfoldable pub init_syscall : Vectors → Vectors
unfolding register_syscall
init_syscall v = register_syscall 4 syscall4 v
