-- ===== src/Trap.antt =====
-- System calls, interrupts and exceptions: kernel/syscall/syscall.c, arch/mips32/intr.c.
pub mod Table
pub mod Dispatch
mod Pending
mod Tests
