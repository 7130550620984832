-- ===== src/Pc/Context.antt =====
-- The saved registers of a process (`context` of kernel/pc/pc.h), and the state of the CPU.
use mini_operating_system.Prelude.{ℕ, ◌≡◌, refl}

pub record Context : Type 0 where
  pub epc : ℕ
  pub at : ℕ
  pub v0 : ℕ
  pub v1 : ℕ
  pub a0 : ℕ
  pub a1 : ℕ
  pub a2 : ℕ
  pub a3 : ℕ
  pub t0 : ℕ
  pub t1 : ℕ
  pub t2 : ℕ
  pub t3 : ℕ
  pub t4 : ℕ
  pub t5 : ℕ
  pub t6 : ℕ
  pub t7 : ℕ
  pub s0 : ℕ
  pub s1 : ℕ
  pub s2 : ℕ
  pub s3 : ℕ
  pub s4 : ℕ
  pub s5 : ℕ
  pub s6 : ℕ
  pub s7 : ℕ
  pub t8 : ℕ
  pub t9 : ℕ
  pub hi : ℕ
  pub lo : ℕ
  pub gp : ℕ
  pub sp : ℕ
  pub fp : ℕ
  pub ra : ℕ

-- `dest` after the copy, field by field.
unfoldable pub copy_context : (src dest : Context) → Context
copy_context src dest = record dest {
  epc = src.epc;
  at = src.at;
  v0 = src.v0;
  v1 = src.v1;
  a0 = src.a0;
  a1 = src.a1;
  a2 = src.a2;
  a3 = src.a3;
  t0 = src.t0;
  t1 = src.t1;
  t2 = src.t2;
  t3 = src.t3;
  t4 = src.t4;
  t5 = src.t5;
  t6 = src.t6;
  t7 = src.t7;
  s0 = src.s0;
  s1 = src.s1;
  s2 = src.s2;
  s3 = src.s3;
  s4 = src.s4;
  s5 = src.s5;
  s6 = src.s6;
  s7 = src.s7;
  t8 = src.t8;
  t9 = src.t9;
  hi = src.hi;
  lo = src.lo;
  gp = src.gp;
  sp = src.sp;
  fp = src.fp;
  ra = src.ra;
}

-- No register is left out.
pub copy_context-eq : (src dest : Context) → copy_context src dest ≡ src
unfolding copy_context
copy_context-eq src dest = refl

-- The CPU as a handler sees it: the context that it may change (`pt_context`), the counter and
-- the compare register (CP0 $9 and $11), and the memory.
pub record Cpu : Type 0 where
  pub pt_context : Context
  pub count : ℕ
  pub compare : ℕ
  pub memory : ℕ → ℕ
