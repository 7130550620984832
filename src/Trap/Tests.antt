-- ===== src/Trap/Tests.antt =====
-- The dispatch of interrupts at a concrete input.
use mini_operating_system.Prelude.{◌/◌, ◌≡◌, refl, List, [], ◌∷◌}
use mini_operating_system.Prelude.Bits.{bit}
use mini_operating_system.Trap.Table.{
  IntrFn, Vectors, pc_schedule, ps2_handler, register_interrupt_handler,
}
use mini_operating_system.Trap.Dispatch.{do_interrupts, interrupt_loop}
use mini_operating_system.Trap.Pending.{all_pending, run_all, do_interrupts-run_all}
use mini_operating_system.Prelude.{none}

abbrev vectors : Vectors
unfolding register_interrupt_handler
vectors = register_interrupt_handler 0 7 pc_schedule (
    register_interrupt_handler 0 6 ps2_handler
      (record { syscalls = λ _. none; interrupts = λ _. none; status = 0 }))

-- The timer is on line 7 and the keyboard on line 6; the last handler called stands first.
abbrev log_call : IntrFn → List IntrFn → List IntrFn
log_call fn fns = fn ∷ fns

both : do_interrupts log_call 0xc100 vectors [] ≡ pc_schedule ∷ ps2_handler ∷ []
unfolding do_interrupts interrupt_loop vectors register_interrupt_handler
both = refl

do_interrupts-run_all_example :
    do_interrupts log_call 0xc100 vectors []
    ≡ run_all log_call (all_pending 8 0 (bit (0xc100 / 256)) vectors.interrupts) []
do_interrupts-run_all_example = do_interrupts-run_all log_call 0xc100 vectors []
