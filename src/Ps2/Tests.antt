-- ===== src/Ps2/Tests.antt =====
-- kernel/driver/ps2.c at concrete inputs: two keys wait, the first at the last place of the ring.
use mini_operating_system.Prelude.{
  ℕ, ◌+◌, ◌%◌, ◌<◌, ◌≤◌, ◌≡◌, refl, Option, some, none, List, [], ◌∷◌, length, ◌==◌, if◌then◌else◌,
  pos, arith,
}
use mini_operating_system.Ps2.{
  Keyboard, Port, store_key, kernel_getkey, ps2_handler, kernel_scantoascii,
}
use mini_operating_system.Ps2.Queue.{IsQueue, store_key-snoc}
use mini_operating_system.Ps2.Take.{IsTaken, kernel_getkey-IsTaken}

-- The keys 0x1c at place 31 and 0x32 at place 0
abbrev two_keys : Keyboard
two_keys = record {
  keyboard_state = 0;
  buffer = λ i. if i == 31 then 0x1c else 0x32;
  ready = λ i. if i == 31 then 1 else if i == 0 then 1 else 0;
  buffer_wptr = 1;
  buffer_rptr = 31;
  key_buffer = 0x21;
  keyboard_cmd_state = 0;
}

idle_places : (i : ℕ) → 2 ≤ i → i < 32 → two_keys.ready ((31 + i) % 32) ≡ 0
idle_places i l m = ground arith

two_keys-IsQueue : IsQueue two_keys (0x1c ∷ 0x32 ∷ [])
two_keys-IsQueue = record {
  few = omega arith;
  rptr_in = omega arith;
  wptr_behind = refl;
  holds = (refl, refl, (refl, refl, tt));
  idle = idle_places;
}

store_key-snoc_example : IsQueue (store_key two_keys) (0x1c ∷ 0x32 ∷ 0x21 ∷ [])
store_key-snoc_example =
    store_key-snoc two_keys (0x1c ∷ 0x32 ∷ []) two_keys-IsQueue (omega arith) refl

-- The second key is lost.
kernel_getkey-IsTaken_example : IsTaken two_keys (0x1c ∷ 0x32 ∷ []) (kernel_getkey two_keys)
kernel_getkey-IsTaken_example = kernel_getkey-IsTaken two_keys (0x1c ∷ 0x32 ∷ []) two_keys-IsQueue

lost : (kernel_getkey (kernel_getkey two_keys).1).0 ≡ 0xfff
unfolding kernel_getkey
lost = refl

-- A device with bytes that wait; its control register counts them.
abbrev bytes : Port (List ℕ)
bytes = record {
  read_byte = λ d. elim d [ [] ↦ (0, []) | x ∷ xs ↦ (x, xs) ];
  read_ctrl = λ d. (length d, d);
  send = λ x d. d;
  send_ctrl = λ x d. d;
}

abbrev state_after : Option (Keyboard × List ℕ) → ℕ
state_after none = 0
state_after (some (k, d)) = k.keyboard_state

abbrev no_prefix : Keyboard
no_prefix = record two_keys { key_buffer = 0 }

-- Shift goes down and 'a' too; then shift comes up.
with_shift : state_after (ps2_handler bytes 5 (no_prefix, 0x12 ∷ 0x1c ∷ [])) ≡ 8
unfolding ps2_handler
with_shift = refl

without_shift : state_after (ps2_handler bytes 5 (no_prefix, 0x12 ∷ 0x1c ∷ 0xf0 ∷ 0x12 ∷ [])) ≡ 0
unfolding ps2_handler
without_shift = refl

upper_a : kernel_scantoascii 0x1c 8 ≡ pos 65
unfolding kernel_scantoascii
upper_a = refl
