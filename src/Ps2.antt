-- ===== src/Ps2.antt =====
-- kernel/driver/ps2.c: the keys of the keyboard. The registers of the device are a `Port`.
pub mod Queue
pub mod Take
mod Tests
use mini_operating_system.Prelude.{
  ℕ, zero, suc, ◌+◌, ◌-◌, ◌*◌, ◌/◌, ◌%◌, ◌^◌, Bool, true, false, not, Option, none, some, List, [],
  ◌∷◌, get_or, bit_and, bit_or, bit_xor, ltb, from_char, ◌==◌, if◌then◌else◌, update, ℤ, pos,
  negsuc,
}

-- `PS2_PHY[0]` and `PS2_PHY[1]` of a device in a state of type `Dev`
pub record Port (Dev : Type 0) : Type 0 where
  pub read_byte : Dev → ℕ × Dev
  pub read_ctrl : Dev → ℕ × Dev
  pub send : ℕ → Dev → Dev
  pub send_ctrl : ℕ → Dev → Dev

pub record Keyboard : Type 0 where
  pub keyboard_state : ℕ
  pub buffer : ℕ → ℕ
  pub ready : ℕ → ℕ
  pub buffer_wptr : ℕ
  pub buffer_rptr : ℕ
  pub key_buffer : ℕ
  pub keyboard_cmd_state : ℕ

abbrev pub scantoascii_uppercase : List ℕ
scantoascii_uppercase =
    0xff ∷ 0xff ∷ 0xff ∷ 0xff ∷ 0xff ∷ 0xff ∷ 0xff ∷ 0xff ∷ 0xff ∷ 0xff ∷ 0xff ∷ 0xff ∷ 0xff ∷ 0x09
    ∷ 0x7e ∷ 0xff ∷ 0xff ∷ 0xff ∷ 0xff ∷ 0xff ∷ 0xff ∷ 0x51 ∷ 0x21 ∷ 0xff ∷ 0xff ∷ 0xff ∷ 0x5a
    ∷ 0x53 ∷ 0x41 ∷ 0x57 ∷ 0x40 ∷ 0xff ∷ 0xff ∷ 0x43 ∷ 0x58 ∷ 0x44 ∷ 0x45 ∷ 0x24 ∷ 0x23 ∷ 0xff
    ∷ 0xff ∷ 0x20 ∷ 0x56 ∷ 0x46 ∷ 0x54 ∷ 0x52 ∷ 0x25 ∷ 0xff ∷ 0xff ∷ 0x4e ∷ 0x42 ∷ 0x48 ∷ 0x47
    ∷ 0x59 ∷ 0x5e ∷ 0xff ∷ 0xff ∷ 0xff ∷ 0x4d ∷ 0x4a ∷ 0x55 ∷ 0x26 ∷ 0x2a ∷ 0xff ∷ 0xff ∷ 0x3c
    ∷ 0x4b ∷ 0x49 ∷ 0x4f ∷ 0x29 ∷ 0x28 ∷ 0xff ∷ 0xff ∷ 0x3e ∷ 0x3f ∷ 0x4c ∷ 0x3a ∷ 0x50 ∷ 0x5f
    ∷ 0xff ∷ 0xff ∷ 0xff ∷ 0x22 ∷ 0xff ∷ 0x7b ∷ 0x2b ∷ 0xff ∷ 0xff ∷ 0xff ∷ 0xff ∷ 0x0a ∷ 0x7d
    ∷ 0xff ∷ 0x7c ∷ 0xff ∷ 0xff ∷ 0xff ∷ 0xff ∷ 0xff ∷ 0xff ∷ 0xff ∷ 0xff ∷ 0x08 ∷ 0xff ∷ 0xff
    ∷ 0xff ∷ 0xff ∷ 0xff ∷ 0xff ∷ 0xff ∷ 0xff ∷ 0xff ∷ 0xff ∷ 0xff ∷ 0xff ∷ 0xff ∷ 0xff ∷ 0xff
    ∷ 0x1b ∷ 0xff ∷ 0xff ∷ 0xff ∷ 0xff ∷ 0xff ∷ 0xff ∷ 0xff ∷ 0xff ∷ 0xff ∷ []

abbrev pub scantoascii_lowercase : List ℕ
scantoascii_lowercase =
    0xff ∷ 0xff ∷ 0xff ∷ 0xff ∷ 0xff ∷ 0xff ∷ 0xff ∷ 0xff ∷ 0xff ∷ 0xff ∷ 0xff ∷ 0xff ∷ 0xff ∷ 0x09
    ∷ 0x60 ∷ 0xff ∷ 0xff ∷ 0xff ∷ 0xff ∷ 0xff ∷ 0xff ∷ 0x71 ∷ 0x31 ∷ 0xff ∷ 0xff ∷ 0xff ∷ 0x7a
    ∷ 0x73 ∷ 0x61 ∷ 0x77 ∷ 0x32 ∷ 0xff ∷ 0xff ∷ 0x63 ∷ 0x78 ∷ 0x64 ∷ 0x65 ∷ 0x34 ∷ 0x33 ∷ 0xff
    ∷ 0xff ∷ 0x20 ∷ 0x76 ∷ 0x66 ∷ 0x74 ∷ 0x72 ∷ 0x35 ∷ 0xff ∷ 0xff ∷ 0x6e ∷ 0x62 ∷ 0x68 ∷ 0x67
    ∷ 0x79 ∷ 0x36 ∷ 0xff ∷ 0xff ∷ 0xff ∷ 0x6d ∷ 0x6a ∷ 0x75 ∷ 0x37 ∷ 0x38 ∷ 0xff ∷ 0xff ∷ 0x2c
    ∷ 0x6b ∷ 0x69 ∷ 0x6f ∷ 0x30 ∷ 0x39 ∷ 0xff ∷ 0xff ∷ 0x2e ∷ 0x2f ∷ 0x6c ∷ 0x3b ∷ 0x70 ∷ 0x2d
    ∷ 0xff ∷ 0xff ∷ 0xff ∷ 0x27 ∷ 0xff ∷ 0x5b ∷ 0x3d ∷ 0xff ∷ 0xff ∷ 0xff ∷ 0xff ∷ 0x0a ∷ 0x5d
    ∷ 0xff ∷ 0x5c ∷ 0xff ∷ 0xff ∷ 0xff ∷ 0xff ∷ 0xff ∷ 0xff ∷ 0xff ∷ 0xff ∷ 0x08 ∷ 0xff ∷ 0xff
    ∷ 0xff ∷ 0xff ∷ 0xff ∷ 0xff ∷ 0xff ∷ 0xff ∷ 0xff ∷ 0xff ∷ 0xff ∷ 0xff ∷ 0xff ∷ 0xff ∷ 0xff
    ∷ 0x1b ∷ 0xff ∷ 0xff ∷ 0xff ∷ 0xff ∷ 0xff ∷ 0xff ∷ 0xff ∷ 0xff ∷ 0xff ∷ []

-- The entries from `i` on are set to 0.
unfoldable pub clear : (rounds i : ℕ) → (ℕ → ℕ) → ℕ → ℕ
clear zero i f = f
clear (suc rounds) i f = clear rounds (i + 1) (update f i 0)

unfoldable pub init_buffer : Keyboard → Keyboard
unfolding clear
init_buffer k = record k {
  buffer = clear 32 0 k.buffer;
  ready = clear 32 0 k.ready;
  buffer_wptr = 0;
  buffer_rptr = 0;
}

-- A byte below 0x80 that ends a key of one byte
unfoldable pub store_key : Keyboard → Keyboard
store_key k =
    if bit_and k.key_buffer 0x7f == k.key_buffer
    then record k {
      buffer = update k.buffer k.buffer_wptr k.key_buffer;
      ready = update k.ready k.buffer_wptr 1;
      buffer_wptr = (k.buffer_wptr + 1) % 32;
    }
    else k

abbrev pub set_state : Keyboard → ℕ → Keyboard
set_state k state = record k { keyboard_state = state }

-- `switch (key_buffer)` but for the caps lock
unfoldable pub modifiers : Keyboard → Keyboard
modifiers k =
    let key = k.key_buffer in
    let state = k.keyboard_state in
    if key == 0x12
    then set_state k (bit_or state 8)
    else if key == 0x59
    then set_state k (bit_or state 8)
    else if key == 0xf012
    then set_state k (bit_and state 0xfffffff7)
    else if key == 0xf059
    then set_state k (bit_and state 0xfffffff7)
    else if key == 0x14
    then set_state k (bit_or state 16)
    else if key == 0xe014
    then set_state k (bit_or state 16)
    else if key == 0xf014
    then set_state k (bit_and state 0xffffffef)
    else if key == 0xe0f014
    then set_state k (bit_and state 0xffffffef)
    else if key == 0x11
    then set_state k (bit_or state 32)
    else if key == 0xe011
    then set_state k (bit_or state 32)
    else if key == 0xf011
    then set_state k (bit_and state 0xffffffdf)
    else if key == 0xe0f011
    then set_state k (bit_and state 0xffffffdf)
    else k

module _ {Dev : Type 0} (port : Port Dev) where
  -- The registration of the handler is `register_interrupt_handler` of `Trap`.
  unfoldable pub init_ps2 : Keyboard × Dev → Keyboard × Dev
  unfolding init_buffer
  init_ps2 (k, dev) = (init_buffer k, port.send_ctrl 0xffffffff dev)

  unfoldable pub acknowledge : Keyboard × Dev → Keyboard × Dev
  acknowledge (k, dev) = (
    record k { keyboard_cmd_state = 0 },
    if k.keyboard_cmd_state == 1 then port.send (k.keyboard_state % 8) dev else dev,
  )

  unfoldable pub switch_key : Keyboard × Dev → Keyboard × Dev
  unfolding modifiers
  switch_key (k, dev) =
      if k.key_buffer == 0x58
      then (
        record k { keyboard_state = bit_xor k.keyboard_state 4; keyboard_cmd_state = 1 },
        port.send 0xed dev,
      )
      else (modifiers k, dev)

  -- A byte that is no acknowledgement
  unfoldable pub take_byte : (byte : ℕ) → Keyboard × Dev → Keyboard × Dev
  unfolding store_key switch_key
  take_byte byte (k, dev) =
      let shifted = record k { key_buffer = bit_or (k.key_buffer * 2 ^ 8 % 2 ^ 32) byte } in
      let (pressed, d) = switch_key (store_key shifted, dev) in
      if ltb byte 0x80 then (record pressed { key_buffer = 0 }, d) else (shifted, dev)

  -- The loop, with the value of `ps2_ctrl_reg`; `continue` goes on without reading it again. none is no
  -- fuel, one for each byte.
  unfoldable pub handler_loop : (fuel ctrl : ℕ) → Keyboard × Dev → Option (Keyboard × Dev)
  unfolding acknowledge take_byte
  handler_loop zero ctrl (k, dev) = none
  handler_loop (suc fuel) ctrl (k, dev) =
      let (byte, d) = port.read_byte dev in
      let known = handler_loop fuel ctrl (acknowledge (k, d)) in
      let (n, e) = take_byte byte (k, d) in
      let (next, f) = port.read_ctrl e in
      let rest = handler_loop fuel next (n, f) in
      if ctrl % 64 == 0 then some (k, dev) else if byte == 0xfa then known else rest

  unfoldable pub ps2_handler : (fuel : ℕ) → Keyboard × Dev → Option (Keyboard × Dev)
  unfolding handler_loop
  ps2_handler fuel (k, dev) =
      let (ctrl, d) = port.read_ctrl dev in
      if ctrl / 2 ^ 16 % 8 == 0 then handler_loop fuel ctrl (k, d) else some (k, d)

unfoldable pub kernel_getkey : Keyboard → ℕ × Keyboard
unfolding init_buffer
kernel_getkey k =
    let r = k.buffer_rptr in
    let taken = record k { ready = update k.ready r 0; buffer_rptr = r + 1 } in
    if k.ready r == 0
    then (0xfff, k)
    else (k.buffer r, if r + 1 == 32 then init_buffer taken else taken)

abbrev pub same_bool : Bool → Bool → Bool
same_bool true b = b
same_bool false b = not b

-- Upper case where the truth values of caps lock and shift differ. `key` is not negative.
unfoldable pub kernel_scantoascii : (key keyboard_state : ℕ) → ℤ
kernel_scantoascii key keyboard_state =
    if bit_and key 0x7f == key
    then (if same_bool (bit_and keyboard_state 4 == 0) (bit_and keyboard_state 8 == 0)
        then from_char (get_or scantoascii_lowercase key 0)
        else from_char (get_or scantoascii_uppercase key 0))
    else negsuc 0

-- `sleep`, and with it the interrupts that come meanwhile, is `wait`. none is no fuel.
unfoldable pub kernel_getchar :
    (wait : Keyboard → Keyboard) (fuel : ℕ) → Keyboard → Option (ℤ × Keyboard)
unfolding kernel_getkey kernel_scantoascii
kernel_getchar wait zero k = none
kernel_getchar wait (suc fuel) k =
    let (code, n) = kernel_getkey k in
    elim (kernel_scantoascii code n.keyboard_state) [
      | pos c ↦ some (pos c, wait n)
      | negsuc zero ↦ kernel_getchar wait fuel (wait n)
      | negsuc (suc c) ↦ some (negsuc (suc c), wait n)
    ]
