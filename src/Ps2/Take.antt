-- ===== src/Ps2/Take.antt =====
-- `kernel_getkey` of kernel/driver/ps2.c takes keys from the ring.
use mini_operating_system.Prelude.{
  ℕ, zero, suc, ◌+◌, ◌%◌, ◌<◌, ◌≤◌, ◌≡◌, ◌≢◌, ◌⊎◌, refl, sym, ap, subst, ◌∙◌, inl, inr, true, false,
  List, [], ◌∷◌, length, ◌==◌, if◌then◌else◌, update, update_eq, update_ne, arith, Bool-cases,
  if-cases,
}
use mini_operating_system.Ps2.{Keyboard, clear, init_buffer, kernel_getkey}
use mini_operating_system.Ps2.Queue.{IsQueue, Holds-frame}

clear-zero :
    (rounds i : ℕ) (f : ℕ → ℕ) (a : ℕ) → f a ≡ 0 ⊎ i ≤ a → a < i + rounds → clear rounds i f a ≡ 0
unfolding clear
clear-zero zero i f a (inl z) h = z
clear-zero zero i f a (inr l) h = absurd (omega (arith, l, h))
clear-zero (suc rounds) i f a seen h =
    clear-zero rounds (i + 1) (update f i 0) a (now seen) (omega (arith, h))
  where
    now : f a ≡ 0 ⊎ i ≤ a → update f i 0 a ≡ 0 ⊎ i + 1 ≤ a
    now (inl z) = inl (if-cases (λ n. n ≡ 0) (a == i) (λ e. refl) (λ e. z))
    now (inr l) = elim (Bool-cases (a == i)) [
      | inl e ↦ inl (rw e refl)
      | inr e ↦ inr (ground (arith, e, l))
    ]

init_buffer-IsQueue : (k : Keyboard) → IsQueue (init_buffer k) []
unfolding init_buffer
init_buffer-IsQueue k = record {
  few = omega arith;
  rptr_in = omega arith;
  wptr_behind = refl;
  holds = tt;
  idle = λ i l m. clear-zero 32 0 k.ready ((0 + i) % 32) (inr (omega arith)) (omega arith);
}

-- What waits behind the key at place `rptr` once it is taken
abbrev pub kept : (rptr : ℕ) → List ℕ → List ℕ
kept rptr keys = if rptr == 31 then [] else keys

abbrev pub IsTaken : (k : Keyboard) → List ℕ → ℕ × Keyboard → Type 0
IsTaken k [] r = r ≡ (0xfff, k)
IsTaken k (x ∷ xs) r = (r.0 ≡ x) × IsQueue r.1 (kept k.buffer_rptr xs)

-- The value of a key that waits, and no key
not_ready : (k : Keyboard) → k.ready k.buffer_rptr ≡ 0 → kernel_getkey k ≡ (0xfff, k)
unfolding kernel_getkey
not_ready k z = rw z refl

abbrev after_key : Keyboard → Keyboard
after_key k = record k { ready = update k.ready k.buffer_rptr 0; buffer_rptr = k.buffer_rptr + 1 }

is_ready :
    (k : Keyboard)
    → k.ready k.buffer_rptr ≡ 1
    → kernel_getkey k ≡ (
      k.buffer k.buffer_rptr,
      if k.buffer_rptr + 1 == 32 then init_buffer (after_key k) else after_key k,
    )
unfolding kernel_getkey
is_ready k z = rw z refl

-- The ring without its first key
module _ (k : Keyboard) (x : ℕ) (xs : List ℕ) (q : IsQueue k (x ∷ xs)) where
  abbrev r : ℕ
  r = k.buffer_rptr

  here : r % 32 ≡ r
  here = omega (arith, q.rptr_in)

  behind : (i : ℕ) → i < 31 → ((r + 1 + i) % 32 == r) ≡ false
  behind i h =
      let far : (r + 1 + i) % 32 ≢ r = (λ e. omega (arith, e, h, here)) in ground (arith, far)

  idle_behind : (i : ℕ) → length xs ≤ i → i < 32 → update k.ready r 0 ((r + 1 + i) % 32) ≡ 0
  idle_behind i l m = elim (Bool-cases (i == 31)) [
    | inl e ↦
        update_eq k.ready r 0 ((r + 1 + i) % 32)
          (let f : i ≡ 31 = ground (arith, e) in omega (arith, f, here))
    | inr e ↦
        let f : i < 31 = ground (arith, e, m) in
        update_ne k.ready r 0 ((r + 1 + i) % 32) (behind i f)
        ∙ subst (λ n. k.ready (n % 32) ≡ 0) (let g : r + suc i ≡ r + 1 + i = omega arith in g)
            (q.idle (suc i) (omega (arith, l)) (omega (arith, f)))
  ]

  after_key-IsQueue : r < 31 → IsQueue (after_key k) xs
  after_key-IsQueue low = record {
    few = omega (arith, q.few);
    rptr_in = omega (arith, low);
    wptr_behind = omega (arith, q.wptr_behind);
    holds =
        Holds-frame k.buffer k.ready k.buffer (update k.ready r 0) (r + 1) xs
          (λ i l.
            (refl, update_ne k.ready r 0 ((r + 1 + i) % 32) (behind i (omega (arith, l, q.few)))))
          q.holds.2;
    idle = idle_behind;
  }

  next-IsQueue :
      IsQueue (if r + 1 == 32 then init_buffer (after_key k) else after_key k) (kept r xs)
  next-IsQueue = elim (Bool-cases (r == 31)) [
    | inl e ↦
        let f : (r + 1 == 32) ≡ true = ground (arith, e) in
        subst (λ b. IsQueue (if b then init_buffer (after_key k) else after_key k) (kept r xs))
          (sym f)
          (subst (λ b. IsQueue (init_buffer (after_key k)) (if b then [] else xs)) (sym e)
            (init_buffer-IsQueue (after_key k)))
    | inr e ↦
        let f : (r + 1 == 32) ≡ false = ground (arith, e) in
        subst (λ b. IsQueue (if b then init_buffer (after_key k) else after_key k) (kept r xs))
          (sym f)
          (subst (λ b. IsQueue (after_key k) (if b then [] else xs)) (sym e)
            (after_key-IsQueue (ground (arith, e, q.rptr_in))))
  ]

-- With no key that waits the value is 0xfff and nothing changes. Otherwise it is the first key, and the
-- others wait; but behind the key at the last place of the ring none is left, and the keys that waited
-- there are lost.
pub kernel_getkey-IsTaken :
    (k : Keyboard) (keys : List ℕ) → IsQueue k keys → IsTaken k keys (kernel_getkey k)
kernel_getkey-IsTaken k [] q =
    let e : (k.buffer_rptr + 0) % 32 ≡ k.buffer_rptr = omega (arith, q.rptr_in) in
    not_ready k (ap k.ready (sym e) ∙ q.idle 0 (omega arith) (omega arith))
kernel_getkey-IsTaken k (x ∷ xs) q =
    let e = here k x xs q in
    let taken = is_ready k (ap k.ready (sym e) ∙ q.holds.1) in
    (
      ap (λ n. n.0) taken ∙ ap k.buffer (sym e) ∙ q.holds.0,
      subst (λ n. IsQueue n.1 (kept k.buffer_rptr xs)) (sym taken) (next-IsQueue k x xs q),
    )
