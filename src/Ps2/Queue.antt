-- ===== src/Ps2/Queue.antt =====
-- The ring of keys of kernel/driver/ps2.c as a queue.
use mini_operating_system.Prelude.{
  ℕ, suc, ◌+◌, ◌%◌, ◌<◌, ◌≤◌, ◌≡◌, ◌≢◌, refl, sym, subst, ◌∙◌, true, false, List, [], ◌∷◌, ◌++◌,
  length, bit_and, ◌==◌, if◌then◌else◌, update, update_eq, update_ne, arith,
}
use mini_operating_system.Ps2.{Keyboard, store_key}

-- The places from `p` on, round the ring, have these keys, and they are ready.
abbrev pub Holds : (buffer ready : ℕ → ℕ) (p : ℕ) → List ℕ → Type 0
Holds buffer ready p [] = Unit {0}
Holds buffer ready p (x ∷ xs) =
    (buffer (p % 32) ≡ x) × (ready (p % 32) ≡ 1) × Holds buffer ready (p + 1) xs

-- The keys that wait are `keys`, the first one at `buffer_rptr`; no other place of the ring is ready.
pub record IsQueue (k : Keyboard) (keys : List ℕ) : Type 0 where
  pub few : length keys ≤ 32
  pub rptr_in : k.buffer_rptr < 32
  pub wptr_behind : k.buffer_wptr ≡ (k.buffer_rptr + length keys) % 32
  pub holds : Holds k.buffer k.ready k.buffer_rptr keys
  pub idle : (i : ℕ) → length keys ≤ i → i < 32 → k.ready ((k.buffer_rptr + i) % 32) ≡ 0

pub Holds-frame :
    (buffer ready buffer' ready' : ℕ → ℕ) (p : ℕ) (xs : List ℕ)
    → ((i : ℕ)
        → i < length xs
        → (buffer' ((p + i) % 32) ≡ buffer ((p + i) % 32))
          × (ready' ((p + i) % 32) ≡ ready ((p + i) % 32)))
    → Holds buffer ready p xs
    → Holds buffer' ready' p xs
Holds-frame buffer ready buffer' ready' p [] same h = tt
Holds-frame buffer ready buffer' ready' p (x ∷ xs) same h =
    let Same : ℕ → Type 0 =
      (λ n. (buffer' (n % 32) ≡ buffer (n % 32)) × (ready' (n % 32) ≡ ready (n % 32))) in
    let first = subst Same (let e : p + 0 ≡ p = omega arith in e) (same 0 (omega arith)) in
    (
      first.0 ∙ h.0,
      first.1 ∙ h.1,
      Holds-frame buffer ready buffer' ready' (p + 1) xs
          (λ i l.
            subst Same (let e : p + suc i ≡ p + 1 + i = omega arith in e)
              (same (suc i) (omega (arith, l))))
          h.2,
    )

Holds-snoc :
    (buffer ready : ℕ → ℕ) (p : ℕ) (xs : List ℕ) (key : ℕ)
    → Holds buffer ready p xs
    → buffer ((p + length xs) % 32) ≡ key
    → ready ((p + length xs) % 32) ≡ 1
    → Holds buffer ready p (xs ++ key ∷ [])
Holds-snoc buffer ready p [] key h b r =
    let e : p + 0 ≡ p = omega arith in
    (subst (λ n. buffer (n % 32) ≡ key) e b, subst (λ n. ready (n % 32) ≡ 1) e r, tt)
Holds-snoc buffer ready p (x ∷ xs) key h b r =
    let e : p + suc (length xs) ≡ p + 1 + length xs = omega arith in
    (
      h.0,
      h.1,
      Holds-snoc buffer ready (p + 1) xs key h.2 (subst (λ n. buffer (n % 32) ≡ key) e b)
          (subst (λ n. ready (n % 32) ≡ 1) e r),
    )

length-snoc : (xs : List ℕ) (key : ℕ) → length (xs ++ key ∷ []) ≡ length xs + 1
length-snoc [] key = refl
length-snoc (x ∷ xs) key = omega (arith, length-snoc xs key)

pub apart : (p i j : ℕ) → i < 32 → j < 32 → i ≢ j → ((p + i) % 32 == (p + j) % 32) ≡ false
apart p i j a b ne =
    let far : (p + i) % 32 ≢ (p + j) % 32 = (λ e. ne (omega (arith, a, b, e))) in
    ground (arith, far)

-- While fewer than 32 keys wait, a key of one byte is put behind them.
pub store_key-snoc :
    (k : Keyboard) (keys : List ℕ)
    → IsQueue k keys
    → length keys < 32
    → bit_and k.key_buffer 0x7f ≡ k.key_buffer
    → IsQueue (store_key k) (keys ++ k.key_buffer ∷ [])
unfolding store_key
store_key-snoc k keys q room short =
    let w = k.buffer_wptr in
    let key = k.key_buffer in
    let n : ℕ = length keys in
    let r = k.buffer_rptr in
    let last = length-snoc keys key in
    let e : (bit_and key 0x7f == key) ≡ true = ground (arith, short) in
    let stored : Keyboard = record k {
      buffer = update k.buffer w key;
      ready = update k.ready w 1;
      buffer_wptr = (w + 1) % 32;
    } in
    subst (λ b. IsQueue (if b then stored else k) (keys ++ key ∷ [])) (sym e)
      (record {
        few = omega (arith, last, room);
        rptr_in = q.rptr_in;
        wptr_behind = omega (arith, q.wptr_behind, last);
        holds =
            Holds-snoc (update k.buffer w key) (update k.ready w 1) r keys key
              (Holds-frame k.buffer k.ready (update k.buffer w key) (update k.ready w 1) r keys
                (λ i l.
                  (let far =
                      subst (λ p. ((r + i) % 32 == p) ≡ false) (sym q.wptr_behind)
                        (apart r i n (omega (arith, l, room)) room (omega (arith, l))) in
                    (
                      update_ne k.buffer w key ((r + i) % 32) far,
                      update_ne k.ready w 1 ((r + i) % 32) far,
                    )))
                q.holds)
              (update_eq k.buffer w key ((r + n) % 32) (sym q.wptr_behind))
              (update_eq k.ready w 1 ((r + n) % 32) (sym q.wptr_behind));
        idle = λ i l m.
            update_ne k.ready w 1 ((r + i) % 32) (
              subst (λ p. ((r + i) % 32 == p) ≡ false) (sym q.wptr_behind)
                (apart r i n m room (omega (arith, l, last))))
            ∙ q.idle i (omega (arith, l, last)) m;
      })
