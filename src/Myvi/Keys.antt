-- ===== src/Myvi/Keys.antt =====
-- `insert_key` and `delete_key` of usr/myvi.c.
use mini_operating_system.Prelude.{
  ℕ, zero, suc, ◌+◌, ◌-◌, ◌^◌, ◌<◌, ◌≤◌, ◌≡◌, ◌≢◌, ◌⊎◌, refl, sym, ap, ◌∙◌, inl, inr, true, false,
  ltb, ◌==◌, if◌then◌else◌, add32, sub32, update, update_eq, update_ne, arith, Bool-cases, subst,
}
use mini_operating_system.Myvi.{Vi, less, distance, open_gap, close_gap, insert_key, delete_key}

distance_lem : (a b : ℕ) → a ≤ b → b < 2 ^ 31 → distance a b ≡ b - a
distance_lem a b h l = elim (Bool-cases (a == b)) [
  | inl e ↦
      let f : a ≡ b = ground (arith, e) in
      let g : less a b ≡ false = ground (arith, f) in
      ap (λ t. if t then sub32 b a else 0) g ∙ omega (arith, f)
  | inr e ↦
      let f : a < b = ground (arith, e, h) in
      let g : less a b ≡ true = ground (arith, f, l) in
      ap (λ t. if t then sub32 b a else 0) g ∙ omega (arith, f, l)
]

open_gap_lem :
    (n i : ℕ) (b : ℕ → ℕ) (j : ℕ)
    → n ≤ i
    → i < 2 ^ 31
    → (i < j + n → j ≤ i → open_gap n i b j ≡ b (j - 1))
      × (j + n ≤ i ⊎ i < j → open_gap n i b j ≡ b j)
unfolding open_gap
open_gap_lem zero i b j h l = ((λ p q. absurd (omega (arith, p, q))), (λ p. refl))
open_gap_lem (suc n) i b j h l =
    let e : sub32 i 1 ≡ i - 1 = omega (arith, h, l) in
    let b' : ℕ → ℕ = update b i (b (i - 1)) in
    let rest = open_gap_lem n (i - 1) b' j (omega (arith, h)) (omega (arith, l)) in
    let same : (z : ℕ) → z ≢ i → b' z ≡ b z =
      (λ z ne. update_ne b i (b (i - 1)) z (ground (arith, ne))) in
    let moved = ap (λ k. open_gap n k (update b i (b k)) j) e in
    (
      λ p q. moved ∙ elim (Bool-cases (j == i)) [
        | inl f ↦
            let g : j ≡ i = ground (arith, f) in
            rest.1 (inr (omega (arith, g, h)))
            ∙ update_eq b i (b (i - 1)) j g
            ∙ ap (λ z. b (z - 1)) (sym g)
        | inr f ↦
            let g : j < i = ground (arith, f, q) in
            rest.0 (omega (arith, p)) (omega (arith, g)) ∙ same (j - 1) (omega (arith, g))
      ],
      λ p. moved ∙ rest.1 (omega (arith, p)) ∙ same j (omega (arith, p, h)),
    )

close_gap_lem :
    (n i : ℕ) (b : ℕ → ℕ) (j : ℕ)
    → i + n < 2 ^ 31
    → (i ≤ j → j < i + n → close_gap n i b j ≡ b (j + 1))
      × (j < i ⊎ i + n ≤ j → close_gap n i b j ≡ b j)
unfolding close_gap
close_gap_lem zero i b j l = ((λ p q. absurd (omega (arith, p, q))), (λ p. refl))
close_gap_lem (suc n) i b j l =
    let e : add32 i 1 ≡ i + 1 = omega (arith, l) in
    let b' : ℕ → ℕ = update b i (b (i + 1)) in
    let rest = close_gap_lem n (i + 1) b' j (omega (arith, l)) in
    let same : (z : ℕ) → z ≢ i → b' z ≡ b z =
      (λ z ne. update_ne b i (b (i + 1)) z (ground (arith, ne))) in
    let moved = ap (λ k. close_gap n k (update b i (b k)) j) e in
    (
      λ p q. moved ∙ elim (Bool-cases (j == i)) [
        | inl f ↦
            let g : j ≡ i = ground (arith, f) in
            rest.1 (inl (omega (arith, g)))
            ∙ update_eq b i (b (i + 1)) j g
            ∙ ap (λ z. b (z + 1)) (sym g)
        | inr f ↦
            let g : i < j = ground (arith, f, p) in
            rest.0 (omega (arith, g)) (omega (arith, q)) ∙ same (j + 1) (omega (arith, g))
      ],
      λ p. moved ∙ rest.1 (omega (arith, p)) ∙ same j (omega (arith, p)),
    )

module _ (key site : ℕ) (v : Vi) where
  pub record IsInserted (w : Vi) : Type 0 where
    pub longer : w.size ≡ v.size + 1
    pub key_there : w.buffer site ≡ key
    pub in_front : (i : ℕ) → i < site → w.buffer i ≡ v.buffer i
    pub behind : (i : ℕ) → site ≤ i → i < v.size → w.buffer (i + 1) ≡ v.buffer i

  insert_key-IsInserted : site ≤ v.size → v.size < 4096 → IsInserted (insert_key key site v)
  unfolding insert_key
  insert_key-IsInserted h l =
      let e : less v.size 4096 ≡ true = ground (arith, l) in
      let rounds = distance_lem site v.size h (omega (arith, l)) in
      let moved : ℕ → ℕ = open_gap (v.size - site) v.size v.buffer in
      let shift = λ (j : ℕ).
        open_gap_lem (v.size - site) v.size v.buffer j (omega arith) (omega (arith, l)) in
      subst
        (λ b. IsInserted (
          if b
          then record v {
            buffer = update (open_gap (distance site v.size) v.size v.buffer) site key;
            size = add32 v.size 1;
          }
          else record v { err = 1 }))
        (sym e)
        (subst
          (λ n. IsInserted (record v {
            buffer = update (open_gap n v.size v.buffer) site key;
            size = add32 v.size 1;
          }))
          (sym rounds)
          (record {
            longer = omega (arith, l);
            key_there = update_eq moved site key site refl;
            in_front = λ i k.
                update_ne moved site key i (ground (arith, k))
                ∙ (shift i).1 (inl (omega (arith, k, h)));
            behind = λ i k m.
                update_ne moved site key (i + 1) (ground (arith, k))
                ∙ (shift (i + 1)).0 (omega (arith, k, h)) (omega (arith, m))
                ∙ ap v.buffer (let f : i + 1 - 1 ≡ i = omega arith in f);
          }))

module _ (site : ℕ) (v : Vi) where
  pub record IsDeleted (w : Vi) : Type 0 where
    pub shorter : w.size + 1 ≡ v.size
    pub in_front : (i : ℕ) → i < site → w.buffer i ≡ v.buffer i
    pub behind : (i : ℕ) → site ≤ i → i + 1 < v.size → w.buffer i ≡ v.buffer (i + 1)

  delete_key-IsDeleted : site < v.size → v.size ≤ 4096 → IsDeleted (delete_key site v)
  unfolding delete_key
  delete_key-IsDeleted h l =
      let e : sub32 v.size 1 ≡ v.size - 1 = omega (arith, h, l) in
      let rounds : distance site (sub32 v.size 1) ≡ v.size - 1 - site =
        ap (distance site) e
        ∙ distance_lem site (v.size - 1) (omega (arith, h)) (omega (arith, l)) in
      let shift =
        λ (j : ℕ). close_gap_lem (v.size - 1 - site) site v.buffer j (omega (arith, h, l)) in
      subst
        (λ n. IsDeleted (record v { buffer = close_gap n site v.buffer; size = sub32 v.size 1 }))
        (sym rounds)
        (record {
          shorter = omega (arith, h, l);
          in_front = λ i k. (shift i).1 (inl k);
          behind = λ i k m. (shift i).0 k (omega (arith, k, m));
        })

-- In a buffer with room, at a place up to the end of the text: the key that is inserted stands there,
-- and what was there and behind it is one place on. When it is deleted again the text is as before.
pub delete_key-insert_key :
    (key site : ℕ) (v : Vi)
    → site ≤ v.size
    → v.size < 4096
    → IsInserted key site v (insert_key key site v)
      × ((delete_key site (insert_key key site v)).size ≡ v.size)
      × ((i : ℕ) → i < v.size → (delete_key site (insert_key key site v)).buffer i ≡ v.buffer i)
delete_key-insert_key key site v h l =
    let n = insert_key-IsInserted key site v h l in
    let d =
      delete_key-IsDeleted site (insert_key key site v) (omega (arith, n.longer, h))
        (omega (arith, n.longer, l)) in
    (
      n,
      omega (arith, d.shorter, n.longer),
      λ i k. elim (Bool-cases (ltb i site)) [
        | inl e ↦ let f : i < site = ground (arith, e) in d.in_front i f ∙ n.in_front i f
        | inr e ↦
            let f : site ≤ i = ground (arith, e) in
            d.behind i f (omega (arith, n.longer, k)) ∙ n.behind i f k
      ],
    )
