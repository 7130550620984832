-- ===== src/Tree/Match.antt =====
-- `matching` of kernel/fs/tree/tree.c on terminated names.
use mini_operating_system.Prelude.{
  ℕ, zero, suc, ◌+◌, ◌<◌, ◌≡◌, refl, ap, ◌∙◌, Bool, true, false, Option, none, some, List, [], ◌∷◌,
  length, ◌==◌, ◌&&◌, ltb, pos, eq_ℤ, from_char, inl, inr, Bool-cases, if◌then◌else◌, arith,
}
use mini_operating_system.Utils.Text.{IsText}
use mini_operating_system.Tree.{name_len, same_chars, matching}

-- Whether two texts are the same, and of characters below 128
unfoldable pub same_ascii : List ℕ → List ℕ → Bool
same_ascii [] [] = true
same_ascii [] (y ∷ ys) = false
same_ascii (x ∷ xs) [] = false
same_ascii (x ∷ xs) (y ∷ ys) = if x == y && ltb y 128 then same_ascii xs ys else false

abbrev equal : (x y : ℕ) → Bool
equal x y = eq_ℤ (pos x) (from_char y)

equal_lem : (x y : ℕ) → equal x y ≡ (x == y && ltb y 128)
equal_lem x y = elim (Bool-cases (ltb y 128)) [
  | inl e ↦ rw e (ground arith)
  | inr e ↦ rw e (ground arith)
]

name_len_lem :
    (fuel i : ℕ) (name : ℕ → ℕ) (xs : List ℕ)
    → IsText name i xs
    → length xs < fuel
    → name_len fuel i name ≡ some (i + length xs)
unfolding name_len
name_len_lem zero i name xs p h = absurd (omega arith)
name_len_lem (suc fuel) i name [] p h = let e : i ≡ i + 0 = omega arith in rw p (ap some e)
name_len_lem (suc fuel) i name (x ∷ xs) p h =
    let more : (name i == 0) ≡ false = ground (arith, p.0, p.1) in
    let e : i + 1 + length xs ≡ i + suc (length xs) = omega arith in
    rw more (name_len_lem fuel (i + 1) name xs p.2 (omega arith) ∙ ap some e)

same_chars_lem :
    (i : ℕ) (name param : ℕ → ℕ) (xs ys : List ℕ)
    → IsText name i xs
    → IsText param i ys
    → same_chars (suc (length xs)) i name param ≡ same_ascii xs ys
unfolding same_chars same_ascii
same_chars_lem i name param [] [] p q = rw (p, q) refl
same_chars_lem i name param [] (y ∷ ys) p q =
    let e : (name i == param i && ltb (param i) 128) ≡ false = ground (arith, p, q.0, q.1) in
    ap (λ b. if b then same_chars 0 (i + 1) name param else false)
      (equal_lem (name i) (param i) ∙ e)
same_chars_lem i name param (x ∷ xs) [] p q =
    let e : (name i == param i && ltb (param i) 128) ≡ false = ground (arith, p.0, p.1, q) in
    ap (λ b. if b then same_chars (suc (length xs)) (i + 1) name param else false)
      (equal_lem (name i) (param i) ∙ e)
same_chars_lem i name param (x ∷ xs) (y ∷ ys) p q =
    let rest = same_chars_lem (i + 1) name param xs ys p.2 q.2 in
    ap (λ b. if b then same_chars (suc (length xs)) (i + 1) name param else false)
      (ap (λ n. equal n (param i)) p.0 ∙ ap (equal x) q.0 ∙ equal_lem x y)
    ∙ ap (λ b. if x == y && ltb y 128 then b else false) rest

-- `matching` comes back, if its fuel is more than the length of the name, and says whether the name and
-- the parameter are the same text with all characters below 128.
pub matching-same_ascii :
    (fuel : ℕ) (name param : ℕ → ℕ) (xs ys : List ℕ)
    → IsText name 0 xs
    → IsText param 0 ys
    → length xs < fuel
    → matching fuel name param ≡ some (same_ascii xs ys)
unfolding matching
matching-same_ascii fuel name param xs ys p q h =
    let Answer : Option ℕ → Option Bool =
      (λ o. elim o [ none ↦ none | some len ↦ some (same_chars (len + 1) 0 name param) ]) in
    ap Answer (name_len_lem fuel 0 name xs p h)
    ∙ ap (λ n. some (same_chars n 0 name param))
        (let f : 0 + length xs + 1 ≡ suc (length xs) = omega arith in f)
    ∙ ap some (same_chars_lem 0 name param xs ys p q)
