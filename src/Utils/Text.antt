-- ===== src/Utils/Text.antt =====
-- The string functions of utils/utils.c on terminated strings.
use mini_operating_system.Prelude.{
  ℕ, zero, suc, ◌+◌, ◌≤◌, ◌<◌, ◌≡◌, ◌≢◌, refl, sym, ◌⊎◌, inl, inr, ◌↔◌, Option, some, List, [], ◌∷◌,
  length, arith, Bool-cases, ==_iff, ◌==◌, ◌&&◌, not, update, ap, subst, update_ne, ◌∙◌, ltb,
  ltb→lt, true, false,
}
use mini_operating_system.Utils.Memory.{Memory, kernel_memcpy}
use mini_operating_system.Utils.Strings.{kernel_strlen, kernel_strcmp, copy_string, kernel_strcpy}

-- At `p` stand the characters `xs`, and a terminator behind them.
abbrev pub IsText : Memory → ℕ → List ℕ → Type 0
IsText mem p [] = mem p ≡ 0
IsText mem p (x ∷ xs) = (mem p ≡ x) × (x ≢ 0) × IsText mem (p + 1) xs

-- `r` is two characters, which are the same just if the texts are.
pub data Compared (xs ys : List ℕ) : Option (ℕ × ℕ) → Type 0 where
  compared : (a b : ℕ) → (a ≡ b) ↔ (xs ≡ ys) → Compared xs ys (some (a, b))

head_of : List ℕ → ℕ
head_of [] = 0
head_of (x ∷ _) = x

tail_of : List ℕ → List ℕ
tail_of [] = []
tail_of (_ ∷ xs) = xs

Compared-cons :
    (x : ℕ) {xs ys : List ℕ} {r : Option (ℕ × ℕ)} → Compared xs ys r → Compared (x ∷ xs) (x ∷ ys) r
unfolding tail_of
Compared-cons x (compared a b same) =
    compared a b ((λ e. ap (λ zs. x ∷ zs) (same.0 e)), (λ e. same.1 (ap tail_of e)))

-- `kernel_strcmp` of two strings comes back, if its fuel is more than the length of the first, and it
-- returns 0, for two characters that are the same, just if the strings are the same.
pub kernel_strcmp-Compared :
    (fuel dest src : ℕ) (mem : Memory) (xs ys : List ℕ)
    → IsText mem dest xs
    → IsText mem src ys
    → length xs < fuel
    → Compared xs ys (kernel_strcmp fuel dest src mem)
unfolding kernel_strcmp head_of
kernel_strcmp-Compared zero dest src mem xs ys p q h = absurd (omega arith)
kernel_strcmp-Compared (suc fuel) dest src mem [] [] p q h =
    rw (p, q) (compared 0 0 ((λ e. refl), (λ e. refl)))
kernel_strcmp-Compared (suc fuel) dest src mem [] (y ∷ ys) p q h =
    let differ : (mem dest == mem src && not (mem dest == 0)) ≡ false =
      ground (arith, p, q.0, q.1) in
    rw differ (
      compared (mem dest) (mem src)
        ((λ e. absurd (q.1 (sym q.0 ∙ sym e ∙ p))), (λ e. absurd (q.1 (sym (ap head_of e))))))
kernel_strcmp-Compared (suc fuel) dest src mem (x ∷ xs) [] p q h =
    let differ : (mem dest == mem src && not (mem dest == 0)) ≡ false =
      ground (arith, p.0, p.1, q) in
    rw differ (
      compared (mem dest) (mem src)
        ((λ e. absurd (p.1 (sym p.0 ∙ e ∙ q))), (λ e. absurd (p.1 (ap head_of e)))))
kernel_strcmp-Compared (suc fuel) dest src mem (x ∷ xs) (y ∷ ys) p q h =
    elim (Bool-cases (x == y)) [
      | inl e ↦
          let same : x ≡ y = (==_iff x y).0 e in
          let go_on : (mem dest == mem src && not (mem dest == 0)) ≡ true =
            ground (arith, p.0, p.1, q.0, same) in
          rw go_on (
            subst (λ z. Compared (x ∷ xs) (z ∷ ys) (kernel_strcmp fuel (dest + 1) (src + 1) mem))
              same
              (Compared-cons x
                (kernel_strcmp-Compared fuel (dest + 1) (src + 1) mem xs ys p.2 q.2 (omega arith))))
      | inr e ↦
          let other : x ≢ y = λ same. ground arith in
          let differ : (mem dest == mem src && not (mem dest == 0)) ≡ false =
            ground (arith, p.0, q.0, other) in
          rw differ (
            compared (mem dest) (mem src)
              ((λ f. absurd (other (sym p.0 ∙ f ∙ q.0))), (λ f. absurd (other (ap head_of f)))))
    ]

IsText-frame :
    (mem m : Memory) (p : ℕ) (xs : List ℕ)
    → ((a : ℕ) → p ≤ a → a < p + length xs + 1 → m a ≡ mem a)
    → IsText mem p xs
    → IsText m p xs
IsText-frame mem m p [] same t = same p (omega arith) (omega arith) ∙ t
IsText-frame mem m p (x ∷ xs) same t = (
  same p (omega arith) (omega arith) ∙ t.0,
  t.1,
  IsText-frame mem m (p + 1) xs (λ a l u. same a (omega arith) (omega arith)) t.2,
)

-- `kernel_strcpy` of a string to a place that starts at or before it, or behind its terminator, copies
-- its characters and the terminator as `kernel_memcpy` does, and returns the address behind those,
-- with any fuel above the length.
pub kernel_strcpy_lem :
    (fuel dest src : ℕ) (mem : Memory) (xs : List ℕ)
    → IsText mem src xs
    → (dest ≤ src) ⊎ (src + length xs < dest)
    → length xs < fuel
    → kernel_strcpy fuel dest src mem
      ≡ some (dest + suc (length xs), kernel_memcpy dest src (suc (length xs)) mem)
unfolding kernel_strcpy copy_string kernel_memcpy
kernel_strcpy_lem zero dest src mem xs t apart h = absurd (omega arith)
kernel_strcpy_lem (suc fuel) dest src mem [] t apart h = rw t refl
kernel_strcpy_lem (suc fuel) dest src mem (x ∷ xs) t apart h =
    let more : (mem src == 0) ≡ false = ground (arith, t.0, t.1) in
    let rest : IsText (update mem dest (mem src)) (src + 1) xs =
      IsText-frame mem _ (src + 1) xs (λ a l u. update_ne mem dest (mem src) a (ground arith))
        t.2 in
    let ends : dest + 1 + suc (length xs) ≡ dest + suc (suc (length xs)) = omega arith in
    let ih =
      kernel_strcpy_lem fuel (dest + 1) (src + 1) (update mem dest (mem src)) xs rest (omega arith)
        (omega arith) in
    rw more (
      ih
      ∙ ap
          (λ n.
            some
              (n, kernel_memcpy (dest + 1) (src + 1) (suc (length xs)) (update mem dest (mem src))))
          ends)

kernel_strlen_found :
    (fuel str i : ℕ) (mem : Memory) (r : ℕ)
    → kernel_strlen fuel str i mem ≡ some r
    → mem (str + r) ≡ 48
unfolding kernel_strlen
kernel_strlen_found zero str i mem r e = ground arith
kernel_strlen_found (suc fuel) str i mem r e = elim (Bool-cases (mem (str + i) == 48)) [
  | inl b ↦ let same : i ≡ r = ground (arith, e, b) in rw (← same) ((==_iff _ _).0 b)
  | inr b ↦ kernel_strlen_found fuel str (i + 1) mem r (ground (arith, e, b))
]

-- If none of the bytes of a string is the character '0', `kernel_strlen` does not stop at its
-- terminator: any value that it returns is greater than the length of the string.
pub kernel_strlen_past :
    (fuel str : ℕ) (mem : Memory) (n r : ℕ)
    → ((i : ℕ) → i < n → mem (str + i) ≢ 48)
    → mem (str + n) ≡ 0
    → kernel_strlen fuel str 0 mem ≡ some r
    → n < r
kernel_strlen_past fuel str mem n r chars end e =
    let found : mem (str + r) ≡ 48 = kernel_strlen_found fuel str 0 mem r e in
    elim (Bool-cases (r == n)) [
      | inl b ↦
          let same : mem (str + r) ≡ 0 = rw ((==_iff _ _).0 b) end in omega (arith, found, same)
      | inr b ↦ elim (Bool-cases (ltb r n)) [
        | inl c ↦ absurd (chars r (ltb→lt r n c) found)
        | inr c ↦ ground arith
      ]
    ]
