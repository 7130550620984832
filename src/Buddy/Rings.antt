-- ===== src/Buddy/Rings.antt =====
-- The free lists of kernel/mm/buddy.c as lists of nodes: how one block is taken off its list, and how
-- one is put on a list that is empty.
use mini_operating_system.Prelude.{
  ℕ, suc, ◌<◌, ◌≡◌, sym, ap, subst, ◌∙◌, false, List, [], ◌∷◌, length, update, update_eq, update_ne,
  arith, Bool-cases, ==_iff, ◌==◌, inl, inr, add32, sub32, word,
}
use mini_operating_system.ListHead.{Links, list_add, list_del_init}
use mini_operating_system.ListHead.Ring.{IsRing, ◌∈◌, ◌∉◌}
use mini_operating_system.ListHead.Laws.{
  Apart, list_add-cons, list_add-Apart, list_del_init-drop, list_del_init-Apart,
}

-- `at k` is the list of the free blocks of order `k`, as the nodes of their first pages.
pub record AreFree (l : Links) (count : ℕ → ℕ) (at : ℕ → List ℕ) : Type 0 where
  pub rings : (k : ℕ) → k < 5 → IsRing l k (at k)
  pub apart : (j k : ℕ) → j < 5 → k < 5 → (j == k) ≡ false → Apart (j ∷ at j) (k ∷ at k)
  pub counts : (k : ℕ) → k < 5 → count k ≡ length (at k)
  pub bounded : (k : ℕ) → k < 5 → length (at k) < word

both :
    (f : ℕ → List ℕ) {ys zs : List ℕ} (j k : ℕ)
    → f j ≡ ys
    → f k ≡ zs
    → Apart (j ∷ ys) (k ∷ zs)
    → Apart (j ∷ f j) (k ∷ f k)
both f {ys = ys} {zs = zs} j k a b t =
    subst (λ w. Apart (j ∷ f j) (k ∷ w)) (sym b) (subst (λ w. Apart (j ∷ w) (k ∷ zs)) (sym a) t)

module _ (l : Links) (count : ℕ → ℕ) (at : ℕ → List ℕ) (v : AreFree l count at) (o : ℕ)
    (h : o < 5) where
  -- The list of order `o` changes to `xs`, with nodes that it had or that no other list has.
  changed :
      (m : Links) (c : ℕ) (xs : List ℕ)
      → IsRing m o xs
      → ((k : ℕ) → k < 5 → (k == o) ≡ false → IsRing m k (at k))
      → ((k : ℕ) → k < 5 → (k == o) ≡ false → Apart (o ∷ xs) (k ∷ at k) × Apart (k ∷ at k) (o ∷ xs))
      → c ≡ length xs
      → length xs < word
      → AreFree m (update count o c) (update at o xs)
  changed m c xs ring others parts counted bound = record {
    rings = λ k l. elim (Bool-cases (k == o)) [
      | inl e ↦
          subst (λ ys. IsRing m k ys) (sym (update_eq at o xs k ((==_iff k o).0 e)))
            (subst (λ i. IsRing m i xs) (sym ((==_iff k o).0 e)) ring)
      | inr e ↦ subst (λ ys. IsRing m k ys) (sym (update_ne at o xs k e)) (others k l e)
    ];
    apart = λ j k a b ne. elim (Bool-cases (j == o)) [
      | inl e ↦
          let far : (k == o) ≡ false = ground (arith, e, ne) in
          both (update at o xs) j k (update_eq at o xs j ((==_iff j o).0 e))
            (update_ne at o xs k far)
            (subst (λ i. Apart (i ∷ xs) (k ∷ at k)) (sym ((==_iff j o).0 e)) (parts k b far).0)
      | inr e ↦ elim (Bool-cases (k == o)) [
        | inl f ↦
            both (update at o xs) j k (update_ne at o xs j e)
              (update_eq at o xs k ((==_iff k o).0 f))
              (subst (λ i. Apart (j ∷ at j) (i ∷ xs)) (sym ((==_iff k o).0 f)) (parts j a e).1)
        | inr f ↦
            both (update at o xs) j k (update_ne at o xs j e) (update_ne at o xs k f)
              (v.apart j k a b ne)
      ]
    ];
    counts = λ k l. elim (Bool-cases (k == o)) [
      | inl e ↦
          update_eq count o c k ((==_iff k o).0 e)
          ∙ counted
          ∙ ap length (sym (update_eq at o xs k ((==_iff k o).0 e)))
      | inr e ↦ update_ne count o c k e ∙ v.counts k l ∙ ap length (sym (update_ne at o xs k e))
    ];
    bounded = λ k l. elim (Bool-cases (k == o)) [
      | inl e ↦ subst (λ ys. length ys < word) (sym (update_eq at o xs k ((==_iff k o).0 e))) bound
      | inr e ↦ subst (λ ys. length ys < word) (sym (update_ne at o xs k e)) (v.bounded k l)
    ];
  }

  -- `list_del_init` of the first block.
  pub taken_first :
      (p : ℕ) (rest : List ℕ)
      → at o ≡ p ∷ rest
      → AreFree (list_del_init p l) (update count o (sub32 (count o) 1)) (update at o rest)
  taken_first p rest e =
      let r : IsRing l o (p ∷ rest) = subst (λ ys. IsRing l o ys) e (v.rings o h) in
      let before : (k : ℕ) → k < 5 → (k == o) ≡ false → Apart (k ∷ at k) (o ∷ p ∷ rest) =
        λ k b ne. subst (λ ys. Apart (k ∷ at k) (o ∷ ys)) e (v.apart k o b h ne) in
      let behind : (k : ℕ) → k < 5 → (k == o) ≡ false → Apart (o ∷ p ∷ rest) (k ∷ at k) =
        λ k b ne. subst (λ ys. Apart (o ∷ ys) (k ∷ at k)) e (v.apart o k h b (ground arith)) in
      let size : length (at o) ≡ suc (length rest) = ap length e in
      changed (list_del_init p l) _ rest (list_del_init-drop [] p rest r).0
        (λ k b ne. list_del_init-Apart (v.rings k b) [] p rest r (before k b ne))
        (λ k b ne.
          ((λ q i. behind k b ne q (ground arith)), (λ q i. ground (arith, before k b ne q i))))
        (omega (arith, v.counts o h, v.bounded o h, size)) (omega (arith, v.bounded o h, size))

  -- `list_add` of a block that is on no list, to an empty list.
  pub put_first :
      (p : ℕ)
      → at o ≡ []
      → ((k : ℕ) → k < 5 → p ∉ (k ∷ at k))
      → AreFree (list_add p o l) (update count o (add32 (count o) 1)) (update at o (p ∷ []))
  put_first p e out =
      let r : IsRing l o [] = subst (λ ys. IsRing l o ys) e (v.rings o h) in
      let before : (k : ℕ) → k < 5 → (k == o) ≡ false → Apart (k ∷ at k) (o ∷ []) =
        λ k b ne. subst (λ ys. Apart (k ∷ at k) (o ∷ ys)) e (v.apart k o b h ne) in
      let behind : (k : ℕ) → k < 5 → (k == o) ≡ false → Apart (o ∷ []) (k ∷ at k) =
        λ k b ne. subst (λ ys. Apart (o ∷ ys) (k ∷ at k)) e (v.apart o k h b (ground arith)) in
      let alone : p ∉ (o ∷ []) = subst (λ ys. p ∉ (o ∷ ys)) e (out o h) in
      let size : length (at o) ≡ 0 = ap length e in
      changed (list_add p o l) _ (p ∷ []) (list_add-cons r p alone)
        (λ k b ne. list_add-Apart (v.rings k b) [] p r (before k b ne) (out k b))
        (λ k b ne. (
          (λ q i. elim (Bool-cases (q == p)) [
            | inl f ↦ subst (λ z. z ∉ (k ∷ at k)) (sym ((==_iff q p).0 f)) (out k b)
            | inr f ↦ behind k b ne q (ground arith)
          ]),
          (λ q i. elim (Bool-cases (q == p)) [
            | inl f ↦
                let there : p ∈ (k ∷ at k) = subst (λ z. z ∈ (k ∷ at k)) ((==_iff q p).0 f) i in
                ground (arith, there, out k b)
            | inr f ↦ ground (arith, before k b ne q i)
          ]),
        ))
        (omega (arith, v.counts o h, size)) (omega arith)
