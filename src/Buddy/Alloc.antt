-- ===== src/Buddy/Alloc.antt =====
-- `__alloc_pages` of kernel/mm/buddy.c: which block it takes and what it does to the free lists.
use mini_operating_system.Prelude.{
  ℕ, zero, suc, ◌+◌, ◌-◌, ◌^◌, ◌≤◌, ◌<◌, ◌≡◌, refl, sym, ap, subst, ◌∙◌, Option, none, some, List,
  [], ◌∷◌, length, update, update_eq, update_ne, arith, Bool-cases, ==_iff, ◌==◌, inl, inr, add32,
  sub32,
}
use mini_operating_system.Prelude.Bits.{pow-lt, pow_pos}
use mini_operating_system.ListHead.{Links, list_empty, list_add, list_del_init}
use mini_operating_system.ListHead.Ring.{IsRing, ◌∉◌}
use mini_operating_system.ListHead.Laws.{list_empty_iff}
use mini_operating_system.Buddy.{
  Buddy, node, page_of, first_node, split_block, find_order, take_block, get_pages,
}
use mini_operating_system.Lock.{lockup, unlock}
use mini_operating_system.Buddy.Rings.{AreFree, taken_first, put_first}

abbrev pub Free : Buddy → (ℕ → List ℕ) → Type 0
Free s at = AreFree s.links s.count at

-- The lists after the halves of the block at node `p` have gone to the orders from `b` on.
abbrev pub split_lists : (rounds b p : ℕ) → (ℕ → List ℕ) → ℕ → List ℕ
split_lists zero b p at = at
split_lists (suc rounds) b p at =
    split_lists rounds b p (update at (b + rounds) ((p + 2 ^ (b + rounds)) ∷ []))

-- The nodes of the upper halves are on no list.
abbrev Unlisted : (rounds b p : ℕ) → (ℕ → List ℕ) → Type 0
Unlisted rounds b p at = (k : ℕ) → k < rounds → (j : ℕ) → j < 5 → (p + 2 ^ (b + k)) ∉ (j ∷ at j)

split_block-Free :
    (rounds b page : ℕ) (s : Buddy) (at : ℕ → List ℕ)
    → b + rounds < 5
    → Free s at
    → ((k : ℕ) → k < rounds → at (b + k) ≡ [])
    → Unlisted rounds b (node page) at
    → Free (split_block rounds b page s) (split_lists rounds b (node page) at)
unfolding split_block
split_block-Free zero b page s at h v empty out = v
split_block-Free (suc rounds) b page s at h v empty out =
    let o = b + rounds in
    let x = node page + 2 ^ o in
    let same : node (page + 2 ^ o) ≡ x = omega arith in
    let fresh : (k : ℕ) → k < 5 → node (page + 2 ^ o) ∉ (k ∷ at k) =
      λ k l. subst (λ y. y ∉ (k ∷ at k)) (sym same) (out rounds (omega arith) k l) in
    let pushed =
      put_first s.links s.count at v o (omega arith) (node (page + 2 ^ o))
        (empty rounds (omega arith)) fresh in
    split_block-Free rounds b page _ (update at o (x ∷ [])) (omega arith)
      (subst
        (λ y.
          AreFree (list_add (node (page + 2 ^ o)) o s.links)
            (update s.count o (add32 (s.count o) 1)) (update at o (y ∷ [])))
        same pushed)
      (λ k l. update_ne at o (x ∷ []) (b + k) (ground arith) ∙ empty k (omega arith))
      (λ k l j m. elim (Bool-cases (j == o)) [
        | inl e ↦
            let less : 2 ^ (b + k) < 2 ^ o = pow-lt (b + k) o (omega arith) in
            let apart = out k (omega arith) j m in
            subst (λ ys. (node page + 2 ^ (b + k)) ∉ (j ∷ ys))
              (sym (update_eq at o (x ∷ []) j ((==_iff j o).0 e))) (ground (arith, less, apart))
        | inr e ↦
            subst (λ ys. (node page + 2 ^ (b + k)) ∉ (j ∷ ys)) (sym (update_ne at o (x ∷ []) j e))
              (out k (omega arith) j m)
      ])

split_block-page :
    (rounds b page : ℕ) (s : Buddy) → (split_block rounds b page s).pages page ≡ s.pages page
unfolding split_block
split_block-page zero b page s = refl
split_block-page (suc rounds) b page s =
    split_block-page rounds b page _
    ∙ update_ne s.pages (page + 2 ^ (b + rounds)) _ page (ground (arith, pow_pos (b + rounds)))

-- The first order from `o` on with a block, its first block and the others.
data FoundOrder (at : ℕ → List ℕ) (o : ℕ) : Option ℕ → Type 0 where
  all_empty : ((k : ℕ) → o ≤ k → k < 5 → at k ≡ []) → FoundOrder at o none
  first_block :
      (r p : ℕ) (rest : List ℕ)
      → o ≤ r
      → r < 5
      → at r ≡ p ∷ rest
      → ((k : ℕ) → o ≤ k → k < r → at k ≡ [])
      → FoundOrder at o (some r)

next_order :
    (at : ℕ → List ℕ) (o : ℕ) (r : Option ℕ)
    → at o ≡ []
    → FoundOrder at (suc o) r
    → FoundOrder at o r
next_order at o none e (all_empty all) = all_empty (λ k a b. elim (Bool-cases (k == o)) [
  | inl f ↦ ap at ((==_iff k o).0 f) ∙ e
  | inr f ↦ all k (ground arith) b
])
next_order at o (some r) e (first_block _ p rest a b c all) =
    first_block r p rest (omega arith) b c (λ k d u. elim (Bool-cases (k == o)) [
      | inl f ↦ ap at ((==_iff k o).0 f) ∙ e
      | inr f ↦ all k (ground arith) u
    ])

this_order :
    (at : ℕ → List ℕ) (o : ℕ) (xs : List ℕ)
    → o < 5
    → at o ≡ xs
    → (length xs ≡ 0 → ⊥)
    → FoundOrder at o (some o)
this_order at o [] h e full = absurd (full refl)
this_order at o (x ∷ xs) h e full =
    first_block o x xs (omega arith) h e (λ k a b. absurd (omega arith))

no_nodes : (xs : List ℕ) → length xs ≡ 0 → xs ≡ []
no_nodes [] h = refl
no_nodes (x ∷ xs) h = absurd (omega (arith, h))

find_order-FoundOrder :
    (rounds o : ℕ) (l : Links) (count : ℕ → ℕ) (at : ℕ → List ℕ)
    → AreFree l count at
    → rounds + o ≡ 5
    → FoundOrder at o (find_order rounds o l)
unfolding find_order
find_order-FoundOrder zero o l count at v h = all_empty (λ k a b. absurd (omega (arith, h)))
find_order-FoundOrder (suc rounds) o l count at v h =
    let empty = list_empty_iff l o (at o) (v.rings o (omega (arith, h))) in
    elim (Bool-cases (list_empty o l)) [
      | inl t ↦ rw t (
          next_order at o _ (empty.0 t)
            (find_order-FoundOrder rounds (suc o) l count at v (omega (arith, h))))
      | inr f ↦ rw f (
          this_order at o (at o) (omega (arith, h)) refl
            (λ z. ground (arith, f, empty.1 (no_nodes (at o) z))))
    ]

-- The free lists of the buddy system: blocks stand behind the heads, and the pages where a block's
-- halves begin are on no list.
pub record IsBuddy (s : Buddy) (at : ℕ → List ℕ) : Type 0 where
  pub free : Free s at
  pub nodes : (o p : ℕ) (rest : List ℕ) → o < 5 → at o ≡ p ∷ rest → first_node ≤ p
  pub halves :
      (o p : ℕ) (rest : List ℕ)
      → o < 5
      → at o ≡ p ∷ rest
      → (k : ℕ) → k < o
      → (j : ℕ) → j < 5
      → (p + 2 ^ k) ∉ (j ∷ at j)

-- What `__alloc_pages` for blocks of order `b` answers, and the free lists then.
pub data Got (b : ℕ) (at : ℕ → List ℕ) : Option ℕ × Buddy → Type 0 where
  nothing_free :
      (n : Buddy) → ((k : ℕ) → b ≤ k → k < 5 → at k ≡ []) → Free n at → Got b at (none, n)
  got :
      (o page : ℕ) (rest : List ℕ) (n : Buddy)
      → b ≤ o
      → o < 5
      → at o ≡ node page ∷ rest
      → ((k : ℕ) → b ≤ k → k < o → at k ≡ [])
      → ((n.pages page).flag ≡ 1) × ((n.pages page).bplevel ≡ b)
      → Free n (split_lists (o - b) b (node page) (update at o rest))
      → Got b at (some page, n)

took :
    (b o : ℕ) (s : Buddy) (at : ℕ → List ℕ) (p : ℕ) (rest : List ℕ)
    → IsBuddy s at
    → b ≤ o
    → o < 5
    → at o ≡ p ∷ rest
    → ((k : ℕ) → b ≤ k → k < o → at k ≡ [])
    → let r = take_block b o s in
      (node r.0 ≡ p)
      × (((r.1).pages r.0).flag ≡ 1)
      × (((r.1).pages r.0).bplevel ≡ b)
      × Free r.1 (split_lists (o - b) b (node r.0) (update at o rest))
unfolding take_block
took b o s at p rest v h u e low =
    let pg = page_of (s.links.next o) in
    let ring : IsRing s.links o (p ∷ rest) =
      subst (λ ys. IsRing s.links o ys) e (v.free.rings o u) in
    let first : s.links.next o ≡ p = ring.chain.0 in
    let there : node pg ≡ p = omega (arith, first, v.nodes o p rest u e) in
    let taken =
      subst
        (λ q.
          AreFree (list_del_init q s.links) (update s.count o (sub32 (s.count o) 1))
            (update at o rest))
        (sym there) (taken_first s.links s.count at v.free o u p rest e) in
    let pages =
      split_block-page (o - b) b pg _
      ∙ update_eq s.pages pg (record (s.pages pg) { bplevel = b; flag = 1 }) pg refl in
    (
      there,
      ap (λ x. x.flag) pages,
      ap (λ x. x.bplevel) pages,
      split_block-Free (o - b) b pg _ (update at o rest) (omega arith) taken
          (λ k l.
            update_ne at o rest (b + k) (ground arith) ∙ low (b + k) (omega arith) (omega arith))
          (λ k l j m.
            let out : (node pg + 2 ^ (b + k)) ∉ (j ∷ at j) =
              subst (λ q. (q + 2 ^ (b + k)) ∉ (j ∷ at j)) (sym there)
                (v.halves o p rest u e (b + k) (omega arith) j m) in
            elim (Bool-cases (j == o)) [
              | inl f ↦
                  let whole : at j ≡ p ∷ rest = ap at ((==_iff j o).0 f) ∙ e in
                  let out' = subst (λ ys. (node pg + 2 ^ (b + k)) ∉ (j ∷ ys)) whole out in
                  subst (λ ys. (node pg + 2 ^ (b + k)) ∉ (j ∷ ys))
                    (sym (update_eq at o rest j ((==_iff j o).0 f))) (ground (arith, out'))
              | inr f ↦
                  subst (λ ys. (node pg + 2 ^ (b + k)) ∉ (j ∷ ys)) (sym (update_ne at o rest j f))
                    out
            ]),
    )

after_order :
    (b : ℕ) (s : Buddy) (at : ℕ → List ℕ) (r : Option ℕ)
    → IsBuddy s at
    → FoundOrder at b r
    → let locked = record s { lock = (lockup s.lock).1 } in
      Got b at (elim r [
        | none ↦ (none, record locked { lock = (unlock locked.lock).1 })
        | some order ↦
            let (page, n) = take_block b order locked in
            (some page, record n { lock = (unlock n.lock).1 })
      ])
after_order b s at none v (all_empty all) = nothing_free _ all v.free
after_order b s at (some o) v (first_block _ p rest h u e low) =
    let locked : Buddy = record s { lock = (lockup s.lock).1 } in
    let v' : IsBuddy locked at = record { free = v.free; nodes = v.nodes; halves = v.halves } in
    let t = took b o locked at p rest v' h u e low in
    got o _ rest _ h u (e ∙ ap (λ q. q ∷ rest) (sym t.0)) low (t.1, t.2) t.3

-- `__alloc_pages` for blocks of order `b`, up to 4, from free lists that share no node, have their
-- lengths as counts, and do not list a page where a half of their first block begins. It answers with
-- none only if every list from `b` up is empty. Else it takes the first block of the first list that
-- is not: its page is marked as used and of order `b`, the upper halves become the lists of the
-- orders between, the other lists stay, and their nodes are apart and their counts right again.
pub get_pages-Got :
    (b : ℕ) (s : Buddy) (at : ℕ → List ℕ) → b < 5 → IsBuddy s at → Got b at (get_pages b s)
unfolding get_pages
get_pages-Got b s at h v =
    after_order b s at _ v (find_order-FoundOrder (5 - b) b s.links s.count at v.free (omega arith))
