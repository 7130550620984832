-- ===== src/ListHead/Laws.antt =====
-- What each operation of list.h does to the list of nodes that a head stands for.
use mini_operating_system.Prelude.{ℕ, ◌≡◌, refl, ◌↔◌, true, false, List, [], ◌∷◌, ◌++◌, arith, ◌==◌}
use mini_operating_system.ListHead.{
  Links, init_list_head, list_add_between, list_add, list_add_tail, list_del_between, list_del,
  list_del_init, list_move, list_move_tail, list_empty,
}
use mini_operating_system.ListHead.Ring.{
  ◌∈◌, ◌∉◌, Distinct, Chain, IsRing, has-append, Chain-frame, Chain-append, prev-mem, next-mem,
  Distinct-drop, Distinct-snoc,
}

-- `INIT_LIST_HEAD` makes an empty list.
pub init_list_head-IsRing : (h : ℕ) (l : Links) → IsRing (init_list_head h l) h []
unfolding init_list_head
init_list_head-IsRing h l = record { distinct = (refl, tt); chain = ground arith }

-- `list_empty` answers true exactly for the head of a list of no nodes.
pub list_empty_iff :
    (l : Links) (h : ℕ) (xs : List ℕ) → IsRing l h xs → (list_empty h l ≡ true) ↔ (xs ≡ [])
unfolding list_empty
list_empty_iff l h [] r = ground (arith, r.chain)
list_empty_iff l h (x ∷ xs) r = ground (arith, r.chain, r.distinct)

-- A node behind the end of a chain.
snoc-Chain :
    (l : Links) (new a : ℕ) (xs : List ℕ) (b : ℕ)
    → Chain l a xs b
    → Distinct (a ∷ xs)
    → new ∉ (a ∷ xs)
    → b ∉ xs
    → (new == b) ≡ false
    → Chain (list_add_between new (l.prev b) b l) a (xs ++ new ∷ []) b
unfolding list_add_between
snoc-Chain l new a [] b c d out last ne = ground arith
snoc-Chain l new a (x ∷ xs) b c d out last ne =
    let before = prev-mem l x xs b c.2 in
    (ground arith, ground arith, snoc-Chain l new x xs b c.2 d.1 (ground arith) (ground arith) ne)

-- A node between a head and the node that follows it.
cons-Chain :
    (l : Links) (new a : ℕ) (xs : List ℕ) (b : ℕ)
    → Chain l a xs b
    → Distinct (a ∷ xs)
    → new ∉ (a ∷ xs)
    → b ∉ xs
    → (new == b) ≡ false
    → Chain (list_add_between new a (l.next a) l) a (new ∷ xs) b
unfolding list_add_between
cons-Chain l new a [] b c d out last ne = ground arith
cons-Chain l new a (x ∷ xs) b c d out last ne = (
  ground arith,
  ground arith,
  (ground arith, ground arith, Chain-frame x xs b (λ p i. ground arith) (λ p i. ground arith) c.2),
)

-- A node taken out of a chain.
drop-Chain :
    (l : Links) (a : ℕ) (xs : List ℕ) (e : ℕ) (ys : List ℕ) (b : ℕ)
    → Chain l a xs e
    → Chain l e ys b
    → Distinct (a ∷ xs ++ e ∷ ys)
    → b ∉ (xs ++ e ∷ ys)
    → Chain (list_del_between (l.prev e) (l.next e) l) a (xs ++ ys) b
unfolding list_del_between
drop-Chain l a [] e [] b c d dist last = ground arith
drop-Chain l a [] e (y ∷ ys) b c d dist last =
    (ground arith, ground arith, Chain-frame y ys b (λ p i. ground arith) (λ p i. ground arith) d.2)
drop-Chain l a (x ∷ xs) e ys b c d dist last =
    let before = prev-mem l x xs e c.2 in
    let after = next-mem l e ys b d in
    (
      ground (arith, has-append a xs (e ∷ ys)),
      ground (arith, has-append x xs (e ∷ ys)),
      drop-Chain l x xs e ys b c.2 d dist.1 (ground arith),
    )

module _ {l : Links} {h : ℕ} {xs : List ℕ} (r : IsRing l h xs) (new : ℕ)
    (out : new ∉ (h ∷ xs)) where
  -- `list_add` of a node that is not in the list, nor its head, makes the list with that node in
  -- front.
  pub list_add-cons : IsRing (list_add new h l) h (new ∷ xs)
  unfolding list_add
  list_add-cons = record {
    distinct = ground (arith, r.distinct);
    chain =
        cons-Chain l new h xs h r.chain r.distinct out (ground (arith, r.distinct)) (ground arith);
  }

  -- `list_add_tail` of a node that is not in the list, nor its head, makes the list with that node
  -- at the end.
  pub list_add_tail-snoc : IsRing (list_add_tail new h l) h (xs ++ new ∷ [])
  unfolding list_add_tail
  list_add_tail-snoc = record {
    distinct = Distinct-snoc (h ∷ xs) new r.distinct out;
    chain =
        snoc-Chain l new h xs h r.chain r.distinct out (ground (arith, r.distinct)) (ground arith);
  }

module _ {l : Links} {h : ℕ} (xs : List ℕ) (e : ℕ) (ys : List ℕ)
    (r : IsRing l h (xs ++ e ∷ ys)) where
  -- After `__list_del` around `e` the list is without it, and `e` is in no place of it.
  list_del_between-drop :
      IsRing (list_del_between (l.prev e) (l.next e) l) h (xs ++ ys) × (e ∉ (h ∷ xs ++ ys))
  list_del_between-drop =
      let parts = Chain-append l h xs e ys h r.chain in
      let rest = Distinct-drop (h ∷ xs) e ys r.distinct in
      (
        record {
          distinct = rest.0;
          chain = drop-Chain l h xs e ys h parts.0 parts.1 r.distinct r.distinct.0;
        },
        rest.1,
      )

  -- `list_del_init` of a node of a list leaves the list without that node, in the same order, and
  -- makes the node an empty list of its own.
  pub list_del_init-drop : IsRing (list_del_init e l) h (xs ++ ys) × IsRing (list_del_init e l) e []
  unfolding list_del_init init_list_head
  list_del_init-drop =
      let (rest, out) = list_del_between-drop in
      (
        record {
          distinct = rest.distinct;
          chain = Chain-frame h (xs ++ ys) h (λ p i. ground arith) (λ p i. ground arith) rest.chain;
        },
        record { distinct = (refl, tt); chain = ground arith },
      )

  -- `list_del` takes the node out and poisons its links.
  pub list_del-drop : IsRing (list_del e l) h (xs ++ ys)
  unfolding list_del
  list_del-drop =
      let (rest, out) = list_del_between-drop in
      record {
        distinct = rest.distinct;
        chain = Chain-frame h (xs ++ ys) h (λ p i. ground arith) (λ p i. ground arith) rest.chain;
      }

  -- `list_move` and `list_move_tail` to the head of the same list.
  pub list_move-cons : IsRing (list_move e h l) h (e ∷ xs ++ ys)
  unfolding list_move
  list_move-cons = let (rest, out) = list_del_between-drop in list_add-cons rest e out

  -- `list_move_tail` of a node of a list to the head of that list makes the list with the node at
  -- its end.
  pub list_move_tail-snoc : IsRing (list_move_tail e h l) h ((xs ++ ys) ++ e ∷ [])
  unfolding list_move_tail
  list_move_tail-snoc = let (rest, out) = list_del_between-drop in list_add_tail-snoc rest e out

-- Two lists share no node.
abbrev pub Apart : List ℕ → List ℕ → Type 0
Apart xs ys = (p : ℕ) → p ∈ xs → p ∉ ys

-- A list whose nodes an operation does not write stays as it is.
pub IsRing-frame :
    {l m : Links} {k : ℕ} {zs : List ℕ}
    → IsRing l k zs
    → ((p : ℕ) → p ∈ (k ∷ zs) → (m.next p ≡ l.next p) × (m.prev p ≡ l.prev p))
    → IsRing m k zs
IsRing-frame {k} {zs} r same = record {
  distinct = r.distinct;
  chain = Chain-frame k zs k (λ p i. (same p i).0) (λ p i. (same p i).1) r.chain;
}

module _ {l : Links} {h k : ℕ} {zs : List ℕ} (other : IsRing l k zs) where
  pub list_add-Apart :
      (xs : List ℕ) (new : ℕ)
      → IsRing l h xs
      → Apart (k ∷ zs) (h ∷ xs)
      → new ∉ (k ∷ zs)
      → IsRing (list_add new h l) k zs
  unfolding list_add list_add_between
  list_add-Apart xs new r apart out =
      let after = next-mem l h xs h r.chain in IsRing-frame other λ p i. ground (arith, apart p, i)

  pub list_add_tail-Apart :
      (xs : List ℕ) (new : ℕ)
      → IsRing l h xs
      → Apart (k ∷ zs) (h ∷ xs)
      → new ∉ (k ∷ zs)
      → IsRing (list_add_tail new h l) k zs
  unfolding list_add_tail list_add_between
  list_add_tail-Apart xs new r apart out =
      let before = prev-mem l h xs h r.chain in IsRing-frame other λ p i. ground (arith, apart p, i)

  -- `list_del_init` of a node of one list leaves any list that shares no node with it as it is.
  pub list_del_init-Apart :
      (xs : List ℕ) (e : ℕ) (ys : List ℕ)
      → IsRing l h (xs ++ e ∷ ys)
      → Apart (k ∷ zs) (h ∷ xs ++ e ∷ ys)
      → IsRing (list_del_init e l) k zs
  unfolding list_del_init list_del_between init_list_head
  list_del_init-Apart xs e ys r apart =
      let (left, right) = Chain-append l h xs e ys h r.chain in
      let before = prev-mem l h xs e left in
      let after = next-mem l e ys h right in
      IsRing-frame other λ p i. ground (
        arith,
        apart p,
        i,
        has-append p xs (e ∷ ys),
        has-append (l.prev e) xs (e ∷ ys),
        has-append (l.next e) xs (e ∷ ys),
      )
