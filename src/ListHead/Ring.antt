-- ===== src/ListHead/Ring.antt =====
-- What a list of list.h stands for: the nodes on the way from the head back to it.
use mini_operating_system.Prelude.{
  ℕ, ◌≡◌, refl, Bool, true, false, ◌||◌, List, [], ◌∷◌, ◌++◌, arith, ◌==◌,
}
use mini_operating_system.ListHead.{Links}

abbrev pub has : ℕ → List ℕ → Bool
has a [] = false
has a (x ∷ xs) = (a == x) || has a xs

infix 40 ◌∈◌ ◌∉◌
abbrev pub ◌∈◌ : ℕ → List ℕ → Type 0
a ∈ xs = has a xs ≡ true

abbrev pub ◌∉◌ : ℕ → List ℕ → Type 0
a ∉ xs = has a xs ≡ false

abbrev pub Distinct : List ℕ → Type 0
Distinct [] = Unit {0}
Distinct (x ∷ xs) = (x ∉ xs) × Distinct xs

-- From `a` the links lead through `xs` to `b`, and back.
abbrev pub Chain : Links → ℕ → List ℕ → ℕ → Type 0
Chain l a [] b = (l.next a ≡ b) × (l.prev b ≡ a)
Chain l a (x ∷ xs) b = (l.next a ≡ x) × (l.prev x ≡ a) × Chain l x xs b

-- `head` is the head of a list of the nodes `xs`, in order.
pub record IsRing (l : Links) (head : ℕ) (xs : List ℕ) : Type 0 where
  pub distinct : Distinct (head ∷ xs)
  pub chain : Chain l head xs head

pub has-append : (a : ℕ) (xs ys : List ℕ) → has a (xs ++ ys) ≡ (has a xs || has a ys)
has-append a [] ys = refl
has-append a (x ∷ xs) ys = ground (arith, has-append a xs ys)

-- A chain depends on the `next` of its sources and the `prev` of its targets.
pub Chain-frame :
    {l m : Links} (a : ℕ) (xs : List ℕ) (b : ℕ)
    → ((p : ℕ) → p ∈ (a ∷ xs) → m.next p ≡ l.next p)
    → ((p : ℕ) → p ∈ (b ∷ xs) → m.prev p ≡ l.prev p)
    → Chain l a xs b
    → Chain m a xs b
Chain-frame a [] b hn hp c = ground (arith, hn a, hp b)
Chain-frame a (x ∷ xs) b hn hp c = (
  ground (arith, hn a),
  ground (arith, hp x),
  Chain-frame x xs b (λ p i. hn p (ground arith)) (λ p i. hp p (ground arith)) c.2,
)

pub Chain-append :
    (l : Links) (a : ℕ) (xs : List ℕ) (e : ℕ) (ys : List ℕ) (b : ℕ)
    → Chain l a (xs ++ e ∷ ys) b
    → Chain l a xs e × Chain l e ys b
Chain-append l a [] e ys b c = ((c.0, c.1), c.2)
Chain-append l a (x ∷ xs) e ys b c =
    let ih = Chain-append l x xs e ys b c.2 in ((c.0, c.1, ih.0), ih.1)

pub append-Chain :
    (l : Links) (a : ℕ) (xs : List ℕ) (e : ℕ) (ys : List ℕ) (b : ℕ)
    → Chain l a xs e
    → Chain l e ys b
    → Chain l a (xs ++ e ∷ ys) b
append-Chain l a [] e ys b c d = (c.0, c.1, d)
append-Chain l a (x ∷ xs) e ys b c d = (c.0, c.1, append-Chain l x xs e ys b c.2 d)

-- The node before the end, and the node after the start.
pub prev-mem : (l : Links) (a : ℕ) (xs : List ℕ) (b : ℕ) → Chain l a xs b → l.prev b ∈ (a ∷ xs)
prev-mem l a [] b c = ground arith
prev-mem l a (x ∷ xs) b c = ground (arith, prev-mem l x xs b c.2)

pub next-mem : (l : Links) (a : ℕ) (xs : List ℕ) (b : ℕ) → Chain l a xs b → l.next a ∈ (b ∷ xs)
next-mem l a [] b c = ground arith
next-mem l a (x ∷ xs) b c = ground arith

pub Distinct-drop :
    (xs : List ℕ) (e : ℕ) (ys : List ℕ)
    → Distinct (xs ++ e ∷ ys)
    → Distinct (xs ++ ys) × (e ∉ (xs ++ ys))
Distinct-drop [] e ys d = (d.1, d.0)
Distinct-drop (x ∷ xs) e ys d =
    let ih = Distinct-drop xs e ys d.1 in
    (
      (ground (arith, has-append x xs (e ∷ ys), has-append x xs ys), ih.0),
      ground (arith, ih.1, has-append x xs (e ∷ ys)),
    )

pub Distinct-snoc : (xs : List ℕ) (e : ℕ) → Distinct xs → e ∉ xs → Distinct (xs ++ e ∷ [])
Distinct-snoc [] e d out = (refl, tt)
Distinct-snoc (x ∷ xs) e d out =
    (ground (arith, has-append x xs (e ∷ [])), Distinct-snoc xs e d.1 (ground arith))
