-- ===== src/Buddy/Tests.antt =====
-- kernel/lock/lock.c and kernel/mm/buddy.c at concrete inputs.
use mini_operating_system.ListHead.{Links, list_add}
use mini_operating_system.Buddy.{Page, Buddy, node, get_pages}
use mini_operating_system.Buddy.Alloc.{IsBuddy, Got, get_pages-Got}
use mini_operating_system.Buddy.Rings.{AreFree, put_first}
use mini_operating_system.Prelude.Bits.{pow_pos}
use mini_operating_system.Prelude.{
  Bool-cases, ==_iff, inl, inr, sym, ap, ◌∙◌, length, ℕ, some, List, [], ◌∷◌, ◌==◌, if◌then◌else◌,
  ◌≡◌, refl, arith,
}
use mini_operating_system.Lock.{Lock}

abbrev taken : Lock
taken = record { spin = 1; ie = 1 }

-- One free block of order 2, the pages 4 to 7, and nothing else.
abbrev no_links : Links
no_links = record { next = λ p. p; prev = λ p. p }

abbrev blank : Page
blank = record {
  flag = 0;
  reference = 0;
  virtual = 0;
  bplevel = 0;
  slabp = 0;
  end_ptr = 0;
  nr_objs = 0;
  max_object = 0;
  freeobj = 0;
}

abbrev one_block : Buddy
one_block = record {
  pages = λ p. blank;
  links = list_add (node 4) 2 no_links;
  count = λ k. if k == 2 then 1 else 0;
  buddy_start_pn = 0;
  buddy_end_pn = 16;
  lock = record { spin = 0; ie = 1 };
}

abbrev block_list : ℕ → List ℕ
block_list k = if k == 2 then node 4 ∷ [] else []

empty_lists : AreFree no_links (λ k. 0) (λ k. [])
empty_lists = record {
  rings = λ k h. record { distinct = (refl, tt); chain = (refl, refl) };
  apart = λ j k a b ne p i. ground arith;
  counts = λ k h. refl;
  bounded = λ k h. omega arith;
}

abbrev first_of : List ℕ → ℕ
first_of [] = 0
first_of (x ∷ _) = x

only_block : (o p : ℕ) (rest : List ℕ) → block_list o ≡ p ∷ rest → (o ≡ 2) × (p ≡ 36)
only_block o p rest e = elim (Bool-cases (o == 2)) [
  | inl f ↦
      let two : o ≡ 2 = (==_iff o 2).0 f in
      let same : block_list 2 ≡ p ∷ rest = ap block_list (sym two) ∙ e in
      (two, sym (ap first_of same))
  | inr f ↦
      let none_here : block_list o ≡ [] = rw f refl in
      absurd (omega (arith, ap length (sym none_here ∙ e)))
]

one_block-IsBuddy : IsBuddy one_block block_list
one_block-IsBuddy = record {
  free =
      put_first no_links (λ k. 0) (λ k. []) empty_lists 2 (omega arith) (node 4) refl
        (λ k h. ground arith);
  nodes = λ o p rest h e. omega (arith, (only_block o p rest e).1);
  halves = λ o p rest h e k l j m.
      let where_p = (only_block o p rest e).1 in ground (arith, where_p, pow_pos k);
}

-- A page is split off: page 4 is taken, page 5 and the block at page 6 become free.
split_off :
    ((get_pages 0 one_block).0 ≡ some 4)
    × ((get_pages 0 one_block).1.links.next 0 ≡ node 5)
    × ((get_pages 0 one_block).1.links.next 1 ≡ node 6)
unfolding get_pages
split_off = (refl, refl, refl)

get_pages-Got_example : Got 0 block_list (get_pages 0 one_block)
get_pages-Got_example = get_pages-Got 0 one_block block_list (omega arith) one_block-IsBuddy
