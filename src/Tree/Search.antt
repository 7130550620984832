-- ===== src/Tree/Search.antt =====
-- `find_node` of kernel/fs/tree/tree.c: the rows that it goes through.
use mini_operating_system.Prelude.{
  ℕ, zero, suc, ◌<◌, ◌≤◌, ◌≡◌, ◌≢◌, refl, sym, ap, ◌∙◌, Bool, true, false, Option, none, some, List,
  [], ◌∷◌, ◌++◌, length, if◌then◌else◌, arith, inl, inr, Bool-cases,
}
use mini_operating_system.Utils.Text.{IsText}
use mini_operating_system.Tree.{Tree, find_in_row, find_below, find_node}
use mini_operating_system.Tree.Match.{same_ascii, matching-same_ascii}

module _ (names : ℕ → List ℕ) (key : List ℕ) where
  -- The first of the nodes that has the name, of characters below 128, 0 if none has it
  abbrev pub first_named : List ℕ → ℕ
  unfolding same_ascii
  first_named [] = 0
  first_named (c ∷ cs) = if same_ascii (names c) key then c else first_named cs

abbrev pub joined : List (List ℕ) → List ℕ
joined [] = []
joined (row ∷ rows) = row ++ joined rows

module _ (t : Tree) where
  -- The nodes are those from `c` on along `next`.
  abbrev pub IsRow : (c : ℕ) → List ℕ → Type 0
  IsRow c [] = c ≡ 0
  IsRow c (x ∷ xs) = (c ≡ x) × (c ≢ 0) × IsRow (t.nodes x).next xs

  -- The first row begins at `p`, and each other one at the child of the first node of the one above.
  abbrev pub AreRows : (p : ℕ) → List (List ℕ) → Type 0
  AreRows p [] = p ≡ 0
  AreRows p (row ∷ rows) = (p ≢ 0) × IsRow p row × AreRows (t.nodes p).child rows

  module _ (fuel : ℕ) (names : ℕ → List ℕ) where
    -- The names of the nodes, shorter than the fuel
    abbrev pub Named : List ℕ → Type 0
    Named [] = Unit {0}
    Named (c ∷ cs) = IsText (t.nodes c).name 0 (names c) × (length (names c) < fuel) × Named cs

    -- No row has more nodes than the fuel.
    abbrev pub Narrow : List (List ℕ) → Type 0
    Narrow [] = Unit {0}
    Narrow (row ∷ rows) = (length row ≤ fuel) × Narrow rows

    Named-left : (xs ys : List ℕ) → Named (xs ++ ys) → Named xs
    Named-left [] ys h = tt
    Named-left (x ∷ xs) ys h = (h.0, h.1, Named-left xs ys h.2)

    Named-right : (xs ys : List ℕ) → Named (xs ++ ys) → Named ys
    Named-right [] ys h = h
    Named-right (x ∷ xs) ys h = Named-right xs ys h.2

    module _ (param : ℕ → ℕ) (key : List ℕ) (is_key : IsText param 0 key) where
      -- What `find_in_row` does behind a node that does not match
      module _ (rounds : ℕ) where
        abbrev behind : ℕ → Option ℕ
        behind c = elim c [ zero ↦ some 0 | suc n ↦ find_in_row fuel param t rounds (suc n) ]

        module _
            (rest : (x : ℕ) (xs : List ℕ)
              → IsRow x (x ∷ xs)
              → Named (x ∷ xs)
              → length (x ∷ xs) ≤ rounds
              → find_in_row fuel param t rounds x ≡ some (first_named names key (x ∷ xs))) where
          behind-first_named :
              (c : ℕ) (xs : List ℕ)
              → IsRow c xs
              → Named xs
              → length xs ≤ rounds
              → behind c ≡ some (first_named names key xs)
          unfolding first_named
          behind-first_named c [] r n h = ap behind r
          behind-first_named zero (y ∷ ys) r n h = absurd (r.1 refl)
          behind-first_named (suc c) (y ∷ ys) r n h =
              ap (λ z. find_in_row fuel param t rounds z) r.0
              ∙ rest y ys (refl, (λ e. r.1 (r.0 ∙ e)), r.2) n h

      find_in_row_lem :
          (rounds x : ℕ) (xs : List ℕ)
          → IsRow x (x ∷ xs)
          → Named (x ∷ xs)
          → length (x ∷ xs) ≤ rounds
          → find_in_row fuel param t rounds x ≡ some (first_named names key (x ∷ xs))
      unfolding find_in_row first_named same_ascii
      find_in_row_lem zero x xs r n h = absurd (omega (arith, h))
      find_in_row_lem (suc rounds) x xs r n h =
          let same : Bool = same_ascii (names x) key in
          let found =
            matching-same_ascii fuel (t.nodes x).name param (names x) key n.0 is_key n.1 in
          let Answer : Option Bool → Option ℕ = (λ o. elim o [
            | none ↦ none
            | some true ↦ some x
            | some false ↦ behind rounds (t.nodes x).next
          ]) in
          ap Answer found ∙ elim (Bool-cases same) [
            | inl e ↦
                ap (λ b. Answer (some b)) e
                ∙ ap (λ b. some (if b then x else first_named names key xs)) (sym e)
            | inr e ↦
                ap (λ b. Answer (some b)) e
                ∙ behind-first_named rounds (find_in_row_lem rounds) (t.nodes x).next xs r.2 n.2
                    (omega (arith, h))
                ∙ ap (λ b. some (if b then x else first_named names key xs)) (sym e)
          ]

      or_else : (c other : ℕ) → ℕ
      or_else zero other = other
      or_else (suc c) other = suc c

      or_else-some : (c other : ℕ) → c ≢ 0 → or_else c other ≡ c
      unfolding or_else
      or_else-some zero other h = absurd (h refl)
      or_else-some (suc c) other h = refl

      first_named-append :
          (c : ℕ) (xs ys : List ℕ)
          → IsRow c xs
          → first_named names key (xs ++ ys)
            ≡ or_else (first_named names key xs) (first_named names key ys)
      unfolding first_named or_else
      first_named-append c [] ys r = refl
      first_named-append c (x ∷ xs) ys r = elim (Bool-cases (same_ascii (names x) key)) [
        | inl e ↦
            let some_node : x ≢ 0 = (λ z. r.1 (r.0 ∙ z)) in
            ap (λ b. if b then x else first_named names key (xs ++ ys)) e
            ∙ sym (or_else-some x (first_named names key ys) some_node)
            ∙ ap
                (λ b.
                  or_else (if b then x else first_named names key xs) (first_named names key ys))
                (sym e)
        | inr e ↦
            ap (λ b. if b then x else first_named names key (xs ++ ys)) e
            ∙ first_named-append (t.nodes x).next xs ys r.2
            ∙ ap
                (λ b.
                  or_else (if b then x else first_named names key xs) (first_named names key ys))
                (sym e)
      ]

      -- What `find_below` does with the node of the row
      abbrev below : (rounds p : ℕ) → Option ℕ → Option ℕ
      below rounds p o = elim o [
        | none ↦ none
        | some zero ↦ find_below fuel param t rounds (t.nodes p).child
        | some (suc c) ↦ some (suc c)
      ]

      below-or_else :
          (rounds p v other : ℕ)
          → find_below fuel param t rounds (t.nodes p).child ≡ some other
          → below rounds p (some v) ≡ some (or_else v other)
      unfolding or_else
      below-or_else rounds p zero other e = e
      below-or_else rounds p (suc c) other e = refl

      find_below-first_named :
          (rounds p : ℕ) (rows : List (List ℕ))
          → AreRows p rows
          → Named (joined rows)
          → Narrow rows
          → length rows < rounds
          → find_below fuel param t rounds p ≡ some (first_named names key (joined rows))
      unfolding find_below first_named
      find_below-first_named zero p rows r n w h = absurd (omega (arith, h))
      find_below-first_named (suc rounds) zero [] r n w h = refl
      find_below-first_named (suc rounds) zero (row ∷ rows) r n w h = absurd (r.0 refl)
      find_below-first_named (suc rounds) (suc p) [] r n w h = absurd (omega (arith, r))
      find_below-first_named (suc rounds) (suc p) ([] ∷ rows) r n w h = absurd (r.0 r.1)
      find_below-first_named (suc rounds) (suc p) ((x ∷ xs) ∷ rows) r n w h =
          let row : List ℕ = x ∷ xs in
          let in_row =
            find_in_row_lem fuel x xs (refl, (λ e. r.0 (r.1.0 ∙ e)), r.1.2)
              (Named-left row (joined rows) n) w.0 in
          let rest =
            find_below-first_named rounds (t.nodes (suc p)).child rows r.2
              (Named-right row (joined rows) n) w.1 (omega (arith, h)) in
          ap (below rounds (suc p)) (ap (find_in_row fuel param t fuel) r.1.0 ∙ in_row)
          ∙ below-or_else rounds (suc p) (first_named names key row)
              (first_named names key (joined rows)) rest
          ∙ ap some (sym (first_named-append (suc p) row (joined rows) r.1))

      -- In a tree whose rows, with the first at the root, end, with terminated names: with more fuel than
      -- there are rows, at least as much as the longest row has nodes, and more than a name has
      -- characters, `find_node` comes back with the first node of the rows, in their order, that has the
      -- name, all of whose characters are below 128, and with null if there is none: a name with a
      -- character from 128 on is not found. A row hangs below the first node of the one above only:
      -- what is below another node is not searched.
      pub find_node-first_named :
          (rows : List (List ℕ))
          → AreRows t.root rows
          → Named (joined rows)
          → Narrow rows
          → length rows < fuel
          → find_node fuel param t ≡ some (first_named names key (joined rows))
      unfolding find_node
      find_node-first_named rows = find_below-first_named fuel t.root rows
