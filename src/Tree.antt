-- ===== src/Tree.antt =====
-- kernel/fs/tree/tree.c: the tree of files as nodes in a store. A pointer is the number of its node, 0
-- for null. The node that `kmalloc` gives is an argument, and a call of `kfree` is a line in `freed`.
-- outputDir and print_tree print.
pub mod Match
pub mod Search
mod Tests
use mini_operating_system.Prelude.{
  ℕ, zero, suc, ◌+◌, Bool, true, false, ◌||◌, Option, none, some, List, [], ◌∷◌, ◌==◌, pos, eq_ℤ,
  from_char, if◌then◌else◌, update,
}

pub record FileTree : Type 0 where
  pub name : ℕ → ℕ
  pub ctime : ℕ
  pub cdate : ℕ
  pub size : ℕ
  pub child : ℕ
  pub parent : ℕ
  pub next : ℕ
  pub before : ℕ

pub record Tree : Type 0 where
  pub nodes : ℕ → FileTree
  pub root : ℕ
  pub freed : List ℕ

abbrev pub on_node : (p : ℕ) → (FileTree → FileTree) → Tree → Tree
on_node p f t = record t { nodes = update t.nodes p (f (t.nodes p)) }

abbrev pub put_child : (p q : ℕ) → Tree → Tree
put_child p q = on_node p (λ n. record n { child = q })

abbrev pub put_parent : (p q : ℕ) → Tree → Tree
put_parent p q = on_node p (λ n. record n { parent = q })

abbrev pub put_next : (p q : ℕ) → Tree → Tree
put_next p q = on_node p (λ n. record n { next = q })

abbrev pub put_before : (p q : ℕ) → Tree → Tree
put_before p q = on_node p (λ n. record n { before = q })

-- The characters of a name from `i` on are set to 0.
unfoldable pub clear_name : (rounds i : ℕ) → (ℕ → ℕ) → ℕ → ℕ
clear_name zero i f = f
clear_name (suc rounds) i f = clear_name rounds (i + 1) (update f i 0)

abbrev pub alone : FileTree → FileTree
unfolding clear_name
alone n = record n { name = clear_name 256 0 n.name; child = 0; parent = 0; next = 0; before = 0 }

unfoldable pub init_filetree : (new : ℕ) → Tree → Tree
unfolding alone
init_filetree new t =
    on_node new (λ n. let m = alone n in record m { name = update m.name 0 47 })
      (record t { root = new })

-- The body is done before the test, so the first character is taken even if it is the terminator.
unfoldable pub copy_name : (rounds i : ℕ) (from : ℕ → ℕ) → (ℕ → ℕ) → ℕ → ℕ
copy_name zero i from to = to
copy_name (suc rounds) i from to =
    let copied = update to i (from i) in
    let rest = copy_name rounds (i + 1) from copied in if from (i + 1) == 0 then copied else rest

unfoldable pub init_treenode : (new : ℕ) (name : ℕ → ℕ) → Tree → Tree
unfolding alone copy_name
init_treenode new name =
    on_node new (λ n. let m = alone n in record m { name = copy_name 256 0 name m.name })

unfoldable pub become_child : (t_parent t_child : ℕ) → Tree → Tree
become_child t_parent t_child t =
    let first = (t.nodes t_parent).child in
    if first == 0
    then put_parent t_child t_parent (put_child t_parent t_child t)
    else put_parent t_child t_parent
        (put_child t_parent t_child (put_before first t_child (put_next t_child first t)))

abbrev pub empty : (ft : ℕ) → Tree → Bool
empty ft t = (t.nodes ft).child == 0

-- `while (p->name[len]) ++len`; none is no fuel.
unfoldable pub name_len : (fuel len : ℕ) → (ℕ → ℕ) → Option ℕ
name_len zero len name = none
name_len (suc fuel) len name =
    let rest = name_len fuel (len + 1) name in if name len == 0 then some len else rest

-- The loop that stops at the first difference: whether there is none. `name` is unsigned, `param` is
-- not, and both are compared as `int`.
unfoldable pub same_chars : (rounds i : ℕ) (name param : ℕ → ℕ) → Bool
same_chars zero i name param = true
same_chars (suc rounds) i name param =
    let rest = same_chars rounds (i + 1) name param in
    if eq_ℤ (pos (name i)) (from_char (param i)) then rest else false

unfoldable pub matching : (fuel : ℕ) (name param : ℕ → ℕ) → Option Bool
unfolding name_len same_chars
matching fuel name param = elim (name_len fuel 0 name) [
  | none ↦ none
  | some len ↦ some (same_chars (len + 1) 0 name param)
]

module _ (fuel : ℕ) (param : ℕ → ℕ) (t : Tree) where
  -- `c` and the nodes behind it: the one that matches, 0 if there is none
  unfoldable pub find_in_row : (rounds c : ℕ) → Option ℕ
  unfolding matching
  find_in_row zero c = none
  find_in_row (suc rounds) c = elim (matching fuel (t.nodes c).name param) [
    | none ↦ none
    | some true ↦ some c
    | some false ↦ elim (t.nodes c).next [ zero ↦ some 0 | suc n ↦ find_in_row rounds (suc n) ]
  ]

  -- The row of `p`, then that of its child
  unfoldable pub find_below : (rounds p : ℕ) → Option ℕ
  unfolding find_in_row
  find_below zero p = none
  find_below (suc rounds) zero = some 0
  find_below (suc rounds) (suc p) = elim (find_in_row fuel (suc p)) [
    | none ↦ none
    | some zero ↦ find_below rounds (t.nodes (suc p)).child
    | some (suc c) ↦ some (suc c)
  ]

-- One fuel for the nodes of a row, for the rows, and for the characters of a name
unfoldable pub find_node : (fuel : ℕ) (param : ℕ → ℕ) → Tree → Option ℕ
unfolding find_below
find_node fuel param t = find_below fuel param t fuel t.root

-- The node that was found is null, whose name is printed, or there is no fuel.
pub data Deleted : Type 0 where
  deleted : Tree → Deleted
  null_node : Deleted
  no_fuel : Deleted

abbrev pub free_node : (p : ℕ) → Tree → Tree
free_node p t = record t { freed = p ∷ t.freed }

abbrev pub delete_orphan : (p : ℕ) → Tree → Tree
delete_orphan p t =
    let n = t.nodes p in
    if n.before == 0
    then free_node p t
    else free_node p (put_next p 0 (put_before p 0 (put_next n.before n.next t)))

abbrev pub delete_child : (p : ℕ) → Tree → Tree
delete_child p t =
    let n = t.nodes p in
    if n.next == 0
    then put_next p 0 (put_before p 0 (put_parent p 0 (put_child n.parent 0 t)))
    else put_before n.next 0
        (put_next p 0 (put_parent n.next n.parent (put_child n.parent n.next t)))

unfoldable pub delete_node : (fuel : ℕ) (param : ℕ → ℕ) → Tree → Deleted
unfolding find_node
delete_node fuel param t = elim (find_node fuel param t) [
  | none ↦ no_fuel
  | some zero ↦ null_node
  | some (suc p) ↦
      deleted
        (if (t.nodes (suc p)).parent == 0 then delete_orphan (suc p) t else delete_child (suc p) t)
]
