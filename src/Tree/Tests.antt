-- ===== src/Tree/Tests.antt =====
-- kernel/fs/tree/tree.c at concrete inputs: the root with the files a and b.
use mini_operating_system.Prelude.{ℕ, ◌≡◌, refl, some, List, [], ◌∷◌, ◌==◌, if◌then◌else◌, arith}
use mini_operating_system.Tree.{
  Tree, init_filetree, init_treenode, become_child, find_node, delete_node, Deleted, deleted,
  null_node, no_fuel,
}
use mini_operating_system.Tree.Search.{first_named, joined, find_node-first_named, AreRows}

abbrev junk : Tree
junk = record {
  nodes = λ p. record {
    name = λ i. 255;
    ctime = 0;
    cdate = 0;
    size = 0;
    child = 9;
    parent = 9;
    next = 9;
    before = 9;
  };
  root = 0;
  freed = [];
}

-- The name of one character
abbrev name_of : ℕ → ℕ → ℕ
name_of c i = if i == 0 then c else 0

abbrev files : Tree
unfolding init_filetree init_treenode become_child
files = become_child 1 2 (
    become_child 1 3
      (init_treenode 3 (name_of 98) (init_treenode 2 (name_of 97) (init_filetree 1 junk))))

abbrev names : ℕ → List ℕ
names n = if n == 1 then 47 ∷ [] else if n == 2 then 97 ∷ [] else 98 ∷ []

files_rows : AreRows files 1 ((1 ∷ []) ∷ (2 ∷ 3 ∷ []) ∷ [])
unfolding init_filetree init_treenode become_child
files_rows = (
  (λ e. omega (arith, e)),
  (refl, (λ e. omega (arith, e)), refl),
  (
    (λ e. omega (arith, e)),
    (refl, (λ e. omega (arith, e)), (refl, (λ e. omega (arith, e)), refl)),
    refl,
  ),
)

find_node-first_named_example :
    find_node 4 (name_of 98) files
    ≡ some (first_named names (98 ∷ []) (joined ((1 ∷ []) ∷ (2 ∷ 3 ∷ []) ∷ [])))
unfolding init_filetree init_treenode become_child
find_node-first_named_example =
    find_node-first_named files 4 names (name_of 98) (98 ∷ []) (refl, (λ e. omega (arith, e)), refl)
      ((1 ∷ []) ∷ (2 ∷ 3 ∷ []) ∷ []) files_rows
      (
        (refl, (λ e. omega (arith, e)), refl),
        omega arith,
        (
          (refl, (λ e. omega (arith, e)), refl),
          omega arith,
          ((refl, (λ e. omega (arith, e)), refl), omega arith, tt),
        ),
      )
      (omega arith, (omega arith, tt)) (omega arith)

b_found : find_node 4 (name_of 98) files ≡ some 3
unfolding find_node init_filetree init_treenode become_child
b_found = refl

child_after : Deleted → ℕ
child_after (deleted t) = (t.nodes 1).child
child_after null_node = 1000
child_after no_fuel = 1001

-- The removal of b takes a out of the tree as well.
a_lost : child_after (delete_node 4 (name_of 98) files) ≡ 0
unfolding child_after delete_node init_filetree init_treenode become_child
a_lost = refl
