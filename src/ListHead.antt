-- ===== src/ListHead.antt =====
-- include/zjunix/list.h: circular doubly linked lists through nodes embedded in other structures.
-- The address of a `struct list_head` is a number; a store maps each address to its two fields.
pub mod Ring
pub mod Laws
mod Tests
use mini_operating_system.Prelude.{ℕ, Bool, ◌==◌, update}

pub record Links : Type 0 where
  pub next : ℕ → ℕ
  pub prev : ℕ → ℕ

abbrev pub list_poison1 : ℕ
list_poison1 = 0x10101010

abbrev pub list_poison2 : ℕ
list_poison2 = 0x20202020

-- `p->next = v` and `p->prev = v`
abbrev pub set_next : ℕ → ℕ → Links → Links
set_next p v l = record l { next = update l.next p v }

abbrev pub set_prev : ℕ → ℕ → Links → Links
set_prev p v l = record l { prev = update l.prev p v }

unfoldable pub init_list_head : ℕ → Links → Links
init_list_head list l = set_next list list (set_prev list list l)

-- `__list_add`, the four writes in their order
unfoldable pub list_add_between : (new prev next : ℕ) → Links → Links
list_add_between new prev next l =
    set_prev next new (set_next prev new (set_prev new prev (set_next new next l)))

unfoldable pub list_add : (new head : ℕ) → Links → Links
unfolding list_add_between
list_add new head l = list_add_between new head (l.next head) l

unfoldable pub list_add_tail : (new head : ℕ) → Links → Links
unfolding list_add_between
list_add_tail new head l = list_add_between new (l.prev head) head l

-- `__list_del`
unfoldable pub list_del_between : (prev next : ℕ) → Links → Links
list_del_between prev next l = set_next prev next (set_prev next prev l)

unfoldable pub list_del : ℕ → Links → Links
unfolding list_del_between
list_del entry l =
    set_next entry list_poison2
      (set_prev entry list_poison1 (list_del_between (l.prev entry) (l.next entry) l))

unfoldable pub list_del_init : ℕ → Links → Links
unfolding list_del_between init_list_head
list_del_init entry l = init_list_head entry (list_del_between (l.prev entry) (l.next entry) l)

unfoldable pub list_move : (entry head : ℕ) → Links → Links
unfolding list_del_between list_add
list_move entry head l = list_add entry head (list_del_between (l.prev entry) (l.next entry) l)

unfoldable pub list_move_tail : (entry head : ℕ) → Links → Links
unfolding list_del_between list_add_tail
list_move_tail entry head l =
    list_add_tail entry head (list_del_between (l.prev entry) (l.next entry) l)

unfoldable pub list_empty : ℕ → Links → Bool
list_empty head l = l.next head == head
