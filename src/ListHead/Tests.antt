-- ===== src/ListHead/Tests.antt =====
-- list.h at concrete inputs: the list 1, 2, 3 of the head 10, built by `list_add_tail`.
use mini_operating_system.Prelude.{refl, [], ◌∷◌, arith}
use mini_operating_system.ListHead.{Links, init_list_head, list_add_tail, list_del_init}
use mini_operating_system.ListHead.Ring.{IsRing}
use mini_operating_system.ListHead.Laws.{
  init_list_head-IsRing, list_add_tail-snoc, list_del_init-drop, list_del_init-Apart,
}

abbrev nowhere : Links
nowhere = record { next = λ p. 0; prev = λ p. 0 }

abbrev empty_list : Links
empty_list = init_list_head 10 (init_list_head 20 nowhere)

abbrev three : Links
three = list_add_tail 3 10 (list_add_tail 2 10 (list_add_tail 1 10 empty_list))

three-IsRing : IsRing three 10 (1 ∷ 2 ∷ 3 ∷ [])
three-IsRing =
    let none_yet = init_list_head-IsRing 10 (init_list_head 20 nowhere) in
    list_add_tail-snoc (list_add_tail-snoc (list_add_tail-snoc none_yet 1 refl) 2 refl) 3 refl

other-IsRing : IsRing three 20 []
unfolding list_add_tail init_list_head
other-IsRing = record { distinct = (refl, tt); chain = (refl, refl) }

list_add_tail-snoc_example : IsRing (list_add_tail 4 10 three) 10 (1 ∷ 2 ∷ 3 ∷ 4 ∷ [])
list_add_tail-snoc_example = list_add_tail-snoc three-IsRing 4 refl

list_del_init-drop_example :
    IsRing (list_del_init 2 three) 10 (1 ∷ 3 ∷ []) × IsRing (list_del_init 2 three) 2 []
list_del_init-drop_example = list_del_init-drop (1 ∷ []) 2 (3 ∷ []) three-IsRing

list_del_init-Apart_example : IsRing (list_del_init 2 three) 20 []
list_del_init-Apart_example =
    list_del_init-Apart other-IsRing (1 ∷ []) 2 (3 ∷ []) three-IsRing (λ p i. ground arith)
