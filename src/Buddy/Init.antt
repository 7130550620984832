-- ===== src/Buddy/Init.antt =====
-- The start of kernel/mm/buddy.c, on the pages that the boot allocator has not given out.
use mini_operating_system.Prelude.{
  ℕ, zero, suc, ◌+◌, ◌-◌, ◌*◌, ◌/◌, ◌%◌, ◌^◌, Option, none, some, bit_and, leb, if◌then◌else◌, word,
  update,
}
use mini_operating_system.Prelude.Bits.{bit_not}
use mini_operating_system.ListHead.{init_list_head}
use mini_operating_system.Lock.{init_lock}
use mini_operating_system.Bootmm.State.{Bootmm, Info}
use mini_operating_system.Bootmm.Alloc.{bootmm_alloc_pages}
use mini_operating_system.Buddy.{minus_1, Page, Buddy, node, lock_wait, give_pages}

unfoldable pub init_pages : (rounds i : ℕ) → Buddy → Buddy
unfolding init_list_head
init_pages zero i s = s
init_pages (suc rounds) i s =
    let blank : Page = record {
      flag = 0;
      reference = 0;
      virtual = minus_1;
      bplevel = minus_1;
      slabp = 0;
      end_ptr = 0;
      nr_objs = 0;
      max_object = 0;
      freeobj = 0;
    } in
    init_pages rounds (suc i)
      (record s { pages = update s.pages i blank; links = init_list_head (node i) s.links })

-- The greatest `end_pn` of the table, from `top` on.
unfoldable pub kernel_end : (rounds i top : ℕ) → (ℕ → Info) → ℕ
kernel_end zero i top info = top
kernel_end (suc rounds) i top info =
    kernel_end rounds (suc i) (if leb (info i).end_pn top then top else (info i).end_pn) info

unfoldable pub init_freelists : (rounds i : ℕ) → Buddy → Buddy
unfolding init_list_head
init_freelists zero i s = s
init_freelists (suc rounds) i s =
    init_freelists rounds (suc i)
      (record s { count = update s.count i 0; links = init_list_head i s.links })

unfoldable pub free_all : (rounds i : ℕ) → Buddy → Buddy
unfolding give_pages
free_all zero i s = s
free_all (suc rounds) i s = free_all rounds (suc i) (give_pages i 0 s)

-- The first page behind the last byte in use, rounded up to a block, and the last page, rounded down
abbrev pub start_pn : Bootmm → ℕ
unfolding kernel_end
start_pn mm = bit_and (kernel_end mm.count 0 0 mm.info / 4096 + 2 ^ 4 - 1) (bit_not 32 (2 ^ 4 - 1))

abbrev pub end_pn : Bootmm → ℕ
end_pn mm = bit_and mm.max_pn (bit_not 32 (2 ^ 4 - 1))

-- `sizeof(struct page)` is 44. From any state of the memory; none where no page can be had for the
-- array, or the search for it does not end.
unfoldable pub init_buddy : Bootmm → Buddy → Option (Bootmm × Buddy)
unfolding bootmm_alloc_pages init_pages init_freelists init_lock free_all
init_buddy bmm s = elim (bootmm_alloc_pages (44 * bmm.max_pn % word) 0 4096 bmm) [
  | none ↦ none
  | some (zero, mm) ↦ none
  | some (suc base, mm) ↦
      let blank = init_freelists 5 0 (init_pages mm.max_pn 0 s) in
      let (open_lock, links) = init_lock lock_wait (s.lock, blank.links) in
      let ready = record blank {
        links = links;
        lock = open_lock;
        buddy_start_pn = start_pn mm;
        buddy_end_pn = end_pn mm;
      } in
      some (mm, free_all (end_pn mm - start_pn mm) (start_pn mm) ready)
]
