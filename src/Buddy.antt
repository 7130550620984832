-- ===== src/Buddy.antt =====
-- kernel/mm/buddy.c and include/zjunix/buddy.h: blocks of 2^k pages, k up to 4, on one free list for
-- each k. A `struct page *` is the number of the page. The node of the list of order k is k, and the
-- node of page p is `node p`, behind those of all lists.
pub mod Init
mod Rings
mod Alloc
mod Tests
use mini_operating_system.Prelude.{
  ℕ, zero, suc, ◌+◌, ◌-◌, ◌*◌, ◌/◌, ◌%◌, ◌^◌, Bool, not, ◌&&◌, Option, none, some, bit_and, bit_xor,
  leb, ◌==◌, if◌then◌else◌, word, add32, sub32, update,
}
use mini_operating_system.Prelude.Bits.{bit_not}
use mini_operating_system.ListHead.{Links, init_list_head, list_add, list_del_init, list_empty}
use mini_operating_system.Lock.{Lock, init_lock, lockup, unlock}
use mini_operating_system.Bootmm.State.{Bootmm, Info}
use mini_operating_system.Bootmm.Alloc.{bootmm_alloc_pages}

abbrev pub max_buddy_order : ℕ
max_buddy_order = 4

-- `(-1)` in a field of a word
abbrev pub minus_1 : ℕ
minus_1 = word - 1

-- `struct page`, less its `list`, which stands in the store of links
pub record Page : Type 0 where
  pub flag : ℕ
  pub reference : ℕ
  pub virtual : ℕ
  pub bplevel : ℕ
  pub slabp : ℕ
  pub end_ptr : ℕ
  pub nr_objs : ℕ
  pub max_object : ℕ
  pub freeobj : ℕ

-- `count` is the field of that name of each free list.
pub record Buddy : Type 0 where
  pub pages : ℕ → Page
  pub links : Links
  pub count : ℕ → ℕ
  pub buddy_start_pn : ℕ
  pub buddy_end_pn : ℕ
  pub lock : Lock

-- Below stand the heads of the free lists, of the lists of the slab caches and of the lock.
abbrev pub first_node : ℕ
first_node = 32

abbrev pub lock_wait : ℕ
lock_wait = 31

abbrev pub node : ℕ → ℕ
node pn = first_node + pn

abbrev pub page_of : ℕ → ℕ
page_of a = a - first_node

abbrev pub set_page : ℕ → Page → Buddy → Buddy
set_page pn p s = record s { pages = update s.pages pn p }

abbrev pub set_bplevel : (pn level : ℕ) → Buddy → Buddy
set_bplevel pn level s = set_page pn (record (s.pages pn) { bplevel = level }) s

abbrev pub set_count : (level count : ℕ) → Buddy → Buddy
set_count level count s = record s { count = update s.count level count }

-- The block at `buddy` is taken off its list of free blocks.
abbrev pub take_buddy : (buddy level : ℕ) → Buddy → Buddy
unfolding list_del_init
take_buddy buddy level s = set_bplevel buddy minus_1 (
    set_count level (sub32 (s.count level) 1)
      (record s { links = list_del_init (node buddy) s.links }))

-- The loop of `__free_pages`, with `rounds` levels above `bplevel`: the level and page it ends with.
-- `page - page_id` stays as it is.
unfoldable pub merge : (rounds bplevel page page_id : ℕ) → Buddy → (ℕ × ℕ × Buddy)
merge zero bplevel page page_id s = (bplevel, page, s)
merge (suc rounds) bplevel page page_id s =
    let buddy_id = bit_xor page_id (2 ^ bplevel) in
    let buddy_page = page + buddy_id - page_id in
    let combined_id = bit_and buddy_id page_id in
    let b = s.pages buddy_page in
    let further =
      merge rounds (bplevel + 1) (page + combined_id - page_id) combined_id
        (take_buddy buddy_page bplevel s) in
    if b.bplevel == bplevel && not (b.flag == 1) then further else (bplevel, page, s)

-- `set_bplevel`, `list_add` and the count
abbrev pub put_block : (page level : ℕ) → Buddy → Buddy
unfolding list_add
put_block page level s =
    let levelled = set_bplevel page level s in
    set_count level (add32 (s.count level) 1)
      (record levelled { links = list_add (node page) level s.links })

-- `__free_pages`
unfoldable pub give_pages : (page bplevel : ℕ) → Buddy → Buddy
unfolding lockup unlock merge
give_pages page bplevel s =
    let idle = set_page page (record (s.pages page) { flag = 0; reference = 0 }) s in
    let locked = record idle { lock = (lockup s.lock).1 } in
    let (level, block, merged) =
      merge (max_buddy_order - bplevel) bplevel page (page - s.buddy_start_pn) locked in
    let n = put_block block level merged in record n { lock = (unlock n.lock).1 }

-- The inner loop of `__alloc_pages`: the upper half of the block goes to the list below, until the
-- block has `2 ^ bplevel` pages.
unfoldable pub split_block : (rounds bplevel page : ℕ) → Buddy → Buddy
unfolding list_add
split_block zero bplevel page s = s
split_block (suc rounds) bplevel page s =
    let order = bplevel + rounds in
    let buddy_page = page + 2 ^ order in
    let listed = record s {
      links = list_add (node buddy_page) order s.links;
      count = update s.count order (add32 (s.count order) 1);
    } in
    split_block rounds bplevel page (set_bplevel buddy_page order listed)

-- The body of the outer loop for a list that is not empty.
unfoldable pub take_block : (bplevel order : ℕ) → Buddy → ℕ × Buddy
unfolding list_del_init split_block
take_block bplevel order s =
    let page = page_of (s.links.next order) in
    let off = record s { links = list_del_init (node page) s.links } in
    let used = set_page page (record (s.pages page) { bplevel = bplevel; flag = 1 }) off in
    let counted = set_count order (sub32 (s.count order) 1) used in
    (page, split_block (order - bplevel) bplevel page counted)

unfoldable pub find_order : (rounds order : ℕ) → Links → Option ℕ
unfolding list_empty
find_order zero order l = none
find_order (suc rounds) order l =
    let rest = find_order rounds (suc order) l in if list_empty order l then rest else some order

-- `__alloc_pages`; none is the null pointer.
unfoldable pub get_pages : (bplevel : ℕ) → Buddy → Option ℕ × Buddy
unfolding lockup unlock find_order take_block
get_pages bplevel s =
    let locked = record s { lock = (lockup s.lock).1 } in
    elim (find_order (5 - bplevel) bplevel s.links) [
      | none ↦ (none, record locked { lock = (unlock locked.lock).1 })
      | some order ↦
          let (page, n) = take_block bplevel order locked in
          (some page, record n { lock = (unlock n.lock).1 })
    ]

-- The physical address of the first page, 0 for none.
unfoldable pub alloc_pages : (bplevel : ℕ) → Buddy → ℕ × Buddy
unfolding get_pages
alloc_pages bplevel s =
    let (page, n) = get_pages bplevel s in (elim page [ none ↦ 0 | some pn ↦ pn * 4096 % word ], n)

unfoldable pub free_pages : (addr bplevel : ℕ) → Buddy → Buddy
unfolding give_pages
free_pages addr bplevel s =
    let pn = bit_and addr 0x7fffffff / 4096 in
    let p = s.pages pn in if p.flag == 1 && p.bplevel == bplevel then give_pages pn bplevel s else s
