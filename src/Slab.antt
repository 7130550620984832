-- ===== src/Slab.antt =====
-- kernel/mm/slab.c: objects of ten sizes in pages of the buddy system. A `struct page *` is the number
-- of the page, none for null; `virtual` of a page has the number of its cache. `mem` is the word at an
-- address. What `flag` governs is printed and nothing else.
pub mod Alloc
pub mod Free
pub mod Format
pub mod Choice
mod Tests
use mini_operating_system.Prelude.{
  ℕ, zero, suc, ◌+◌, ◌-◌, ◌*◌, ◌/◌, ◌%◌, ◌^◌, Bool, true, false, not, ◌||◌, Option, none, some,
  List, [], ◌∷◌, get_or, bit_and, bit_or, ltb, leb, ◌==◌, if◌then◌else◌, word, add32, sub32, update,
}
use mini_operating_system.ListHead.{
  init_list_head, list_add_tail, list_del, list_del_init, list_empty,
}
use mini_operating_system.Buddy.{
  Page, Buddy, node, page_of, set_page, give_pages, get_pages, alloc_pages, free_pages,
}

-- `struct kmem_cache` with its `cpu`; the heads of its `node` are in the store of links.
pub record KmemCache : Type 0 where
  pub size : ℕ
  pub objsize : ℕ
  pub offset : ℕ
  pub cpu_page : Option ℕ
  pub cpu_freeobj : ℕ

pub record Slab : Type 0 where
  pub flag : ℕ
  pub caches : ℕ → KmemCache
  pub mem : ℕ → ℕ
  pub buddy : Buddy

abbrev pub size_int : ℕ
size_int = 4

abbrev pub size_kmem_cache : List ℕ
size_kmem_cache = 96 ∷ 192 ∷ 8 ∷ 16 ∷ 32 ∷ 64 ∷ 128 ∷ 256 ∷ 512 ∷ 1024 ∷ []

-- The heads `node.partial` and `node.full` of cache `i`, behind those of the free lists
abbrev pub partial : ℕ → ℕ
partial i = 5 + 2 * i

abbrev pub full : ℕ → ℕ
full i = 6 + 2 * i

abbrev pub kernel_entry : ℕ
kernel_entry = 0x80000000

-- `KMEM_ADDR(page, pages)`
abbrev pub kmem_addr : (pn : ℕ) → ℕ
kmem_addr pn = bit_or (pn * 2 ^ 12 % word) kernel_entry

abbrev pub set_cache : (i : ℕ) → KmemCache → Slab → Slab
set_cache i c s = record s { caches = update s.caches i c }

abbrev pub on_links : (Buddy → Buddy) → Slab → Slab
on_links f s = record s { buddy = f s.buddy }

-- The node of a page, added at the end of a list
abbrev pub append_page : (pn head : ℕ) → Slab → Slab
unfolding list_add_tail
append_page pn head = on_links (λ b. record b { links = list_add_tail (node pn) head b.links })

abbrev pub set_slab_page : (pn : ℕ) → Page → Slab → Slab
set_slab_page pn p = on_links (set_page pn p)

unfoldable pub init_kmem_cpu : KmemCache → KmemCache
init_kmem_cpu c = record c { cpu_page = none; cpu_freeobj = 0 }

unfoldable pub init_kmem_node : (i : ℕ) → Slab → Slab
unfolding init_list_head
init_kmem_node i =
    on_links
      (λ b. record b { links = init_list_head (partial i) (init_list_head (full i) b.links) })

-- `(size + (SIZE_INT - 1)) & ~(SIZE_INT - 1)`
abbrev pub round_up : ℕ → ℕ
round_up size = bit_and (add32 size 3) 0xfffffffc

unfoldable pub init_each_slab : (i size : ℕ) → Slab → Slab
unfolding init_kmem_cpu init_kmem_node
init_each_slab i size s =
    let objsize = round_up size in
    let c = init_kmem_cpu (record (s.caches i) {
      objsize = objsize;
      size = add32 objsize size_int;
      offset = objsize;
    }) in
    init_kmem_node i (set_cache i c s)

unfoldable pub init_loop : (sizes : List ℕ) (i : ℕ) → Slab → Slab
unfolding init_each_slab
init_loop [] i s = s
init_loop (size ∷ sizes) i s = init_loop sizes (i + 1) (init_each_slab i size s)

unfoldable pub init_slab : Slab → Slab
unfolding init_loop
init_slab = init_loop size_kmem_cache 0

unfoldable pub changeflag : ℕ → Slab → Slab
changeflag flag s = record s { flag = flag }

-- The loop that links the objects, from `kernel_offset` on: the last `ptr`, the `kernel_offset` and
-- `max_object` behind the loop, and the memory.
unfoldable pub link_objects :
    (fuel : ℕ)
    → KmemCache
    → (kernel_offset remaining max_object : ℕ) → (ℕ → ℕ)
    → ℕ × ℕ × ℕ × (ℕ → ℕ)
link_objects zero c kernel_offset remaining max_object mem =
    (kernel_offset, kernel_offset, max_object, mem)
link_objects (suc fuel) c kernel_offset remaining max_object mem =
    let ptr = kernel_offset + c.offset in
    let next = add32 kernel_offset c.size in
    let linked = update mem ptr next in
    let left = sub32 remaining c.size in
    let rest = link_objects fuel c next left (max_object + 1) linked in
    if leb c.size left then rest else (ptr, next, max_object + 1, linked)

-- A page has no more objects than bytes.
abbrev pub object_fuel : ℕ
object_fuel = 4096

-- What `format_slabpage` does behind the loop
unfoldable pub close_page : (i pn base : ℕ) → ℕ × ℕ × ℕ × (ℕ → ℕ) → Slab → Slab
close_page i pn base (ptr, kernel_offset, max_object, mem) s =
    let c = s.caches i in
    let page = record (s.buddy.pages pn) {
      reference = 1;
      nr_objs = 0;
      end_ptr = sub32 ptr (4 * c.offset);
      virtual = i;
      max_object = max_object;
      freeobj = base;
    } in
    set_slab_page pn page (
      set_cache i (record c { cpu_page = some pn; cpu_freeobj = base })
        (record s { mem = update mem ptr (bit_and kernel_offset 0xfffff000) }))

unfoldable pub format_slabpage : (i pn : ℕ) → Slab → Slab
unfolding close_page
format_slabpage i pn s =
    let base = kmem_addr pn in
    close_page i pn base (link_objects object_fuel (s.caches i) base 4096 0 s.mem) s
