-- ===== src/Slab/Alloc.antt =====
-- `slab_alloc`, `get_slab` and `kmalloc` of kernel/mm/slab.c.
use mini_operating_system.Prelude.{
  ℕ, zero, suc, ◌+◌, ◌/◌, ◌^◌, Bool, true, false, ◌||◌, Option, none, some, bit_and, bit_or, ltb,
  leb, ◌==◌, if◌then◌else◌, add32, sub32,
}
use mini_operating_system.ListHead.{list_add_tail, list_del, list_empty}
use mini_operating_system.Buddy.{page_of, get_pages, alloc_pages}
use mini_operating_system.Slab.{
  KmemCache, Slab, partial, full, kernel_entry, set_cache, on_links, append_page, set_slab_page,
  init_kmem_cpu, format_slabpage,
}

-- An object and the state, an endless loop for want of a page, or no fuel for the pages tried.
pub data Allocated : Type 0 where
  got : ℕ → Slab → Allocated
  spins : Allocated
  no_fuel : Allocated

-- From the label `normal`, with the object in page `pn`
unfoldable pub take_object : (i pn object : ℕ) → Slab → Slab
unfolding init_kmem_cpu append_page
take_object i pn object s =
    let c = s.caches i in
    let p = s.buddy.pages pn in
    let freeobj = s.mem (object + c.offset) in
    let nr_objs = add32 p.nr_objs 1 in
    let taken =
      set_slab_page pn (record p { freeobj = freeobj; nr_objs = nr_objs })
        (set_cache i (record c { cpu_freeobj = freeobj }) s) in
    if leb p.max_object nr_objs
    then set_cache i (init_kmem_cpu (taken.caches i)) (append_page pn (full i) taken)
    else taken

-- A new page where there is no partial one
unfoldable pub new_slab_page : (i : ℕ) → Slab → Allocated
unfolding get_pages format_slabpage take_object
new_slab_page i s =
    let (page, b) = get_pages 0 s.buddy in
    elim page [
      | none ↦ spins
      | some pn ↦
          let formatted = format_slabpage i pn (record s { buddy = b }) in
          let object = (formatted.buddy.pages pn).freeobj in
          got object (take_object i pn object formatted)
    ]

-- The first partial page becomes the page of the cache: its object and the state.
abbrev pub next_partial : (i : ℕ) → Slab → ℕ × Slab
unfolding list_del
next_partial i s =
    let c = s.caches i in
    let pn = page_of (s.buddy.links.next (partial i)) in
    let off = on_links (λ b. record b { links = list_del (b.links.next (partial i)) b.links }) s in
    let p = s.buddy.pages pn in
    let object = p.freeobj in
    let freeobj = s.mem (object + c.offset) in
    (
      object,
      set_slab_page pn (record p { freeobj = freeobj })
          (set_cache i (record c { cpu_page = some pn; cpu_freeobj = freeobj }) off),
    )

-- The page of the cache, full as it is, goes to the list of full pages.
abbrev pub retire : (i : ℕ) → Option ℕ → Slab → Slab
unfolding list_add_tail
retire i none s = s
retire i (some pn) s = append_page pn (full i) s

abbrev pub page_full : Option ℕ → Slab → Bool
page_full none s = false
page_full (some pn) s = let p = s.buddy.pages pn in leb p.max_object p.nr_objs

-- From the label `slalloc_check`. Each partial page tried takes fuel. An object without a page would
-- be a null dereference, and is `spins`.
unfoldable pub slab_check : (fuel i object : ℕ) → Slab → Allocated
unfolding list_empty new_slab_page take_object list_del list_add_tail
slab_check zero i object s = no_fuel
slab_check (suc fuel) i object s =
    let page = (s.caches i).cpu_page in
    let retired = retire i page s in
    elim (object == 0 || page_full page s) [
      | true ↦ elim (list_empty (partial i) retired.buddy.links) [
        | true ↦ new_slab_page i retired
        | false ↦ let (next, n) = next_partial i retired in slab_check fuel i next n
      ]
      | false ↦ elim page [ some pn ↦ got object (take_object i pn object s) | none ↦ spins ]
    ]

unfoldable pub slab_alloc : (fuel i : ℕ) → Slab → Allocated
unfolding slab_check
slab_alloc fuel i s =
    let c = s.caches i in
    let freeobj : ℕ = elim c.cpu_page [
      | some pn ↦ (s.buddy.pages pn).freeobj
      | none ↦ c.cpu_freeobj
    ] in
    slab_check fuel i freeobj (set_cache i (record c { cpu_freeobj = freeobj }) s)

unfoldable pub slab_loop : (rounds i size : ℕ) → (ℕ → KmemCache) → ℕ
slab_loop zero i size caches = 10
slab_loop (suc rounds) i size caches =
    let rest = slab_loop rounds (i + 1) size caches in
    if leb size (caches i).objsize then i else rest

unfoldable pub get_slab : (size : ℕ) → (ℕ → KmemCache) → ℕ
unfolding slab_loop
get_slab size caches = slab_loop 10 0 size caches

-- An object with the bit of the kernel segment set
abbrev pub in_kernel : Allocated → Allocated
in_kernel (got object s) = got (bit_or kernel_entry object) s
in_kernel spins = spins
in_kernel no_fuel = no_fuel

-- `size` above the largest object: whole pages
abbrev pub kmalloc_pages : (size : ℕ) → Slab → Allocated
unfolding alloc_pages
kmalloc_pages size s =
    let rounded = bit_and (add32 size 4095) 0xfffff000 in
    let (addr, b) = alloc_pages (sub32 (rounded / 2 ^ 12) 1) s.buddy in
    if addr == 0 then spins else got (bit_or kernel_entry addr) (record s { buddy = b })

unfoldable pub kmalloc : (fuel size : ℕ) → Slab → Allocated
unfolding get_slab slab_alloc kmalloc_pages
kmalloc fuel size s =
    let i = get_slab size s.caches in
    if size == 0
    then got 0 s
    else if ltb (s.caches 9).objsize size
    then kmalloc_pages size s
    else if leb 10 i
    then spins
    else in_kernel (slab_alloc fuel i s)
