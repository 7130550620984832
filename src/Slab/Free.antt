-- ===== src/Slab/Free.antt =====
-- `slab_free` and `kfree` of kernel/mm/slab.c.
use mini_operating_system.Prelude.{
  ℕ, ◌+◌, ◌-◌, ◌/◌, ◌^◌, Option, none, some, bit_and, bit_or, ◌==◌, if◌then◌else◌, update,
}
use mini_operating_system.ListHead.{list_add_tail, list_del_init, list_empty}
use mini_operating_system.Buddy.{node, give_pages, free_pages}
use mini_operating_system.Slab.{Slab, partial, kernel_entry, on_links, append_page, set_slab_page}

-- none is the endless loop behind the error message.
unfoldable pub slab_free : (i object temp : ℕ) → Slab → Option Slab
unfolding list_empty give_pages list_del_init list_add_tail
slab_free i object temp s =
    let pn = temp / 2 ^ 12 in
    let p = s.buddy.pages pn in
    let nr_objs = p.nr_objs - 1 in
    let linked = record s { mem = update s.mem (object + (s.caches i).offset) p.freeobj } in
    let freed = set_slab_page pn (record p { freeobj = object; nr_objs = nr_objs }) linked in
    if p.nr_objs == 0
    then none
    else if list_empty (node pn) s.buddy.links
    then some freed
    else if nr_objs == 0
    then some (on_links (give_pages pn 0) freed)
    else some (
        append_page pn (partial i)
          (on_links (λ b. record b { links = list_del_init (node pn) b.links }) freed))

unfoldable pub kfree : (obj : ℕ) → Slab → Option Slab
unfolding slab_free free_pages
kfree obj s =
    let temp = bit_and obj 0x7fffffff in
    let object = bit_or obj kernel_entry in
    let page = s.buddy.pages (temp / 2 ^ 12) in
    if page.reference == 1
    then slab_free page.virtual object temp s
    else some (on_links (free_pages (bit_and object 0xfffff000) page.bplevel) s)
