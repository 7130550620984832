-- ===== src/Slab/Tests.antt =====
-- kernel/mm/slab.c at concrete inputs: page 1024 is given out and taken back.
use mini_operating_system.Prelude.{ℕ, ◌<◌, ◌≤◌, ◌≡◌, ◌⊎◌, refl, none, arith, if◌then◌else◌, ◌==◌}
use mini_operating_system.ListHead.{list_add}
use mini_operating_system.Buddy.{Page, Buddy, node}
use mini_operating_system.Slab.{Slab, init_slab, format_slabpage}
use mini_operating_system.Slab.Alloc.{Allocated, got, spins, no_fuel, get_slab, kmalloc}
use mini_operating_system.Slab.Format.{IsFormatted, format_slabpage-IsFormatted}
use mini_operating_system.Slab.Choice.{get_slab-init_slab}

abbrev blank : Page
blank = record {
  flag = 0;
  reference = 0;
  virtual = 0;
  bplevel = 0;
  slabp = 0;
  end_ptr = 0;
  nr_objs = 0;
  max_object = 0;
  freeobj = 0;
}

-- One free page, number 1024
abbrev one_page : Buddy
unfolding list_add
one_page = record {
  pages = λ p. blank;
  links = list_add (node 1024) 0 (record { next = λ p. p; prev = λ p. p });
  count = λ k. if k == 0 then 1 else 0;
  buddy_start_pn = 0;
  buddy_end_pn = 2048;
  lock = record { spin = 0; ie = 1 };
}

abbrev before : Slab
before = record {
  flag = 0;
  caches = λ i. record { size = 0; objsize = 0; offset = 0; cpu_page = none; cpu_freeobj = 0 };
  mem = λ a. 0;
  buddy = one_page;
}

abbrev ready : Slab
unfolding init_slab
ready = init_slab before

get_slab-init_slab_example :
    (get_slab 8 (init_slab before).caches < 10)
    × (8 ≤ ((init_slab before).caches (get_slab 8 (init_slab before).caches)).objsize)
    × ((get_slab 8 (init_slab before).caches ≡ 0)
        ⊎ (get_slab 8 (init_slab before).caches ≡ 1)
        ⊎ (7 ≤ get_slab 8 (init_slab before).caches))
get_slab-init_slab_example = get_slab-init_slab before 8 (omega arith)

-- Eight bytes come from the cache for 96, although there is one for 8.
eight_bytes : get_slab 8 (init_slab before).caches ≡ 0
unfolding init_slab get_slab
eight_bytes = refl

cache_96 : (ready.caches 0).size ≡ 100
unfolding ready init_slab
cache_96 = refl

format_slabpage-IsFormatted_example : IsFormatted 0 1024 ready (format_slabpage 0 1024 ready)
unfolding ready init_slab
format_slabpage-IsFormatted_example =
    format_slabpage-IsFormatted 0 1024 ready (omega arith) (omega arith) (omega arith) (omega arith)

abbrev object_of : Allocated → ℕ
object_of (got object s) = object
object_of spins = 1
object_of no_fuel = 2

abbrev state_of : Allocated → Slab
state_of (got object s) = s
state_of spins = before
state_of no_fuel = before

-- The first object of page 1024, then the second
first_object : object_of (kmalloc 1 8 ready) ≡ 0x80400000
unfolding ready init_slab kmalloc
first_object = refl
