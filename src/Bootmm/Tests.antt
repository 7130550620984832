-- ===== src/Bootmm/Tests.antt =====
-- kernel/mm/bootmm.c at concrete inputs.
use mini_operating_system.Prelude.{
  ◌*◌, ℕ, ◌≡◌, refl, inl, inr, arith, some, none, ltb, if◌then◌else◌, Bool-cases,
}
use mini_operating_system.Bootmm.State.{page_free, page_used, page_size, Info, Bootmm}
use mini_operating_system.Bootmm.Table.{
  insert_mminfo, insert_loop, extend, extend_end, remove_mminfo, split_mminfo,
}
use mini_operating_system.Bootmm.Pages.{find_pages, find_loop, scan}
use mini_operating_system.Bootmm.Covers.{IsTable, CoversApart, Covers, remove_mminfo-CoversApart}
use mini_operating_system.Bootmm.Rewrite.{Inserted}
use mini_operating_system.Bootmm.Insert.{insert_mminfo-Inserted}
use mini_operating_system.Bootmm.Find.{IsMap, Found, find_pages-Found}
use mini_operating_system.Prelude.{◌↔◌}

abbrev two_segments : ℕ → Info
two_segments i =
    if ltb i 1
    then record { start_pn = 0; end_pn = 4095; type = 0 }
    else record { start_pn = 8192; end_pn = 12287; type = 0 }

-- The pages 0 and 2 of eight are in use.
abbrev small : Bootmm
small = record {
  phy_size = 32768;
  max_pn = 8;
  s_map = λ i.
      if ltb i 1
      then page_used
      else (if ltb i 2 then page_free else (if ltb i 3 then page_used else page_free));
  last_alloc = 2;
  count = 2;
  info = two_segments;
}

small-IsTable : IsTable small
small-IsTable = record {
  size = omega arith;
  segments = λ i h. elim (Bool-cases (ltb i 1)) [
    | inl e ↦ rw e (record { order = omega arith; bound = omega arith })
    | inr e ↦ rw e (record { order = omega arith; bound = omega arith })
  ];
}

small-IsMap : IsMap small.s_map
small-IsMap i = elim (Bool-cases (ltb i 1)) [
  | inl e ↦ rw e (inr refl)
  | inr e ↦ elim (Bool-cases (ltb i 2)) [
    | inl f ↦ rw (e, f) (inl refl)
    | inr f ↦ elim (Bool-cases (ltb i 3)) [
      | inl g ↦ rw (e, f, g) (inr refl)
      | inr g ↦ rw (e, f, g) (inl refl)
    ]
  ]
]

-- A segment that fits between the two joins them.
joined : ((insert_mminfo 4096 8191 0 small).0 ≡ 5) × ((insert_mminfo 4096 8191 0 small).1.count ≡ 1)
unfolding insert_mminfo insert_loop extend extend_end remove_mminfo
joined = (refl, refl)

-- The two free pages from 3 on are found, past the single one.
page_3 : (elim (find_pages 2 0 8 1 small) [ none ↦ 0 | some (a, _) ↦ a ]) ≡ 3 * page_size
unfolding find_pages find_loop scan
page_3 = refl

-- For an alignment of two pages the search, sent on by the used page 0, takes the odd page 1.
unaligned : (elim (find_pages 1 0 8 2 small) [ none ↦ 0 | some (a, _) ↦ a ]) ≡ 1 * page_size
unfolding find_pages find_loop scan
unaligned = refl

-- The first segment of the table is not split: the loop goes on for ever.
first_split :
    split_mminfo 0 4096
      (record small { info = λ _. record { start_pn = 0; end_pn = 12287; type = 0 } })
    ≡ none
unfolding split_mminfo
first_split = refl

find_pages-Found_example : Found small 2 0 8 (find_pages 2 0 8 1 small)
find_pages-Found_example = find_pages-Found 2 0 8 small small-IsMap (omega arith) (omega arith)

insert_mminfo-Inserted_example : Inserted 4096 8191 0 small (insert_mminfo 4096 8191 0 small)
insert_mminfo-Inserted_example =
    insert_mminfo-Inserted 4096 8191 0 (omega arith) (omega arith) small small-IsTable

remove_mminfo-CoversApart_example :
    Covers (remove_mminfo 0 small).1 0 9000 ↔ CoversApart 0 small 0 9000
remove_mminfo-CoversApart_example = remove_mminfo-CoversApart 0 small (omega arith) 0 9000
