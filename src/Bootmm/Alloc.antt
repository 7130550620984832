-- ===== src/Bootmm/Alloc.antt =====
-- kernel/mm/bootmm.c: the start state, and the allocation and release of pages.
use mini_operating_system.Prelude.{
  ℕ, zero, suc, ◌+◌, ◌-◌, ◌*◌, ◌/◌, Bool, ◌&&◌, Option, none, some, leb, ◌==◌, if◌then◌else◌, add32,
  sub32,
}
use mini_operating_system.Bootmm.State.{page_free, page_used, page_size, Info, Bootmm, round_down}
use mini_operating_system.Bootmm.Table.{set_mminfo, remove_mminfo, insert_mminfo, split_mminfo}
use mini_operating_system.Bootmm.Pages.{set_maps, find_pages}

-- What `init_bootmm` leaves, from what `bootmap` held before: 128 MB, of which the first 16 are the
-- kernel's.
unfoldable pub init_bootmm : (ℕ → ℕ) → Bootmm
unfolding set_maps insert_mminfo
init_bootmm bootmap =
    let none_yet : Info = record { start_pn = 0; end_pn = 0; type = 0 } in
    let cleared : Bootmm = record {
      phy_size = 128 * 1024 * 1024;
      max_pn = 32768;
      s_map = set_maps 4096 28672 page_free (set_maps 0 32768 page_used bootmap);
      last_alloc = 4095;
      count = 0;
      info = λ _. none_yet;
    } in
    (insert_mminfo 0 (16 * 1024 * 1024 - 1) 0 cleared).1

-- `find_pages` from `s_pn` to `e_pn`, and the entry in the table; 0 where either fails
unfoldable pub take_pages : (cnt size s_pn e_pn align_pn type : ℕ) → Bootmm → Option (ℕ × Bootmm)
take_pages cnt size s_pn e_pn align_pn type mm = elim (find_pages cnt s_pn e_pn align_pn mm) [
  | none ↦ none
  | some (res, found) ↦
      let (entered, n) = insert_mminfo res (sub32 (add32 res size) 1) type found in
      some (if res == 0 then (0, found) else (if entered == 0 then (0, n) else (res, n)))
]

unfoldable pub bootmm_alloc_pages : (size type align : ℕ) → Bootmm → Option (ℕ × Bootmm)
unfolding take_pages
bootmm_alloc_pages size type align mm =
    let bytes = round_down (add32 size (page_size - 1)) page_size in
    let cnt = bytes / page_size in
    let align_pn = align / page_size in
    elim (take_pages cnt bytes (add32 mm.last_alloc 1) mm.max_pn align_pn type mm) [
      | none ↦ none
      | some (zero, n) ↦ take_pages cnt bytes 0 n.last_alloc align_pn type n
      | some (suc res, n) ↦ some (suc res, n)
    ]

-- The segment `s` holds all of `size` bytes from `start` on.
abbrev pub holds_all : (start size : ℕ) → Info → Bool
holds_all start size s =
    leb start s.end_pn && leb s.start_pn start && leb (sub32 (add32 start size) 1) s.end_pn

unfoldable pub find_segment : (rounds index start size : ℕ) → (ℕ → Info) → ℕ
find_segment zero index start size info = index
find_segment (suc rounds) index start size info =
    let rest = find_segment rounds (suc index) start size info in
    if holds_all start size (info index) then index else rest

-- The value of `bootmm_free_pages`: on the last path the body has no `return`.
pub data Answer : Type 0 where
  value : ℕ → Answer
  unspecified : Answer

-- The middle of a segment: two splits and a removal.
unfoldable pub cut_middle : (index start size : ℕ) → Bootmm → Option Bootmm
unfolding split_mminfo remove_mminfo
cut_middle index start size mm = elim (split_mminfo index start mm) [
  | none ↦ none
  | some (_, m) ↦ elim (split_mminfo (index + 1) (add32 start size) m) [
    | none ↦ none
    | some (_, n) ↦ some (remove_mminfo (index + 1) n).1
  ]
]

unfoldable pub cut_segment : (index start size : ℕ) → Bootmm → Option Bootmm
unfolding remove_mminfo set_mminfo cut_middle
cut_segment index start size mm =
    let s = mm.info index in
    let last = sub32 (add32 start size) 1 in
    if s.start_pn == start
    then some (
        if s.end_pn == last
        then (remove_mminfo index mm).1
        else set_mminfo index (add32 start size) s.end_pn s.type mm)
    else if s.end_pn == last
    then some (set_mminfo index s.start_pn (sub32 start 1) s.type mm)
    else cut_middle index start size mm

unfoldable pub bootmm_free_pages : (start size : ℕ) → Bootmm → Option (Answer × Bootmm)
unfolding find_segment set_maps cut_segment
bootmm_free_pages start size mm =
    let bytes = round_down size page_size in
    let cnt = bytes / page_size in
    let from = round_down start page_size in
    let index = find_segment mm.count 0 from bytes mm.info in
    let freed = record mm { s_map = set_maps (from / page_size) cnt page_free mm.s_map } in
    if cnt == 0
    then some (value 1, mm)
    else if index == mm.count
    then some (value 0, mm)
    else elim (cut_segment index from bytes freed) [ none ↦ none | some n ↦ some (unspecified, n) ]
