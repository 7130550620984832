-- ===== src/Bootmm/Table.antt =====
-- The table of segments of kernel/mm/bootmm.c.
use mini_operating_system.Prelude.{
  ℕ, zero, suc, ◌+◌, ◌-◌, ◌||◌, Option, none, some, ltb, leb, ◌==◌, if◌then◌else◌, sub32, update,
}
use mini_operating_system.Bootmm.State.{max_info, page_size, Info, Bootmm, round_down}

unfoldable pub set_mminfo : (index start end type : ℕ) → Bootmm → Bootmm
set_mminfo index start end type mm = record mm {
  info = update mm.info index (record { start_pn = start; end_pn = end; type = type });
}

-- `mm->info[index].end_pn = v` and `mm->info[index].start_pn = v`
abbrev pub set_end : ℕ → ℕ → Bootmm → Bootmm
set_end index v mm = record mm {
  info = update mm.info index (record (mm.info index) { end_pn = v });
}

abbrev pub set_start : ℕ → ℕ → Bootmm → Bootmm
set_start index v mm = record mm {
  info = update mm.info index (record (mm.info index) { start_pn = v });
}

-- The loop of `remove_mminfo` from `i` on, with `rounds` rounds left.
unfoldable pub shift_down : (rounds i : ℕ) → (ℕ → Info) → ℕ → Info
shift_down zero i info = info
shift_down (suc rounds) i info = shift_down rounds (suc i) (update info (i - 1) (info i))

unfoldable pub remove_mminfo : ℕ → Bootmm → ℕ × Bootmm
remove_mminfo index mm = if leb mm.count index then (0, mm) else (
  1,
  record mm {
    info = shift_down (mm.count - (index + 1)) (index + 1) mm.info;
    count = mm.count - 1;
  },
)

-- The end of `insert_mminfo`, when no segment could be extended.
unfoldable pub insert_last : (start end type : ℕ) → Bootmm → ℕ × Bootmm
unfolding set_mminfo
insert_last start end type mm =
    if leb max_info mm.count
    then (0, mm)
    else (1, record (set_mminfo mm.count start end type mm) { count = mm.count + 1 })

-- The first test of the loop cut segment `i`: `some` with the value returned, or none to go on with
-- the second test.
unfoldable pub extend_end : (i start end type : ℕ) → Bootmm → Option (ℕ × Bootmm)
unfolding remove_mminfo
extend_end i start end type mm =
    let after = mm.info (i + 1) in
    if (mm.info i).end_pn == sub32 start 1
    then (if ltb (i + 1) mm.count
        then (if after.type == type
            then (if sub32 after.start_pn 1 == end
                then some (5, (remove_mminfo (i + 1) (set_end i after.end_pn mm)).1)
                else none)
            else some (2, set_end i end mm))
        else some (4, set_end i end mm))
    else none

-- The whole body cut segment `i`; none is the next round. In the first test the segment after `i`
-- exists, so that `remove_mminfo` returns 1.
unfoldable pub extend : (i start end type : ℕ) → Bootmm → Option (ℕ × Bootmm)
extend i start end type mm =
    if (mm.info i).type == type
    then elim (extend_end i start end type mm) [
      | some r ↦ some r
      | none ↦ if sub32 (mm.info i).start_pn 1 == end then some (3, set_start i start mm) else none
    ]
    else none

unfoldable pub insert_loop : (rounds i start end type : ℕ) → Bootmm → ℕ × Bootmm
unfolding insert_last
insert_loop zero i start end type mm = insert_last start end type mm
insert_loop (suc rounds) i start end type mm = elim (extend i start end type mm) [
  | some r ↦ r
  | none ↦ insert_loop rounds (suc i) start end type mm
]

unfoldable pub insert_mminfo : (start end type : ℕ) → Bootmm → ℕ × Bootmm
insert_mminfo start end type mm = insert_loop mm.count 0 start end type mm

-- The loop of `split_mminfo` from `tmp` down.
unfoldable pub shift_up : (rounds tmp : ℕ) → (ℕ → Info) → ℕ → Info
shift_up zero tmp info = info
shift_up (suc rounds) tmp info = shift_up rounds (tmp - 1) (update info (tmp + 1) (info tmp))

-- For the index 0 the test `tmp >= index` never fails: none.
unfoldable pub split_mminfo : (index split_start : ℕ) → Bootmm → Option (ℕ × Bootmm)
unfolding shift_up
split_mminfo index split_start mm =
    let here = mm.info index in
    let cut = round_down split_start page_size in
    let last = sub32 mm.count 1 in
    let moved = record mm { info = shift_up (suc last - index) last mm.info } in
    if leb cut here.start_pn || leb here.end_pn cut || (mm.count == max_info)
    then some (0, mm)
    else if index == 0
    then none
    else some (
      1,
      record (set_start (index + 1) cut (set_end index (sub32 cut 1) moved)) {
        count = mm.count + 1;
      },
    )
