-- ===== src/Bootmm/Pages.antt =====
-- The map of pages of kernel/mm/bootmm.c and the search for free ones.
use mini_operating_system.Prelude.{
  ℕ, zero, suc, ◌+◌, ◌*◌, ◌%◌, Option, none, some, leb, ◌==◌, if◌then◌else◌, word, add32, sub32,
  update,
}
use mini_operating_system.Bootmm.State.{page_free, page_used, page_size, Bootmm, round_down}

unfoldable pub set_maps : (s_pn cnt value : ℕ) → (ℕ → ℕ) → ℕ → ℕ
set_maps s_pn zero value map = map
set_maps s_pn (suc cnt) value map = set_maps (s_pn + 1) cnt value (update map s_pn value)

-- How the inner loop of `find_pages` ends: `return 0`, never, or with `cnt` and `tmp`.
pub data Scan : Type 0 where
  beyond : Scan
  spins : Scan
  ended : (cnt tmp : ℕ) → Scan

unfoldable pub scan : (cnt tmp e_pn : ℕ) → (ℕ → ℕ) → Scan
scan zero tmp e_pn map = ended 0 tmp
scan (suc cnt) tmp e_pn map =
    let rest =
      if map (tmp + 1) == page_used then ended cnt (tmp + 1) else scan cnt (tmp + 1) e_pn map in
    if leb e_pn tmp
    then beyond
    else if map tmp == page_free
    then rest
    else (if map tmp == page_used then ended (suc cnt) tmp else spins)

-- The page that the outer loop of `find_pages` has when it returns; `absent` is `return 0`, `runs`
-- that the loop goes on for more than `fuel` rounds.
pub data PageSearch : Type 0 where
  absent : PageSearch
  runs : PageSearch
  at_page : ℕ → PageSearch

unfoldable pub find_loop : (fuel index count e_pn align_pn : ℕ) → (ℕ → ℕ) → PageSearch
unfolding scan
find_loop zero index count e_pn align_pn map = runs
find_loop (suc fuel) index count e_pn align_pn map =
    let next = find_loop fuel (index + 1) count e_pn align_pn map in
    if leb e_pn index
    then absent
    else if map index == page_used
    then next
    else elim (scan count index e_pn map) [
      | beyond ↦ absent
      | spins ↦ runs
      | ended zero tmp ↦ at_page index
      | ended (suc cnt) tmp ↦ find_loop fuel (tmp + align_pn) count e_pn align_pn map
    ]

-- The address and the new state; none is an endless loop.
unfoldable pub find_pages : (count s_pn e_pn align_pn : ℕ) → Bootmm → Option (ℕ × Bootmm)
unfolding set_maps
find_pages count s_pn e_pn align_pn mm =
    let first = round_down (add32 s_pn (sub32 align_pn 1)) align_pn in
    elim (find_loop (suc e_pn) first count e_pn align_pn mm.s_map) [
      | absent ↦ some (0, mm)
      | runs ↦ none
      | at_page index ↦ some (
        index * page_size % word,
        record mm {
          last_alloc = sub32 (index + count) 1;
          s_map = set_maps index count page_used mm.s_map;
        },
      )
    ]
