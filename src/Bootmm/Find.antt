-- ===== src/Bootmm/Find.antt =====
-- The search for free pages of kernel/mm/bootmm.c, for requests that need no alignment.
use mini_operating_system.Prelude.{
  ℕ, zero, suc, ◌+◌, ◌*◌, ◌%◌, ◌≤◌, ◌<◌, ◌≡◌, ◌⊎◌, inl, inr, Option, none, some, arith, leb, ◌==◌,
  if◌then◌else◌, word, add32, sub32, update, Bool-cases, ==_iff, ltb, ltb→lt, refl,
}
use mini_operating_system.Bootmm.State.{page_free, page_used, page_size, Bootmm, round_down}
use mini_operating_system.Bootmm.Pages.{
  set_maps, Scan, beyond, spins, ended, scan, PageSearch, absent, runs, at_page, find_loop,
  find_pages,
}
use mini_operating_system.Prelude.Masks.{mask_all}
use mini_operating_system.Utils.Memory.{within}

pub set_maps_lem :
    (s cnt v : ℕ) (map : ℕ → ℕ) (a : ℕ)
    → set_maps s cnt v map a ≡ (if within s cnt a then v else map a)
unfolding set_maps
set_maps_lem s zero v map a = ground arith
set_maps_lem s (suc cnt) v map a = ground (arith, set_maps_lem (s + 1) cnt v (update map s v) a)

-- Each byte of the map is one of the two values.
abbrev pub IsMap : (ℕ → ℕ) → Type 0
IsMap map = (i : ℕ) → (map i ≡ page_free) ⊎ (map i ≡ page_used)

abbrev pub AllFree : (ℕ → ℕ) → (start count : ℕ) → Type 0
AllFree map start count = (a : ℕ) → start ≤ a → a < start + count → map a ≡ page_free

-- No run of `count` free pages within the bound `hi` begins from `lo` up to `top`.
abbrev pub NoRun : (ℕ → ℕ) → (count lo top hi : ℕ) → Type 0
NoRun map count lo top hi = (i : ℕ) → lo ≤ i → i < top → i + count ≤ hi → ¬ AllFree map i count

data Scanned (map : ℕ → ℕ) (cnt tmp hi : ℕ) : Scan → Type 0 where
  too_far : hi < tmp + cnt → Scanned map cnt tmp hi beyond
  run : (t : ℕ) → tmp + cnt ≤ hi → AllFree map tmp cnt → Scanned map cnt tmp hi (ended 0 t)
  blocked :
      (c t : ℕ)
      → tmp ≤ t
      → t < tmp + cnt
      → map t ≡ page_used
      → Scanned map cnt tmp hi (ended (suc c) t)

-- `n` is `mm` with the pages from `i` on taken.
pub record Taken (mm : Bootmm) (i count : ℕ) (n : Bootmm) : Type 0 where
  pub pages : (a : ℕ) → n.s_map a ≡ (if within i count a then page_used else mm.s_map a)
  pub last : n.last_alloc ≡ sub32 (i + count) 1
  pub table : (n.count ≡ mm.count) × (n.info ≡ mm.info) × (n.max_pn ≡ mm.max_pn)

pub data Found (mm : Bootmm) (count lo hi : ℕ) : Option (ℕ × Bootmm) → Type 0 where
  failed : NoRun mm.s_map count lo hi hi → Found mm count lo hi (some (0, mm))
  found :
      (i : ℕ) (n : Bootmm)
      → lo ≤ i
      → i + count ≤ hi
      → AllFree mm.s_map i count
      → NoRun mm.s_map count lo i hi
      → Taken mm i count n
      → Found mm count lo hi (some (i * page_size % word, n))

module _ {map : ℕ → ℕ} (v : IsMap map) where
  free-AllFree :
      (cnt tmp : ℕ) → map tmp ≡ page_free → AllFree map (tmp + 1) cnt → AllFree map tmp (suc cnt)
  free-AllFree cnt tmp f later a p q = elim (Bool-cases (a == tmp)) [
    | inl e ↦ rw ((==_iff a tmp).0 e) f
    | inr e ↦ later a (ground arith) (omega arith)
  ]

  longer :
      {cnt tmp hi : ℕ} {r : Scan}
      → map tmp ≡ page_free
      → Scanned map cnt (tmp + 1) hi r
      → Scanned map (suc cnt) tmp hi r
  longer f (too_far h) = too_far (omega arith)
  longer {cnt = cnt} {tmp = tmp} f (run t h all) = run t (omega arith) (free-AllFree cnt tmp f all)
  longer f (blocked c t p q u) = blocked c t (omega arith) (omega arith) u

  stopped :
      (cnt tmp hi : ℕ)
      → tmp < hi
      → map tmp ≡ page_free
      → map (tmp + 1) ≡ page_used
      → Scanned map (suc cnt) tmp hi (ended cnt (tmp + 1))
  stopped zero tmp hi h f g =
      run (tmp + 1) (omega arith) (free-AllFree zero tmp f (λ a p q. absurd (omega arith)))
  stopped (suc cnt) tmp hi h f g = blocked cnt (tmp + 1) (omega arith) (omega arith) g

  scan-Scanned : (cnt tmp hi : ℕ) → tmp ≤ hi → Scanned map cnt tmp hi (scan cnt tmp hi map)
  unfolding scan
  scan-Scanned zero tmp hi h = run tmp (omega arith) (λ a p q. absurd (omega arith))
  scan-Scanned (suc cnt) tmp hi h = elim (Bool-cases (leb hi tmp)) [
    | inl e ↦ rw e (too_far (ground arith))
    | inr e ↦ elim (v tmp) [
      | inr u ↦ rw (e, u) (blocked cnt tmp (omega arith) (omega arith) u)
      | inl f ↦ elim (Bool-cases (map (tmp + 1) == page_used)) [
        | inr g ↦ rw (e, f, g) (longer f (scan-Scanned cnt (tmp + 1) hi (ground arith)))
        | inl g ↦ rw (e, f, g) (stopped cnt tmp hi (ground arith) f ((==_iff _ _).0 g))
      ]
    ]
  ]

  -- What the search from `lo` finds: the first run, or none where there is no run.
  data Searched (count lo hi : ℕ) : PageSearch → Type 0 where
    nowhere : NoRun map count lo hi hi → Searched count lo hi absent
    first :
        (i : ℕ)
        → lo ≤ i
        → i + count ≤ hi
        → AllFree map i count
        → NoRun map count lo i hi
        → Searched count lo hi (at_page i)

  module _ (count lo hi index : ℕ) (none_yet : NoRun map count lo index hi) where
    -- A used page at `t` rules out every run from `index` up to it.
    passed : (t : ℕ) → t < index + count → map t ≡ page_used → NoRun map count lo (t + 1) hi
    passed t near u i from below fits all = elim (Bool-cases (ltb i index)) [
      | inl e ↦ none_yet i from (ltb→lt i index e) fits all
      | inr e ↦
          let free : map t ≡ page_free = all t (omega arith) (ground arith) in
          omega (arith, free, u)
    ]

    after_scan :
        (later : ℕ → PageSearch) (r : Scan)
        → index < hi
        → lo ≤ index
        → Scanned map count index hi r
        → ((j : ℕ) → index < j → NoRun map count lo j hi → Searched count lo hi (later j))
        → Searched count lo hi (elim r [
          | beyond ↦ absent
          | spins ↦ runs
          | ended zero tmp ↦ at_page index
          | ended (suc cnt) tmp ↦ later (tmp + 1)
        ])
    after_scan later beyond h from (too_far far) go_on = nowhere (λ i p q fits all.
        elim (Bool-cases (ltb i index)) [
          | inl e ↦ none_yet i p (ltb→lt i index e) fits all
          | inr e ↦ ground arith
        ])
    after_scan later spins h from s go_on = elim s [ ]
    after_scan later (ended zero t) h from (run _ fits all) go_on =
        first index from fits all none_yet
    after_scan later (ended (suc c) t) h from (blocked _ _ p q u) go_on =
        go_on (t + 1) (omega arith) (passed t q u)

  module _ (count lo hi : ℕ) (some_pages : 0 < count) where
    find_loop-Searched :
        (fuel index : ℕ)
        → lo ≤ index
        → hi < index + fuel
        → 0 < fuel
        → NoRun map count lo index hi
        → Searched count lo hi (find_loop fuel index count hi 1 map)
    unfolding find_loop
    find_loop-Searched zero index from enough h none_yet = absurd (omega arith)
    find_loop-Searched (suc fuel) index from enough h none_yet = elim (Bool-cases (leb hi index)) [
      | inl e ↦ rw e (nowhere (λ i p q. none_yet i p (ground arith)))
      | inr e ↦
          let go_on : (j : ℕ)
              → index < j
              → NoRun map count lo j hi
              → Searched count lo hi (find_loop fuel j count hi 1 map) =
            λ j p. find_loop-Searched fuel j (omega arith) (omega arith) (ground arith) in
          elim (Bool-cases (map index == page_used)) [
            | inl u ↦
                rw (e, u)
                  (go_on (index + 1) (omega arith) (λ i p q fits all.
                    elim (Bool-cases (i == index)) [
                      | inl same ↦
                          omega (arith, all index (ground arith) (ground arith), (==_iff _ _).0 u)
                      | inr other ↦ none_yet i p (ground arith) fits all
                    ]))
            | inr f ↦
                rw (e, f)
                  (after_scan count lo hi index none_yet (λ j. find_loop fuel j count hi 1 map)
                    (scan count index hi map) (ground arith) from
                    (scan-Scanned count index hi (ground arith)) go_on)
          ]
    ]

module _ (count lo hi : ℕ) (mm : Bootmm) (v : IsMap mm.s_map) where
  searched-Found :
      {r : PageSearch}
      → Searched v count lo hi r
      → Found mm count lo hi (elim r [
        | absent ↦ some (0, mm)
        | runs ↦ none
        | at_page index ↦ some (
          index * page_size % word,
          record mm {
            last_alloc = sub32 (index + count) 1;
            s_map = set_maps index count page_used mm.s_map;
          },
        )
      ])
  searched-Found (nowhere n) = failed n
  searched-Found (first i p fits all n) = found i _ p fits all n (record {
    pages = set_maps_lem i count page_used mm.s_map;
    last = refl;
    table = (refl, refl, refl);
  })

  -- For a map of free and used pages, a request for at least one page and an alignment of one page,
  -- `find_pages` comes back. It returns 0 and changes nothing if no run of `count` free pages lies
  -- between the bounds. Else it takes the first such run: it returns its address, its pages become
  -- used and no others change, and `last_alloc` is its last page.
  pub find_pages-Found : 0 < count → lo < word → Found mm count lo hi (find_pages count lo hi 1 mm)
  unfolding find_pages
  find_pages-Found h bound =
      let same : round_down (add32 lo (sub32 1 1)) 1 ≡ lo =
        omega (arith, mask_all (add32 lo 0) (omega arith)) in
      rw (find_pages, same)
        (searched-Found (
          find_loop-Searched v count lo hi h (suc hi) lo (omega arith) (omega arith) (omega arith)
            (λ i p q. absurd (omega arith))))
