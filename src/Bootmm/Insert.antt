-- ===== src/Bootmm/Insert.antt =====
-- `insert_mminfo` of kernel/mm/bootmm.c as a whole.
use mini_operating_system.Prelude.{
  ℕ, zero, suc, ◌+◌, ◌≤◌, ◌<◌, ◌≡◌, inl, inr, Option, none, some, arith, ltb, ltb→lt, ◌==◌,
  if◌then◌else◌, word, sub32, Bool-cases, ==_iff,
}
use mini_operating_system.Bootmm.State.{Bootmm}
use mini_operating_system.Bootmm.Table.{set_start, extend_end, extend, insert_loop, insert_mminfo}
use mini_operating_system.Bootmm.Covers.{IsTable}
use mini_operating_system.Bootmm.Rewrite.{
  Inserted, insert_last-Inserted, set_end-Inserted, set_start-Inserted, bridged,
}

module _ (start end type : ℕ) (ordered : start ≤ end) (bound : end + 1 < word) where
  module _ (mm : Bootmm) (v : IsTable mm) where
    data Extended : Option (ℕ × Bootmm) → Type 0 where
      goes_on : Extended none
      returned : {r : ℕ × Bootmm} → Inserted start end type mm r → Extended (some r)

    extend_end-Extended :
        (i : ℕ) → i < mm.count → (mm.info i).type ≡ type → Extended (extend_end i start end type mm)
    unfolding extend_end
    extend_end-Extended i h st = elim (Bool-cases ((mm.info i).end_pn == sub32 start 1)) [
      | inr e ↦ rw e goes_on
      | inl e ↦
          let joins : (mm.info i).end_pn ≡ sub32 start 1 = (==_iff _ _).0 e in
          let longer = set_end-Inserted start end type ordered bound mm v i h st in
          elim (Bool-cases (ltb (i + 1) mm.count)) [
            | inr l ↦ rw (e, l) (returned (longer 3 joins))
            | inl l ↦ elim (Bool-cases ((mm.info (i + 1)).type == type)) [
              | inr u ↦ rw (e, l, u) (returned (longer 1 joins))
              | inl u ↦ elim (Bool-cases (sub32 (mm.info (i + 1)).start_pn 1 == end)) [
                | inr w ↦ rw (e, l, u, w) goes_on
                | inl w ↦
                    rw (e, l, u, w)
                      (returned (
                        bridged start end type ordered bound mm v i h st (ltb→lt _ _ l)
                          ((==_iff _ _).0 u) joins ((==_iff _ _).0 w)))
              ]
            ]
          ]
    ]

    after_end_test :
        (i : ℕ) (o : Option (ℕ × Bootmm))
        → i < mm.count
        → (mm.info i).type ≡ type
        → Extended o
        → Extended (elim o [
          | some r ↦ some r
          | none ↦
              if sub32 (mm.info i).start_pn 1 == end then some (3, set_start i start mm) else none
        ])
    after_end_test i (some r) h st (returned x) = returned x
    after_end_test i none h st x = elim (Bool-cases (sub32 (mm.info i).start_pn 1 == end)) [
      | inr e ↦ rw e goes_on
      | inl e ↦ rw e (
          returned
            (set_start-Inserted start end type ordered bound mm v i h st 2 ((==_iff _ _).0 e)))
    ]

    extend-Extended : (i : ℕ) → i < mm.count → Extended (extend i start end type mm)
    unfolding extend
    extend-Extended i h = elim (Bool-cases ((mm.info i).type == type)) [
      | inr e ↦ rw e goes_on
      | inl e ↦ rw e (
          after_end_test i (extend_end i start end type mm) h ((==_iff _ _).0 e)
            (extend_end-Extended i h ((==_iff _ _).0 e)))
    ]

    or_later :
        (o : Option (ℕ × Bootmm)) (later : ℕ × Bootmm)
        → Extended o
        → Inserted start end type mm later
        → Inserted start end type mm (elim o [ some r ↦ r | none ↦ later ])
    or_later none later x i = i
    or_later (some r) later (returned x) i = x

    insert_loop-Inserted :
        (rounds i : ℕ)
        → rounds + i ≤ mm.count
        → Inserted start end type mm (insert_loop rounds i start end type mm)
    unfolding insert_loop
    insert_loop-Inserted zero i h = insert_last-Inserted start end type ordered bound mm v
    insert_loop-Inserted (suc rounds) i h =
        or_later (extend i start end type mm) _ (extend-Extended i (omega arith))
          (insert_loop-Inserted rounds (suc i) (omega arith))

    -- For a table of at most ten segments, each with its start up to its end and an end below 2^32 - 1,
    -- and for a new segment of that form, `insert_mminfo` gives such a table again. It returns 0 only
    -- if the table is full, and changes nothing then. Else the table holds an address for some use
    -- just if it did before or the new segment does, however segments were joined.
    pub insert_mminfo-Inserted : Inserted start end type mm (insert_mminfo start end type mm)
    unfolding insert_mminfo
    insert_mminfo-Inserted = insert_loop-Inserted mm.count 0 (omega arith)
