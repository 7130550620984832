-- ===== src/Bootmm/Rewrite.antt =====
-- The ways in which `insert_mminfo` of kernel/mm/bootmm.c enters a segment: a new place, a segment
-- made longer at either end, and two segments joined.
use mini_operating_system.Prelude.{
  ℕ, suc, ◌+◌, ◌≤◌, ◌<◌, ◌≡◌, ◌↔◌, ◌⊎◌, inl, inr, true, false, arith, ltb, ltb→lt, leb, ◌==◌, word,
  sub32, update, Bool-cases, ==_iff, refl, sym, subst, update_eq, update_ne, ◌∙◌, ap,
}
use mini_operating_system.Bootmm.State.{max_info, Info, Bootmm}
use mini_operating_system.Bootmm.Table.{set_mminfo, set_end, set_start, remove_mminfo, insert_last}
use mini_operating_system.Bootmm.Covers.{
  Holds, Covers, CoversApart, IsSegment, IsTable, remove_mminfo-CoversApart, remove_mminfo-IsTable,
}

-- What `insert_mminfo` did: it refused a segment for which the full table has no place, or it made
-- the table hold the new addresses as well and no others.
pub data Inserted (start end type : ℕ) (mm : Bootmm) : ℕ × Bootmm → Type 0 where
  refused : mm.count ≡ max_info → Inserted start end type mm (0, mm)
  entered :
      (r : ℕ) (n : Bootmm)
      → ((t a : ℕ) → Covers n t a ↔ (Covers mm t a ⊎ ((type ≡ t) × (start ≤ a) × (a ≤ end))))
      → IsTable n
      → Inserted start end type mm (suc r, n)

module _ (start end type : ℕ) (ordered : start ≤ end) (bound : end + 1 < word) where
  abbrev pub New : (t a : ℕ) → Type 0
  New t a = (type ≡ t) × (start ≤ a) × (a ≤ end)

  module _ (mm : Bootmm) (v : IsTable mm) where
    -- Segment `i` rewritten so that it holds the new addresses too.
    pub rewritten :
        (i r : ℕ) (s : Info)
        → i < mm.count
        → IsSegment s
        → ((t a : ℕ) → Holds s t a ↔ (Holds (mm.info i) t a ⊎ New t a))
        → Inserted start end type mm (suc r, record mm { info = update mm.info i s })
    rewritten i r s h ok same =
        let info' : ℕ → Info = update mm.info i s in
        let here : (j : ℕ) → (j == i) ≡ true → info' j ≡ s =
          λ j e. update_eq mm.info i s j ((==_iff j i).0 e) in
        let other : (j : ℕ) → (j == i) ≡ false → info' j ≡ mm.info j = update_ne mm.info i s in
        entered r _
          (λ t a. (
            (λ (j, l, held). elim (Bool-cases (j == i)) [
              | inl e ↦ elim ((same t a).0 (subst (λ x. Holds x t a) (here j e) held)) [
                | inl old ↦ inl (i, h, old)
                | inr new ↦ inr new
              ]
              | inr e ↦ inl (j, l, subst (λ x. Holds x t a) (other j e) held)
            ]),
            (λ c. elim c [
              | inl (j, l, held) ↦ elim (Bool-cases (j == i)) [
                | inl e ↦ (
                  j,
                  l,
                  subst (λ x. Holds x t a) (sym (here j e))
                      ((same t a).1
                        (inl (subst (λ k. Holds (mm.info k) t a) ((==_iff j i).0 e) held))),
                )
                | inr e ↦ (j, l, subst (λ x. Holds x t a) (sym (other j e)) held)
              ]
              | inr new ↦ (
                i,
                h,
                subst (λ x. Holds x t a) (sym (here i (ground arith))) ((same t a).1 (inr new)),
              )
            ]),
          ))
          (record {
            size = v.size;
            segments = λ j l. elim (Bool-cases (j == i)) [
              | inl e ↦ subst IsSegment (sym (here j e)) ok
              | inr e ↦ subst IsSegment (sym (other j e)) (v.segments j l)
            ];
          })

    pub appended :
        mm.count < max_info
        → Inserted start end type mm
            (1, record (set_mminfo mm.count start end type mm) { count = mm.count + 1 })
    unfolding set_mminfo
    appended room =
        let n : ℕ → Info =
          update mm.info mm.count (record { start_pn = start; end_pn = end; type = type }) in
        let old : (j : ℕ) → j < mm.count → n j ≡ mm.info j =
          λ j l. update_ne mm.info mm.count _ j (ground arith) in
        let new : n mm.count ≡ record { start_pn = start; end_pn = end; type = type } =
          update_eq mm.info mm.count _ mm.count refl in
        entered 0 _
          (λ t a. (
            (λ (j, l, held). elim (Bool-cases (ltb j mm.count)) [
              | inl e ↦ inl (j, ltb→lt _ _ e, subst (λ x. Holds x t a) (old j (ltb→lt _ _ e)) held)
              | inr e ↦
                  let bound' : j < mm.count + 1 = l in
                  let last : j ≡ mm.count = ground arith in
                  inr (subst (λ x. Holds x t a) (ap n last ∙ new) held)
            ]),
            (λ c. elim c [
              | inl (j, l, held) ↦ (j, omega arith, subst (λ x. Holds x t a) (sym (old j l)) held)
              | inr held ↦ (mm.count, omega arith, subst (λ x. Holds x t a) (sym new) held)
            ]),
          ))
          (record {
            size = omega (arith, room);
            segments = λ j l. elim (Bool-cases (ltb j mm.count)) [
              | inl e ↦ subst IsSegment (sym (old j (ltb→lt _ _ e))) (v.segments j (ltb→lt _ _ e))
              | inr e ↦
                  let bound' : j < mm.count + 1 = l in
                  let last : j ≡ mm.count = ground arith in
                  subst IsSegment (sym (ap n last ∙ new))
                    (record { order = ordered; bound = bound })
            ];
          })

    pub insert_last-Inserted : Inserted start end type mm (insert_last start end type mm)
    unfolding insert_last
    insert_last-Inserted = elim (Bool-cases (leb max_info mm.count)) [
      | inl e ↦ rw e (refused (ground (arith, v.size)))
      | inr e ↦ rw e (appended (ground arith))
    ]

    module _ (i : ℕ) (h : i < mm.count) (same_type : (mm.info i).type ≡ type) where
      abbrev s : Info
      s = mm.info i

      before_start : s.end_pn ≡ sub32 start 1 → start ≡ s.end_pn + 1
      before_start e = omega (arith, (v.segments i h).bound)

      pub set_end-Inserted :
          (r : ℕ) → s.end_pn ≡ sub32 start 1 → Inserted start end type mm (suc r, set_end i end mm)
      set_end-Inserted r e =
          let joined : start ≡ s.end_pn + 1 = before_start e in
          let low : s.start_pn ≤ s.end_pn = (v.segments i h).order in
          rewritten i r (record s { end_pn = end }) h
            (record { order = omega arith; bound = bound }) (λ t a. ground arith)

      pub set_start-Inserted :
          (r : ℕ)
          → sub32 s.start_pn 1 ≡ end
          → Inserted start end type mm (suc r, set_start i start mm)
      set_start-Inserted r e =
          let joined : s.start_pn ≡ end + 1 =
            omega (arith, (v.segments i h).bound, (v.segments i h).order) in
          let low : s.start_pn ≤ s.end_pn = (v.segments i h).order in
          rewritten i r (record s { start_pn = start }) h
            (record { order = omega arith; bound = (v.segments i h).bound }) (λ t a. ground arith)

      module _ (next : i + 1 < mm.count) (next_type : (mm.info (i + 1)).type ≡ type)
          (joins : s.end_pn ≡ sub32 start 1)
          (meets : sub32 (mm.info (i + 1)).start_pn 1 ≡ end) where
        abbrev after : Info
        after = mm.info (i + 1)

        abbrev whole : Info
        whole = record s { end_pn = after.end_pn }

        abbrev widened : Bootmm
        widened = set_end i after.end_pn mm

        after_end : after.start_pn ≡ end + 1
        after_end = omega (arith, (v.segments (i + 1) next).bound, (v.segments (i + 1) next).order)

        whole-IsSegment : IsSegment whole
        whole-IsSegment = record {
          order = omega (
            arith,
            (v.segments i h).order,
            (v.segments (i + 1) next).order,
            before_start joins,
            after_end,
          );
          bound = (v.segments (i + 1) next).bound;
        }

        whole-Holds : (t a : ℕ) → Holds whole t a ↔ (Holds s t a ⊎ (New t a ⊎ Holds after t a))
        whole-Holds t a =
            let low = (v.segments i h).order in
            let high = (v.segments (i + 1) next).order in
            let left = before_start joins in let right = after_end in ground arith

        widened-IsTable : IsTable widened
        widened-IsTable = record {
          size = v.size;
          segments = λ j l. elim (Bool-cases (j == i)) [
            | inl e ↦
                subst IsSegment (sym (update_eq mm.info i whole j ((==_iff j i).0 e)))
                  whole-IsSegment
            | inr e ↦ subst IsSegment (sym (update_ne mm.info i whole j e)) (v.segments j l)
          ];
        }

        in_whole :
            (t a : ℕ) → Holds s t a ⊎ (New t a ⊎ Holds after t a) → CoversApart (i + 1) widened t a
        in_whole t a c = (
          i,
          h,
          (λ e. omega (arith, e)),
          subst (λ x. Holds x t a) (sym (update_eq mm.info i whole i refl)) ((whole-Holds t a).1 c),
        )

        widened-Covers : (t a : ℕ) → CoversApart (i + 1) widened t a ↔ (Covers mm t a ⊎ New t a)
        widened-Covers t a = (
          (λ (j, l, other, held). elim (Bool-cases (j == i)) [
            | inl e ↦
                elim ((whole-Holds t a).0 (
                  subst (λ x. Holds x t a) (update_eq mm.info i whole j ((==_iff j i).0 e)) held)) [
                    | inl old ↦ inl (i, h, old)
                    | inr (inl new) ↦ inr new
                    | inr (inr old) ↦ inl (i + 1, next, old)
                  ]
            | inr e ↦ inl (j, l, subst (λ x. Holds x t a) (update_ne mm.info i whole j e) held)
          ]),
          (λ c. elim c [
            | inl (j, l, held) ↦ elim (Bool-cases (j == i)) [
              | inl e ↦
                  in_whole t a (inl (subst (λ k. Holds (mm.info k) t a) ((==_iff j i).0 e) held))
              | inr e ↦ elim (Bool-cases (j == i + 1)) [
                | inl e' ↦
                    in_whole t a (
                      inr (inr (subst (λ k. Holds (mm.info k) t a) ((==_iff j (i + 1)).0 e') held)))
                | inr e' ↦ (
                  j,
                  l,
                  (λ same. ground arith),
                  subst (λ x. Holds x t a) (sym (update_ne mm.info i whole j e)) held,
                )
              ]
            ]
            | inr new ↦ in_whole t a (inr (inl new))
          ]),
        )

        pub bridged : Inserted start end type mm (5, (remove_mminfo (i + 1) widened).1)
        bridged =
            entered 4 _
              (λ t a. (
                (λ c.
                    (widened-Covers t a).0
                      ((remove_mminfo-CoversApart (i + 1) widened next t a).0 c)),
                (λ c.
                    (remove_mminfo-CoversApart (i + 1) widened next t a).1
                      ((widened-Covers t a).1 c)),
              ))
              (remove_mminfo-IsTable (i + 1) widened next widened-IsTable)
