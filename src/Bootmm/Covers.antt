-- ===== src/Bootmm/Covers.antt =====
-- What the table of segments of kernel/mm/bootmm.c says of each address, and what a removal does
-- to that.
use mini_operating_system.Prelude.{
  ℕ, zero, suc, ◌+◌, ◌-◌, ◌≤◌, ◌<◌, ◌≡◌, ◌≢◌, ◌↔◌, inl, inr, false, arith, ltb, ltb→lt, leb,
  if◌then◌else◌, word, update, Bool-cases, refl, sym, subst, ◌∙◌, ap,
}
use mini_operating_system.Bootmm.State.{max_info, Info, Bootmm}
use mini_operating_system.Bootmm.Table.{shift_down, remove_mminfo}

abbrev pub Holds : Info → (type address : ℕ) → Type 0
Holds s t a = (s.type ≡ t) × (s.start_pn ≤ a) × (a ≤ s.end_pn)

-- Some segment of the table holds the address, for this use.
abbrev pub Covers : Bootmm → (type address : ℕ) → Type 0
Covers mm t a = (i : ℕ) × (i < mm.count) × Holds (mm.info i) t a

-- The same without the segment `k`.
abbrev pub CoversApart : ℕ → Bootmm → (type address : ℕ) → Type 0
CoversApart k mm t a = (i : ℕ) × (i < mm.count) × (i ≢ k) × Holds (mm.info i) t a

pub record IsSegment (s : Info) : Type 0 where
  pub order : s.start_pn ≤ s.end_pn
  pub bound : s.end_pn + 1 < word

pub record IsTable (mm : Bootmm) : Type 0 where
  pub size : mm.count ≤ max_info
  pub segments : (i : ℕ) → i < mm.count → IsSegment (mm.info i)

pub shift_down_lem :
    (rounds i : ℕ) (info : ℕ → Info) (j : ℕ)
    → 0 < i
    → shift_down rounds i info j ≡ (
        if leb i (j + 1)
        then (if ltb (j + 1) (i + rounds) then info (j + 1) else info j)
        else info j)
unfolding shift_down
shift_down_lem zero i info j h = ground arith
shift_down_lem (suc rounds) i info j h =
    ground (arith, shift_down_lem rounds (suc i) (update info (i - 1) (info i)) j (omega arith))

module _ (k : ℕ) (mm : Bootmm) (h : k < mm.count) where
  abbrev moved : ℕ → Info
  moved = shift_down (mm.count - (k + 1)) (k + 1) mm.info

  removed : (remove_mminfo k mm).1 ≡ record mm { info = moved; count = mm.count - 1 }
  unfolding remove_mminfo
  removed = let e : leb mm.count k ≡ false = ground arith in rw e refl

  moved_below : (j : ℕ) → j < k → moved j ≡ mm.info j
  moved_below j l =
      ground (arith, shift_down_lem (mm.count - (k + 1)) (k + 1) mm.info j (omega arith))

  moved_above : (j : ℕ) → k ≤ j → j + 1 < mm.count → moved j ≡ mm.info (j + 1)
  moved_above j l u =
      ground (arith, shift_down_lem (mm.count - (k + 1)) (k + 1) mm.info j (omega arith))

  -- `remove_mminfo` of a segment of the table takes that one away and no other.
  pub remove_mminfo-CoversApart :
      (t a : ℕ) → Covers (remove_mminfo k mm).1 t a ↔ CoversApart k mm t a
  remove_mminfo-CoversApart t a = rw removed (
    (λ (j, l, held). elim (Bool-cases (ltb j k)) [
      | inl e ↦ (
        j,
        omega arith,
        (λ same. ground arith),
        subst (λ s. Holds s t a) (moved_below j (ltb→lt j k e)) held,
      )
      | inr e ↦ (
        j + 1,
        omega arith,
        (λ same. ground arith),
        subst (λ s. Holds s t a) (moved_above j (ground arith) (omega arith)) held,
      )
    ]),
    (λ (j, l, other, held). elim (Bool-cases (ltb j k)) [
      | inl e ↦
          (j, ground arith, subst (λ s. Holds s t a) (sym (moved_below j (ltb→lt j k e))) held)
      | inr e ↦
          let after : j - 1 + 1 ≡ j = ground arith in
          let same : moved (j - 1) ≡ mm.info j =
            moved_above (j - 1) (ground arith) (omega (arith, after)) ∙ ap mm.info after in
          (j - 1, omega (arith, after), subst (λ s. Holds s t a) (sym same) held)
    ]),
  )

  pub remove_mminfo-IsTable : IsTable mm → IsTable (remove_mminfo k mm).1
  remove_mminfo-IsTable v = rw removed (record {
    size = omega (arith, v.size);
    segments = λ j l. elim (Bool-cases (ltb j k)) [
      | inl e ↦ rw (moved_below j (ltb→lt j k e)) (v.segments j (omega arith))
      | inr e ↦ rw (moved_above j (ground arith) (omega arith)) (v.segments (j + 1) (omega arith))
    ];
  })
