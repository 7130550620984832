-- ===== src/Slab/Choice.antt =====
-- The cache that `get_slab` of kernel/mm/slab.c takes for a size.
use mini_operating_system.Prelude.{
  ℕ, ◌<◌, ◌≤◌, ◌≡◌, ◌⊎◌, inl, inr, refl, sym, subst, Bool, true, false, leb, Bool-cases, arith,
}
use mini_operating_system.Slab.{Slab, KmemCache, init_slab}
use mini_operating_system.Slab.Alloc.{get_slab}

-- The sizes of the caches that are tried for a size up to 1024
record IsTable (caches : ℕ → KmemCache) : Type 0 where
  size_0 : (caches 0).objsize ≡ 96
  size_1 : (caches 1).objsize ≡ 192
  size_2 : (caches 2).objsize ≡ 8
  size_3 : (caches 3).objsize ≡ 16
  size_4 : (caches 4).objsize ≡ 32
  size_5 : (caches 5).objsize ≡ 64
  size_6 : (caches 6).objsize ≡ 128
  size_7 : (caches 7).objsize ≡ 256
  size_8 : (caches 8).objsize ≡ 512
  size_9 : (caches 9).objsize ≡ 1024

init_slab-IsTable : (s : Slab) → IsTable (init_slab s).caches
unfolding init_slab
init_slab-IsTable s = record {
  size_0 = refl;
  size_1 = refl;
  size_2 = refl;
  size_3 = refl;
  size_4 = refl;
  size_5 = refl;
  size_6 = refl;
  size_7 = refl;
  size_8 = refl;
  size_9 = refl;
}

module _ (caches : ℕ → KmemCache) (size : ℕ) (t : IsTable caches) (h : size ≤ 1024) where
  abbrev IsFit : ℕ → Type 0
  IsFit i = (i < 10) × (size ≤ (caches i).objsize) × ((i ≡ 0) ⊎ (i ≡ 1) ⊎ (7 ≤ i))

  abbrev holds : ℕ → Bool
  holds i = leb size (caches i).objsize

  above_192 : 192 < size → (i : ℕ) × (get_slab size caches ≡ i) × IsFit i
  unfolding get_slab
  above_192 big =
      let n0 : holds 0 ≡ false = ground (arith, t.size_0) in
      let n1 : holds 1 ≡ false = ground (arith, t.size_1) in
      let n2 : holds 2 ≡ false = ground (arith, t.size_2) in
      let n3 : holds 3 ≡ false = ground (arith, t.size_3) in
      let n4 : holds 4 ≡ false = ground (arith, t.size_4) in
      let n5 : holds 5 ≡ false = ground (arith, t.size_5) in
      let n6 : holds 6 ≡ false = ground (arith, t.size_6) in
      let n9 : holds 9 ≡ true = ground (arith, t.size_9) in
      elim (Bool-cases (holds 7)) [
        | inl e7 ↦ (
          7,
          rw (n0, n1, n2, n3, n4, n5, n6, e7) refl,
          (omega arith, ground (arith, e7), inr (inr (omega arith))),
        )
        | inr e7 ↦ elim (Bool-cases (holds 8)) [
          | inl e8 ↦ (
            8,
            rw (n0, n1, n2, n3, n4, n5, n6, e7, e8) refl,
            (omega arith, ground (arith, e8), inr (inr (omega arith))),
          )
          | inr e8 ↦ (
            9,
            rw (n0, n1, n2, n3, n4, n5, n6, e7, e8, n9) refl,
            (omega arith, ground (arith, n9), inr (inr (omega arith))),
          )
        ]
      ]

  get_slab-IsFit : (i : ℕ) × (get_slab size caches ≡ i) × IsFit i
  unfolding get_slab
  get_slab-IsFit = elim (Bool-cases (holds 0)) [
    | inl e0 ↦ (0, rw e0 refl, (omega arith, ground (arith, e0), inl refl))
    | inr e0 ↦ elim (Bool-cases (holds 1)) [
      | inl e1 ↦ (1, rw (e0, e1) refl, (omega arith, ground (arith, e1), inr (inl refl)))
      | inr e1 ↦ above_192 (ground (arith, e1, t.size_1))
    ]
  ]

-- After `init_slab` every size up to 1024 gets a cache with objects that are large enough; it is one of
-- the two for 96 and 192 bytes, or one of those for 256, 512 and 1024: those for 8, 16, 32, 64 and 128
-- bytes are never taken.
pub get_slab-init_slab :
    (s : Slab) (size : ℕ)
    → size ≤ 1024
    → (get_slab size (init_slab s).caches < 10)
      × (size ≤ ((init_slab s).caches (get_slab size (init_slab s).caches)).objsize)
      × ((get_slab size (init_slab s).caches ≡ 0)
          ⊎ (get_slab size (init_slab s).caches ≡ 1)
          ⊎ (7 ≤ get_slab size (init_slab s).caches))
get_slab-init_slab s size h =
    let caches = (init_slab s).caches in
    let (i, e, fit) = get_slab-IsFit caches size (init_slab-IsTable s) h in
    subst (IsFit caches size (init_slab-IsTable s) h) (sym e) fit
