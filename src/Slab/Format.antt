-- ===== src/Slab/Format.antt =====
-- `format_slabpage` of kernel/mm/slab.c: the objects of a page as a list of free objects.
use mini_operating_system.Prelude.{
  ℕ, zero, suc, ◌+◌, ◌-◌, ◌*◌, ◌/◌, ◌%◌, ◌^◌, ◌<◌, ◌≤◌, ◌≡◌, ◌≢◌, refl, sym, ap, ◌∙◌, inl, inr,
  false, some, bit_and, bit_or, leb, ◌==◌, word, add32, sub32, update, update_eq, update_ne, subst,
  arith, Bool-cases,
}
use native.Mathlib.Nat.{div-eq_of_lt-le, mul-le-mul_right, add-mul}
use mini_operating_system.Prelude.Masks.{bit_or-top, mask_pages}
use mini_operating_system.Slab.{
  Slab, KmemCache, link_objects, object_fuel, close_page, format_slabpage, kmem_addr,
}

module _ (c : KmemCache) where
  abbrev z : ℕ
  z = c.size

  -- What the loop leaves: `count` objects, as many as fit, each linked to the one behind it.
  record IsLinked (base room max : ℕ) (mem : ℕ → ℕ) (r : ℕ × ℕ × ℕ × (ℕ → ℕ)) : Type 0 where
    count : ℕ
    some_object : 0 < count
    fits : count * z ≤ room
    tight : room < count * z + z
    last_ptr : r.0 + z ≡ base + count * z + c.offset
    behind : r.1 ≡ base + count * z
    counted : r.2 ≡ max + count
    linked : (j : ℕ) → j < count → r.3 (base + j * z + c.offset) ≡ base + j * z + z
    others : (a : ℕ) → ((j : ℕ) → j < count → a ≢ base + j * z + c.offset) → r.3 a ≡ mem a

  first_ne : (base a : ℕ) → a ≢ base + 0 * z + c.offset → (a == base + c.offset) ≡ false
  first_ne base a far =
      let other : a ≢ base + c.offset = (λ e. far (omega (arith, e))) in ground (arith, other)

  one-IsLinked :
      (base room max : ℕ) (mem : ℕ → ℕ)
      → 0 < z
      → z ≤ room
      → room < z + z
      → IsLinked base room max mem
          (base + c.offset, base + z, max + 1, update mem (base + c.offset) (base + z))
  one-IsLinked base room max mem p h l = record {
    count = 1;
    some_object = omega arith;
    fits = omega arith;
    tight = omega arith;
    last_ptr = omega arith;
    behind = omega arith;
    counted = refl;
    linked = λ j k.
        let first : j ≡ 0 = omega (arith, k) in
        let row : j * z ≡ 0 = ap (λ (n : ℕ). n * z) first ∙ omega arith in
        update_eq mem (base + c.offset) (base + z) (base + j * z + c.offset) (omega (arith, row))
        ∙ omega (arith, row);
    others =
        λ a k. update_ne mem (base + c.offset) (base + z) a (first_ne base a (k 0 (omega arith)));
  }

  more-IsLinked :
      (base room max : ℕ) (mem : ℕ → ℕ) (r : ℕ × ℕ × ℕ × (ℕ → ℕ))
      → 0 < z
      → z ≤ room
      → IsLinked (base + z) (room - z) (max + 1) (update mem (base + c.offset) (base + z)) r
      → IsLinked base room max mem r
  more-IsLinked base room max mem r p h l = record {
    count = suc l.count;
    some_object = omega arith;
    fits = omega (arith, l.fits);
    tight = omega (arith, l.tight);
    last_ptr = omega (arith, l.last_ptr);
    behind = omega (arith, l.behind);
    counted = omega (arith, l.counted);
    linked = links;
    others = λ a k.
        l.others a (λ j q e. k (suc j) (omega (arith, q)) (omega (arith, e)))
        ∙ update_ne mem (base + c.offset) (base + z) a (first_ne base a (k 0 (omega arith)));
  }
    where
      links : (j : ℕ) → j < suc l.count → r.3 (base + j * z + c.offset) ≡ base + j * z + z
      links zero q =
          l.others (base + 0 * z + c.offset) (λ j q e. omega (arith, e, p))
          ∙ update_eq mem (base + c.offset) (base + z) (base + 0 * z + c.offset) (omega arith)
          ∙ omega arith
      links (suc j) q =
          let place : base + suc j * z + c.offset ≡ base + z + j * z + c.offset = omega arith in
          ap r.3 place ∙ l.linked j (omega (arith, q)) ∙ omega arith

  link_objects-IsLinked :
      (fuel base room max : ℕ) (mem : ℕ → ℕ)
      → 0 < z
      → z ≤ room
      → room ≤ fuel
      → base + room < 2 ^ 32
      → IsLinked base room max mem (link_objects fuel c base room max mem)
  unfolding link_objects
  link_objects-IsLinked zero base room max mem p h f b = absurd (omega (arith, p, h, f))
  link_objects-IsLinked (suc fuel) base room max mem p h f b =
      let next : add32 base z ≡ base + z = omega (arith, h, b) in
      let left : sub32 room z ≡ room - z = omega (arith, h, b) in
      elim (Bool-cases (leb z (room - z))) [
        | inl e ↦
            rw (next, left, e)
              (more-IsLinked base room max mem _ p h (
                link_objects-IsLinked fuel (base + z) (room - z) (max + 1)
                  (update mem (base + c.offset) (base + z)) p (ground (arith, e)) (omega arith)
                  (omega arith)))
        | inr e ↦ rw (next, left, e) (one-IsLinked base room max mem p h (ground (arith, e)))
      ]

-- The page with number `pn` after `format_slabpage` of cache `i`
module _ (i pn : ℕ) (s : Slab) where
  abbrev cache : KmemCache
  cache = s.caches i

  pub record IsFormatted (n : Slab) : Type 0 where
    pub counted : (n.buddy.pages pn).max_object ≡ 4096 / cache.size
    pub none_used : (n.buddy.pages pn).nr_objs ≡ 0
    pub first : (n.buddy.pages pn).freeobj ≡ pn * 4096 + 2 ^ 31
    pub of_cache : (n.buddy.pages pn).virtual ≡ i
    pub current : (n.caches i).cpu_page ≡ some pn
    pub linked :
        (j : ℕ)
        → suc j < 4096 / cache.size
        → n.mem (pn * 4096 + 2 ^ 31 + j * cache.size + cache.offset)
          ≡ pn * 4096 + 2 ^ 31 + suc j * cache.size
    pub last :
        (j : ℕ)
        → suc j ≡ 4096 / cache.size
        → n.mem (pn * 4096 + 2 ^ 31 + j * cache.size + cache.offset)
          ≡ (pn * 4096 + 2 ^ 31 + suc j * cache.size) / 4096 * 4096
    pub inside : (j : ℕ) → j < 4096 / cache.size → j * cache.size + cache.offset + 4 ≤ 4096
    pub others :
        (a : ℕ)
        → ((j : ℕ) → j < 4096 / cache.size → a ≢ pn * 4096 + 2 ^ 31 + j * cache.size + cache.offset)
        → n.mem a ≡ s.mem a

  not_last :
      (r : ℕ × ℕ × ℕ × (ℕ → ℕ)) (l : IsLinked cache (pn * 4096 + 2 ^ 31) 4096 0 s.mem r)
      → cache.offset + 4 ≤ cache.size
      → (j : ℕ) → suc j < l.count
      → (pn * 4096 + 2 ^ 31 + j * cache.size + cache.offset == r.0) ≡ false
  not_last r l room j h =
      let z : ℕ = cache.size in
      let d : ℕ = l.count - suc j - 1 in
      let e : l.count ≡ suc j + suc d = omega (arith, h) in
      let row : l.count * z ≡ suc j * z + suc d * z =
        ap (λ (n : ℕ). n * z) e ∙ add-mul (suc j) (suc d) z in
      let far : pn * 4096 + 2 ^ 31 + j * z + cache.offset ≢ r.0 =
        (λ f. omega (arith, f, row, l.last_ptr, room)) in
      ground (arith, far)

  close_page-IsFormatted :
      (r : ℕ × ℕ × ℕ × (ℕ → ℕ))
      → pn < 2 ^ 19 - 1
      → cache.offset + 4 ≤ cache.size
      → IsLinked cache (pn * 4096 + 2 ^ 31) 4096 0 s.mem r
      → IsFormatted (close_page i pn (pn * 4096 + 2 ^ 31) r s)
  unfolding close_page
  close_page-IsFormatted r low room l =
      let base : ℕ = pn * 4096 + 2 ^ 31 in
      let z : ℕ = cache.size in
      let max : l.count ≡ 4096 / cache.size =
        sym (div-eq_of_lt-le cache.size l.fits (omega (arith, l.tight))) in
      let page = update_eq s.buddy.pages pn _ pn refl in
      record {
        counted = ap (λ p. p.max_object) page ∙ omega (arith, l.counted, max);
        none_used = ap (λ p. p.nr_objs) page;
        first = ap (λ p. p.freeobj) page;
        of_cache = ap (λ p. p.virtual) page;
        current = ap (λ c. c.cpu_page) (update_eq s.caches i _ i refl);
        linked = λ j h.
            update_ne r.3 r.0 (bit_and r.1 0xfffff000) (base + j * z + cache.offset)
              (not_last r l room j (omega (arith, max)))
            ∙ l.linked j (omega (arith, max))
            ∙ omega arith;
        last = λ j h.
            (let e : suc j ≡ l.count = omega (arith, max) in
              let row : suc j * z ≡ l.count * z = ap (λ (n : ℕ). n * z) e in
              let place : base + j * z + cache.offset ≡ r.0 = omega (arith, l.last_ptr, row) in
              let end : r.1 ≡ base + suc j * z = omega (arith, l.behind, row) in
              update_eq r.3 r.0 (bit_and r.1 0xfffff000) (base + j * z + cache.offset) place
              ∙ mask_pages r.1 (omega (arith, l.behind, l.fits, low))
              ∙ ap (λ (n : ℕ). n / 4096 * 4096) end);
        inside = λ j h.
            omega (
              arith,
              mul-le-mul_right z (let e : suc j ≤ l.count = omega (arith, max) in e),
              l.fits,
            );
        others = λ a far.
            (let d : ℕ = l.count - 1 in
              let e : l.count ≡ suc d = omega (arith, l.some_object) in
              let row : l.count * z ≡ suc d * z = ap (λ (n : ℕ). n * z) e in
              let away : a ≢ base + d * z + cache.offset = far d (omega (arith, e, max)) in
              let not_ptr : a ≢ r.0 = (λ f. away (omega (arith, f, row, l.last_ptr))) in
              update_ne r.3 r.0 (bit_and r.1 0xfffff000) a (ground (arith, not_ptr))
              ∙ l.others a (λ j q. far j (omega (arith, q, max))));
      }

  -- For a page below the last one of the kernel segment, and a cache whose objects are not larger than
  -- a page and have room for a word behind the offset: `format_slabpage` makes the page the one of its
  -- cache, with none of its objects used and the first one free. It has as many objects as fit, the word
  -- of each at the offset is the address of the next one, that of the last one the start of the page
  -- that its end is in; all these words are inside the page, and no other word changes.
  pub format_slabpage-IsFormatted :
      pn < 2 ^ 19 - 1
      → 0 < cache.size
      → cache.size ≤ 4096
      → cache.offset + 4 ≤ cache.size
      → IsFormatted (format_slabpage i pn s)
  unfolding format_slabpage
  format_slabpage-IsFormatted low some_size small room =
      let base_eq : kmem_addr pn ≡ pn * 4096 + 2 ^ 31 =
        ap (λ (n : ℕ). bit_or n 0x80000000)
          (let e : pn * 2 ^ 12 % word ≡ pn * 4096 = omega arith in e)
        ∙ bit_or-top (pn * 4096) (omega arith) in
      subst (λ b. IsFormatted (close_page i pn b (link_objects object_fuel cache b 4096 0 s.mem) s))
        (sym base_eq)
        (close_page-IsFormatted _ low room (
          link_objects-IsLinked cache object_fuel (pn * 4096 + 2 ^ 31) 4096 0 s.mem some_size small
            (omega arith) (omega arith)))
