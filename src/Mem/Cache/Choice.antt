-- ===== src/Mem/Cache/Choice.antt =====
-- Which entry `findposition` of src/mem/memsyn.c takes.
use jiajia.Prelude.{
  ℕ, zero, suc, ◌+◌, ◌-◌, ◌%◌, ◌≤◌, ◌<◌, ◌≡◌, refl, ◌∙◌, sym, subst, arith, Bool, true, false,
  Option, none, some, ◌⊎◌, inl, inr, Bool-cases,
}
use jiajia.Mem.Cache.{
  PageState, Cache, set_pages, is_unmap, is_inv, xor, replacei, scan, take_entry, pick,
  findposition,
}
use jiajia.Mem.Cache.Classes.{
  class, class_unmap, class_inv, class_most, class_least, class_last, replacei_lt, replacei_state,
  IsTaken, take_entry_lem,
}

module _ (start base : ℕ) (state : ℕ → PageState) where
  -- The entry j steps behind seti in the set.
  abbrev step : ℕ → ℕ → PageState
  step seti j = state (base + (seti + j) % set_pages)

  -- What the loop knows of the INV entries among the n from seti on.
  abbrev Marked : ℕ → ℕ → Option ℕ → Type 0
  Marked n seti none = (j : ℕ) → j < n → is_inv (step seti j) ≡ false
  Marked n seti (some k) = (is_inv (state (base + k)) ≡ true) × (k < set_pages)

  -- The loop stops at an UNMAP entry, or has passed n that are not.
  abbrev Scanned : ℕ → ℕ → ℕ × Option ℕ → Type 0
  Scanned n seti r =
      ((r.0 < set_pages) × (is_unmap (state (base + r.0)) ≡ true))
      ⊎ ((r.0 ≡ (seti + n) % set_pages)
          × ((j : ℕ) → j < n → is_unmap (step seti j) ≡ false)
          × Marked n seti r.1)

  next_entry : (seti j : ℕ) → ((seti + 1) % set_pages + j) % set_pages ≡ (seti + suc j) % set_pages
  next_entry seti j = omega arith

  -- The n entries behind the first, and the first.
  both_steps :
      (P : PageState → Bool) (n seti : ℕ)
      → seti < set_pages
      → P (state (base + seti)) ≡ false
      → ((j : ℕ) → j < n → P (step ((seti + 1) % set_pages) j) ≡ false)
      → (j : ℕ) → j < suc n
      → P (step seti j) ≡ false
  both_steps P n seti lt here rest zero h =
      subst (λ k. P (state (base + k)) ≡ false) (omega arith) here
  both_steps P n seti lt here rest (suc j) h =
      subst (λ k. P (state (base + k)) ≡ false) (next_entry seti j) (rest j (omega arith))

  widen :
      (n seti : ℕ) (o : Option ℕ)
      → seti < set_pages
      → is_inv (state (base + seti)) ≡ false
      → Marked n ((seti + 1) % set_pages) o
      → Marked (suc n) seti o
  widen n seti none lt here m = both_steps is_inv n seti lt here m
  widen n seti (some k) lt here m = m

  extend :
      (n seti : ℕ) (r : ℕ × Option ℕ)
      → seti < set_pages
      → is_unmap (state (base + seti)) ≡ false
      → (Marked n ((seti + 1) % set_pages) r.1 → Marked (suc n) seti r.1)
      → Scanned n ((seti + 1) % set_pages) r
      → Scanned (suc n) seti r
  extend n seti r lt here f (inl found) = inl found
  extend n seti r lt here f (inr (at, none_, m)) =
      inr (at ∙ next_entry seti n, both_steps is_unmap n seti lt here none_, f m)

  scan_keeps : (n seti k : ℕ) → (scan start base state n seti (some k)).1 ≡ some k
  unfolding scan
  scan_keeps zero seti k = refl
  scan_keeps (suc n) seti k = elim (Bool-cases (is_unmap (state (base + seti)))) [
    | inl e ↦ rw e refl
    | inr e ↦ rw e (scan_keeps n ((seti + 1) % set_pages) k)
  ]

  scan-some :
      (n seti k : ℕ)
      → seti < set_pages
      → Marked 0 seti (some k)
      → Scanned n seti (scan start base state n seti (some k))
  unfolding scan
  scan-some zero seti k lt m =
      inr (omega arith, (λ j h. let bad : ⊥ = omega arith in elim bad [ ]), m)
  scan-some (suc n) seti k lt m =
      let next = (seti + 1) % set_pages in
      elim (Bool-cases (is_unmap (state (base + seti)))) [
        | inl e ↦ rw e (inl (lt, e))
        | inr e ↦ rw e (
            extend n seti (scan start base state n next (some k)) lt e
              (λ _. subst (Marked (suc n) seti) (sym (scan_keeps n next k)) m)
              (scan-some n next k (omega arith) m))
      ]

  scan-none : (n seti : ℕ) → seti < set_pages → Scanned n seti (scan start base state n seti none)
  unfolding scan
  scan-none zero seti lt = inr (
    omega arith,
    (λ j h. let bad : ⊥ = omega arith in elim bad [ ]),
    λ j h. let bad : ⊥ = omega arith in elim bad [ ],
  )
  scan-none (suc n) seti lt =
      let next = (seti + 1) % set_pages in
      elim (Bool-cases (is_unmap (state (base + seti)))) [
        | inl e ↦ rw e (inl (lt, e))
        | inr e ↦ elim (Bool-cases (is_inv (state (base + seti)))) [
          | inl m ↦
              rw (e, m)
                (extend n seti (scan start base state n next (some seti)) lt e
                  (λ _. subst (Marked (suc n) seti) (sym (scan_keeps n next seti)) (m, lt))
                  (scan-some n next seti (omega arith) (m, lt)))
          | inr m ↦
              rw (e, m)
                (extend n seti (scan start base state n next none) lt e
                  (λ o. widen n seti (scan start base state n next none).1 lt m o)
                  (scan-none n next (omega arith)))
        ]
      ]

  -- Every entry of the set is passed.
  passed :
      (P : PageState → Bool) (seti : ℕ)
      → seti < set_pages
      → ((j : ℕ) → j < set_pages → P (step seti j) ≡ false)
      → (k : ℕ) → k < set_pages
      → P (state (base + k)) ≡ false
  passed P seti lt h k lk =
      let e : (seti + (k + set_pages - seti) % set_pages) % set_pages ≡ k = omega arith in
      subst (λ a. P (state (base + a)) ≡ false) e
        (h ((k + set_pages - seti) % set_pages) (omega arith))

  -- The entry that the loop's result stands for is of the least class in the set.
  pick_best :
      (seti : ℕ) (r : ℕ × Option ℕ)
      → seti < set_pages
      → Scanned set_pages seti r
      → (i : ℕ) × (i < set_pages)
        × (pick start base state r ≡ base + i)
        × ((k : ℕ) → k < set_pages → class (state (base + i)) ≤ class (state (base + k)))
  pick_best seti (found, none) lt (inl (small, e)) =
      (found, small, refl, λ k lk. omega (arith, class_unmap (state (base + found)) e))
  pick_best seti (found, some _) lt (inl (small, e)) =
      (found, small, rw e refl, λ k lk. omega (arith, class_unmap (state (base + found)) e))
  pick_best seti (last, none) lt (inr (at, no_unmap, no_inv)) = (
    last,
    omega arith,
    refl,
    λ k lk. omega (
      arith,
      class_most (state (base + last)),
      class_last (state (base + k)) (passed is_unmap seti lt no_unmap k lk)
          (passed is_inv seti lt no_inv k lk),
    ),
  )
  pick_best seti (last, some j) lt (inr (at, no_unmap, (e, small))) = (
    j,
    small,
    rw (passed is_unmap seti lt no_unmap last (omega arith)) refl,
    λ k lk. omega (
      arith,
      class_inv (state (base + j)) e,
      class_least (state (base + k)) (passed is_unmap seti lt no_unmap k lk),
    ),
  )

-- The entry that `findposition` takes is in the set of the address, and no entry of the set would
-- be given up sooner, in the order UNMAP, INV, RO and RW alike, where the comments in the code put RO
-- before RW and save an RW page. If its page is RW the result is -1,
-- and nothing but the replacement's counter has changed; otherwise the result is its index, which
-- the address's page then has as its cache entry, and the entry is UNMAP.
pub findposition_prefers :
    (start scheme random addr : ℕ) (c : Cache)
    → (let base = xor start addr in
        (i : ℕ) × (i < set_pages)
        × ((k : ℕ) → k < set_pages → class (c.state (base + i)) ≤ class (c.state (base + k)))
        × IsTaken start addr
            (c.state (base + i))
            (base + i)
            (replacei start scheme random base c).1
            (findposition start scheme random addr c))
unfolding findposition
findposition_prefers start scheme random addr c =
    let base = xor start addr in
    let r = replacei start scheme random base c in
    let (i, lt, at, best) =
      pick_best start base c.state r.0 (scan start base c.state set_pages r.0 none)
        (replacei_lt start scheme random base c)
        (scan-none start base c.state set_pages r.0 (replacei_lt start scheme random base c)) in
    let j = pick start base c.state (scan start base c.state set_pages r.0 none) in
    let same : r.1.state ≡ c.state = replacei_state start scheme random base c in
    let o = take_entry start (r.1.state j) addr j r.1 in
    (
      i,
      lt,
      best,
      subst (λ a. IsTaken start addr (c.state a) a r.1 o) at
          (subst (λ st. IsTaken start addr (st j) j r.1 o) same
            (take_entry_lem start addr (r.1.state j) j r.1 refl)),
    )
