-- ===== src/Mem/Fetch/Choose.antt =====
-- Which pages a GETPGRANT message carries.
use jiajia.Prelude.{
  ℕ, zero, suc, ◌+◌, ◌-◌, ◌^◌, ◌≤◌, ◌<◌, ◌≡◌, refl, ap, sym, ◌∙◌, Bool, true, false, List, [], ◌∷◌,
  if◌then◌else◌, ◌==◌, ltb, take, arith, Bool-cases, inl, inr,
}
use jiajia.Constants.{page_size}
use jiajia.Mem.Cache.{page_index}
use jiajia.Mem.Fetch.{Host, set_rdnt, prefetch_loop, pages_granted}

-- An address that `memcpy` can read, in 64 bits.
abbrev pub IsPointer : ℕ → Type 0
IsPointer a = (0 < a) × (a < 2 ^ 64)

-- The pages of the n from paddr on that are at home at `h`.
abbrev pub at_home : (start h : ℕ) → (ℕ → ℕ) → ℕ → ℕ → List ℕ
at_home start h homepid zero paddr = []
at_home start h homepid (suc n) paddr =
    let rest = at_home start h homepid n (paddr + page_size) in
    if homepid (page_index start paddr) == h then paddr ∷ rest else rest

-- The home with `rdnt` set for the pages.
abbrev pub noted : ℕ → List ℕ → Host → Host
noted start [] s = s
noted start (a ∷ rest) s = noted start rest (set_rdnt start a s)

module _ (start h prefetch_pages max_checking_pages : ℕ) where
  -- With room for k + 1 more pages.
  prefetch_loop-take :
      (n paddr num k : ℕ) (s : Host)
      → num + k + 1 ≡ prefetch_pages + 1
      → num + n ≤ max_checking_pages + 1
      → (prefetch_loop start h prefetch_pages max_checking_pages n paddr num s).0
        ≡ take (suc k) (at_home start h s.pages.homepid n paddr)
  unfolding prefetch_loop
  prefetch_loop-take zero paddr num k s le room = refl
  prefetch_loop-take (suc n) paddr num zero s le room =
      let go : ltb num (max_checking_pages + 1) ≡ true = ground arith in
      let last : (num + 1 == prefetch_pages + 1) ≡ true = ground arith in
      elim (Bool-cases (s.pages.homepid (page_index start paddr) == h)) [
        | inl e ↦ rw (go, e, last)
        | inr e ↦ rw (go, e) (prefetch_loop-take n (paddr + page_size) num zero s le (omega arith))
      ]
  prefetch_loop-take (suc n) paddr num (suc k) s le room =
      let go : ltb num (max_checking_pages + 1) ≡ true = ground arith in
      let more : (num + 1 == prefetch_pages + 1) ≡ false = ground arith in
      elim (Bool-cases (s.pages.homepid (page_index start paddr) == h)) [
        | inl e ↦
            rw (go, e, more)
              (ap (paddr ∷◌) (
                prefetch_loop-take n (paddr + page_size) (num + 1) k (set_rdnt start paddr s)
                  (omega arith) (omega arith)))
        | inr e ↦
            rw (go, e) (prefetch_loop-take n (paddr + page_size) num (suc k) s le (omega arith))
      ]

  -- The pages of a reply: the one asked for, and the first `prefetch_pages` of the next
  -- `max_checking_pages` that are at home here.
  abbrev pub more_pages : Bool → (ℕ → ℕ) → ℕ → List ℕ
  more_pages flag homepid addr =
      if flag
      then take prefetch_pages (at_home start h homepid max_checking_pages (addr + page_size))
      else []

  abbrev pub reply_pages : Bool → (ℕ → ℕ) → ℕ → List ℕ
  reply_pages flag homepid addr = addr ∷ more_pages flag homepid addr

  pub granted_lem :
      (flag : Bool) (addr : ℕ) (s : Host)
      → (pages_granted start h prefetch_pages max_checking_pages flag addr s).0
        ≡ reply_pages flag s.pages.homepid addr
  unfolding pages_granted
  granted_lem false addr s = refl
  granted_lem true addr s = elim (Bool-cases (prefetch_pages == 0)) [
    | inl e ↦ let none : prefetch_pages ≡ 0 = ground arith in rw none
    | inr e ↦
        let pred : prefetch_pages ≡ suc (prefetch_pages - 1) = ground arith in
        rw e (
          ap (addr ∷◌) (
            prefetch_loop-take max_checking_pages (addr + page_size) 1 (prefetch_pages - 1)
              (set_rdnt start addr s) (ground arith) (omega arith)
            ∙ ap
                (λ k.
                  take k (at_home start h s.pages.homepid max_checking_pages (addr + page_size)))
                (sym pred)))
  ]

  prefetch_loop-noted :
      (n paddr num : ℕ) (s : Host)
      → (prefetch_loop start h prefetch_pages max_checking_pages n paddr num s).1
        ≡ noted start (prefetch_loop start h prefetch_pages max_checking_pages n paddr num s).0 s
  unfolding prefetch_loop
  prefetch_loop-noted zero paddr num s = refl
  prefetch_loop-noted (suc n) paddr num s = elim (Bool-cases (ltb num (max_checking_pages + 1))) [
    | inr e ↦ rw e
    | inl e ↦ elim (Bool-cases (s.pages.homepid (page_index start paddr) == h)) [
      | inr other ↦ rw (e, other) (prefetch_loop-noted n (paddr + page_size) num s)
      | inl here ↦ elim (Bool-cases (num + 1 == prefetch_pages + 1)) [
        | inl last ↦ rw (e, here, last)
        | inr more ↦
            rw (e, here, more)
              (prefetch_loop-noted n (paddr + page_size) (num + 1) (set_rdnt start paddr s))
      ]
    ]
  ]

  pub granted-noted :
      (flag : Bool) (addr : ℕ) (s : Host)
      → (pages_granted start h prefetch_pages max_checking_pages flag addr s).1
        ≡ noted start (pages_granted start h prefetch_pages max_checking_pages flag addr s).0 s
  unfolding pages_granted
  granted-noted false addr s = refl
  granted-noted true addr s = elim (Bool-cases (prefetch_pages == 0)) [
    | inl e ↦ rw e
    | inr e ↦
        rw e (prefetch_loop-noted max_checking_pages (addr + page_size) 1 (set_rdnt start addr s))
  ]
