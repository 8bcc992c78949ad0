-- ===== src/Mem/Invalid/Homes.antt =====
-- The table of a host's home pages, in which the pages move of `migpage` of src/syn/mig.c.
use jiajia.Prelude.{
  ℕ, zero, suc, ◌+◌, ◌*◌, ◌≤◌, ◌<◌, ◌≡◌, ◌≢◌, ◌⊎◌, inl, inr, ap, sym, ◌∙◌, arith, Bool, true, false,
  update, update_self, update_ne, ℕ_discrete, Bool-cases,
}
use jiajia.Constants.{home_pages, max_mem_pages, page_size}
use jiajia.Mem.Cache.{page_index}
use jiajia.Mem.Invalid.{Memory, first_where}

module _ (start : ℕ) where
  abbrev pub page_addr : ℕ → ℕ
  page_addr p = start + p * page_size

  pub page_index_lem : (p : ℕ) → page_index start (page_addr p) ≡ p
  page_index_lem p = omega arith

pub at_same : (f : ℕ → ℕ) (i v j : ℕ) → j ≡ i → update f i v j ≡ v
at_same f i v j e = ground arith

-- Each page that is at home here has its entry, and each entry that is in use is that of a page at home.
pub record AreHomes (jia_pid start : ℕ) (homepid homei home_addr : ℕ → ℕ) : Type 0 where
  pub entry_of :
      (p : ℕ)
      → p < max_mem_pages
      → homepid p ≡ jia_pid
      → (homei p < home_pages) × (home_addr (homei p) ≡ page_addr start p)
  pub owner_of :
      (i : ℕ)
      → i < home_pages
      → home_addr i ≢ 0
      → (p : ℕ) × (p < max_mem_pages)
        × (home_addr i ≡ page_addr start p)
        × (homepid p ≡ jia_pid)
        × (homei p ≡ i)

abbrev pub HasHomes : ℕ → ℕ → Memory → Type 0
HasHomes jia_pid start m = AreHomes jia_pid start m.homepid m.homei m.home_addr

module _ (jia_pid start : ℕ) (positive : 0 < start) (homepid homei home_addr : ℕ → ℕ) where
  -- A page comes to a free entry.
  pub come_home :
      (p j : ℕ)
      → p < max_mem_pages
      → homepid p ≢ jia_pid
      → j < home_pages
      → home_addr j ≡ 0
      → AreHomes jia_pid start homepid homei home_addr
      → AreHomes jia_pid start
          (update homepid p jia_pid)
          (update homei p j)
          (update home_addr j (page_addr start p))
  come_home p j below away lt free h = record {
    entry_of = λ q lt' e. elim (ℕ_discrete q p) [
      | yes same ↦
          rw (at_same homei p j q same, update_self home_addr j (page_addr start p))
            (lt, ap (page_addr start) (sym same))
      | no ne ↦
          let (inside, there) = h.entry_of q lt' (sym (update_ne homepid p jia_pid q ne) ∙ e) in
          let other : homei q ≢ j =
            λ z. absurd (omega (arith, sym there ∙ ap home_addr z ∙ free)) in
          rw (update_ne homei p j q ne)
            (inside, update_ne home_addr j (page_addr start p) (homei q) other ∙ there)
    ];
    owner_of = λ i lt' used. elim (ℕ_discrete i j) [
      | yes same ↦ (
        p,
        below,
        at_same home_addr j _ i same,
        update_self homepid p jia_pid,
        update_self homei p j ∙ sym same,
      )
      | no ne ↦
          let (q, lq, there, here, back) =
            h.owner_of i lt' (λ z. used (update_ne home_addr j _ i ne ∙ z)) in
          let other : q ≢ p = λ z. away (ap homepid (sym z) ∙ here) in
          (
            q,
            lq,
            update_ne home_addr j _ i ne ∙ there,
            update_ne homepid p jia_pid q other ∙ here,
            update_ne homei p j q other ∙ back,
          )
    ];
  }

  -- A page leaves.
  pub leave_home :
      (p to : ℕ)
      → p < max_mem_pages
      → homepid p ≡ jia_pid
      → to ≢ jia_pid
      → AreHomes jia_pid start homepid homei home_addr
      → AreHomes jia_pid start
          (update homepid p to)
          (update homei p home_pages)
          (update home_addr (homei p) 0)
  leave_home p to below here away h = record {
    entry_of = λ q lt' e. elim (ℕ_discrete q p) [
      | yes same ↦ absurd (away (sym (at_same homepid p to q same) ∙ e))
      | no ne ↦
          let (inside, there) = h.entry_of q lt' (sym (update_ne homepid p to q ne) ∙ e) in
          let (_, mine) = h.entry_of p below here in
          let other : homei q ≢ homei p =
            λ z. ne (omega (arith, sym there ∙ ap home_addr z ∙ mine)) in
          rw (update_ne homei p home_pages q ne)
            (inside, update_ne home_addr (homei p) 0 (homei q) other ∙ there)
    ];
    owner_of = λ i lt' used. elim (ℕ_discrete i (homei p)) [
      | yes same ↦ absurd (used (at_same home_addr (homei p) 0 i same))
      | no ne ↦
          let (q, lq, there, at, back) =
            h.owner_of i lt' (λ z. used (update_ne home_addr (homei p) 0 i ne ∙ z)) in
          let other : q ≢ p = λ z. ne (sym back ∙ ap homei z) in
          (
            q,
            lq,
            update_ne home_addr (homei p) 0 i ne ∙ there,
            update_ne homepid p to q other ∙ at,
            update_ne homei p home_pages q other ∙ back,
          )
    ];
  }

pub first_where-finds :
    (p : ℕ → Bool) (n i : ℕ)
    → ((first_where p n i < i + n)
        × (i ≤ first_where p n i)
        × (p (first_where p n i) ≡ true)
        × ((j : ℕ) → i ≤ j → j < first_where p n i → p j ≡ false))
      ⊎ ((first_where p n i ≡ i + n) × ((j : ℕ) → i ≤ j → j < i + n → p j ≡ false))
unfolding first_where
first_where-finds p zero i = inr (omega arith, λ j low high. absurd (omega arith))
first_where-finds p (suc n) i = elim (Bool-cases (p i)) [
  | inl e ↦ inl (rw e (omega arith, omega arith, e, λ j low high. absurd (omega arith)))
  | inr e ↦ elim (first_where-finds p n (i + 1)) [
    | inl (lt, le, yes_, before) ↦ inl (
        rw e (
          omega arith,
          omega arith,
          yes_,
          λ j low high. elim (ℕ_discrete j i) [
            | yes same ↦ rw same e
            | no ne ↦ before j (omega arith) high
          ],
        ))
    | inr (end, none_) ↦ inr (
      rw e (omega arith),
      λ j low high. elim (ℕ_discrete j i) [
        | yes same ↦ rw same e
        | no ne ↦ none_ j (omega arith) (omega arith)
      ],
    )
  ]
]
