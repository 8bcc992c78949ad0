-- ===== src/Mem/Invalid/Move.antt =====
-- `migpage` of src/syn/mig.c and the table of a host's home pages.
use jiajia.Prelude.{
  ℕ, ◌<◌, ◌≡◌, ◌≢◌, inl, inr, refl, ap, sym, ◌∙◌, arith, Bool, true, false, ◌&&◌, subst, fun_ext,
  Option, none, some, if◌then◌else◌, ◌==◌, ltb, lt→ltb, update, update_ne, ℕ_discrete, Bool-cases,
}
use jiajia.Constants.{home_pages, max_mem_pages, cache_pages}
use jiajia.Syn.Notices.Pack.{◌>>=◌}
use jiajia.Mem.Cache.{page_index}
use jiajia.Mem.Invalid.{Memory, first_where, new_home, old_home, migpage}
use jiajia.Mem.Invalid.Homes.{
  page_addr, AreHomes, HasHomes, at_same, come_home, leave_home, first_where-finds,
}

module _ (jia_pid start : ℕ) (homepid homei home_addr : ℕ → ℕ) where
  -- A page moves between other hosts.
  pass_by :
      (p to : ℕ)
      → homepid p ≢ jia_pid
      → to ≢ jia_pid
      → AreHomes jia_pid start homepid homei home_addr
      → AreHomes jia_pid start (update homepid p to) homei home_addr
  pass_by p to was will h = record {
    entry_of = λ q lt e. elim (ℕ_discrete q p) [
      | yes same ↦ absurd (will (sym (at_same homepid p to q same) ∙ e))
      | no ne ↦ h.entry_of q lt (sym (update_ne homepid p to q ne) ∙ e)
    ];
    owner_of = λ i lt used.
        let (q, lq, there, here, back) = h.owner_of i lt used in
        let other : q ≢ p = λ z. was (ap homepid (sym z) ∙ here) in
        (q, lq, there, update_ne homepid p to q other ∙ here, back);
  }

  stay_home :
      (p to : ℕ)
      → homepid p ≡ to
      → AreHomes jia_pid start homepid homei home_addr
      → AreHomes jia_pid start (update homepid p to) homei home_addr
  stay_home p to e h =
      subst (λ f. AreHomes jia_pid start f homei home_addr)
        (fun_ext (λ q. elim (ℕ_discrete q p) [
          | yes same ↦ ap homepid same ∙ e ∙ sym (at_same homepid p to q same)
          | no ne ↦ sym (update_ne homepid p to q ne)
        ]))
        h

-- The page is in the cache, and a home entry is free.
abbrev pub CanCome : ℕ → ℕ → Memory → Type 0
CanCome start addr m =
    (m.cache.cachei (page_index start addr) < cache_pages)
    × (m.cache.addr (m.cache.cachei (page_index start addr)) ≡ addr)
    × ((i : ℕ) × (i < home_pages) × (m.home_addr i ≡ 0))

-- The address is that of a shared page.
abbrev pub IsPage : ℕ → ℕ → Type 0
IsPage start addr =
    (page_addr start (page_index start addr) ≡ addr) × (page_index start addr < max_mem_pages)

-- After a page has moved.
abbrev pub Moved : (jia_pid start addr to : ℕ) (m : Memory) → Option Memory → Type 0
Moved jia_pid start addr to m out =
    (m' : Memory) × (out ≡ some m')
    × (m'.homepid ≡ m.homepid)
    × AreHomes jia_pid start (update m.homepid (page_index start addr) to) m'.homei m'.home_addr

guarded : {A : Type 0} → (c : Bool) (x : A) → c ≡ true → (if c then some x else none) ≡ some x
guarded true x e = refl
guarded false x e = ground arith

module _ (jia_pid start addr : ℕ) (m : Memory) (positive : 0 < start) (page : IsPage start addr)
    (homes : HasHomes jia_pid start m) where
  new_home-Moved :
      m.homepid (page_index start addr) ≢ jia_pid
      → CanCome start addr m
      → Moved jia_pid start addr jia_pid m (new_home jia_pid start addr m)
  unfolding new_home
  new_home-Moved away (cached, here, (i, lt, free)) =
      let cachei = m.cache.cachei (page_index start addr) in
      elim (first_where-finds (λ i. m.home_addr i == 0) home_pages 0) [
        | inl (lt', low, zero_, before) ↦
            let homei = first_where (λ i. m.home_addr i == 0) home_pages 0 in
            let fits : (ltb cachei cache_pages
                  && (m.cache.addr cachei == addr && ltb homei home_pages))
                ≡ true =
              rw (lt→ltb cachei cache_pages cached, lt→ltb homei home_pages lt') (ground arith) in
            (
              _,
              guarded _ _ fits,
              refl,
              subst
                  (λ a.
                    AreHomes jia_pid start (update m.homepid (page_index start addr) jia_pid)
                      (update m.homei (page_index start addr) homei) (update m.home_addr homei a))
                  page.0
                  (come_home jia_pid start positive m.homepid m.homei m.home_addr
                    (page_index start addr) homei page.1 away lt' (ground arith) homes),
            )
        | inr (end, none_) ↦ absurd (ground (arith, none_ i (omega arith) lt))
      ]

  old_home-Moved :
      (to : ℕ)
      → m.homepid (page_index start addr) ≡ jia_pid
      → to ≢ jia_pid
      → Moved jia_pid start addr to m (old_home jia_pid start addr m)
  unfolding old_home
  old_home-Moved to here away =
      let (inside, there) = homes.entry_of (page_index start addr) page.1 here in
      let homei = m.homei (page_index start addr) in
      let fits : (ltb homei home_pages && (m.home_addr homei == addr)) ≡ true =
        rw (lt→ltb homei home_pages inside) (let e = there ∙ page.0 in ground arith) in
      (
        _,
        guarded _ _ fits,
        refl,
        leave_home jia_pid start positive m.homepid m.homei m.home_addr (page_index start addr) to
            page.1 here away homes,
      )

  -- The last line of `migpage`.
  abbrev set_homepid : ℕ → Memory → Option Memory
  set_homepid to x = some (record x { homepid = update x.homepid (page_index start addr) to })

  noted :
      (to : ℕ) (out : Option Memory)
      → Moved jia_pid start addr to m out
      → (m' : Memory) × ((out >>= set_homepid to) ≡ some m')
        × HasHomes jia_pid start m'
        × (m'.homepid ≡ update m.homepid (page_index start addr) to)
  noted to out (x, run, same, moved) =
      let new = ap (λ f. update f (page_index start addr) to) same in
      (
        record x { homepid = update x.homepid (page_index start addr) to },
        ap (λ o. o >>= set_homepid to) run,
        subst (λ f. AreHomes jia_pid start f x.homei x.home_addr) (sym new) moved,
        new,
      )

  -- Whichever hosts a page moves between, `migpage` comes back, and the table of the pages that are at
  -- home here stays right: each has an entry with its address, and each entry in use is the entry of its
  -- page; the new home is noted, and no other page's home changes. This if a page that is to come has a
  -- cache entry with its address, and a home entry is free for it.
  pub migpage_keeps_homes :
      (to : ℕ)
      → (to ≡ jia_pid → m.homepid (page_index start addr) ≢ jia_pid → CanCome start addr m)
      → (m' : Memory) × (migpage jia_pid start addr (m.homepid (page_index start addr)) to m
          ≡ some m')
        × HasHomes jia_pid start m'
        × (m'.homepid ≡ update m.homepid (page_index start addr) to)
  unfolding migpage
  migpage_keeps_homes to can =
      let homepid = m.homepid (page_index start addr) in
      elim (Bool-cases (to == jia_pid)) [
        | inl a ↦
            let to_here : to ≡ jia_pid = ground arith in
            elim (Bool-cases (homepid == jia_pid)) [
              | inl b ↦
                  let at_home : homepid ≡ to = ground arith in
                  rw (a, b)
                    (noted to (some m) (
                      m,
                      refl,
                      refl,
                      stay_home jia_pid start m.homepid m.homei m.home_addr (page_index start addr)
                          to at_home homes,
                    ))
              | inr b ↦
                  let away : homepid ≢ jia_pid = λ z. ground arith in
                  let moved : Moved jia_pid start addr to m (new_home jia_pid start addr m) =
                    subst (λ t. Moved jia_pid start addr t m (new_home jia_pid start addr m))
                      (sym to_here) (new_home-Moved away (can to_here away)) in
                  rw (a, b) (noted to (new_home jia_pid start addr m) moved)
            ]
        | inr a ↦
            let elsewhere : to ≢ jia_pid = λ z. ground arith in
            elim (Bool-cases (homepid == jia_pid)) [
              | inl b ↦
                  let here : homepid ≡ jia_pid = ground arith in
                  rw (a, b)
                    (noted to (old_home jia_pid start addr m) (old_home-Moved to here elsewhere))
              | inr b ↦
                  let away : homepid ≢ jia_pid = λ z. ground arith in
                  rw (a, b)
                    (noted to (some m) (
                      m,
                      refl,
                      refl,
                      pass_by jia_pid start m.homepid m.homei m.home_addr (page_index start addr) to
                          away elsewhere homes,
                    ))
            ]
      ]
