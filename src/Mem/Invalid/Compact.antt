-- ===== src/Mem/Invalid/Compact.antt =====
-- `migarrangehome` of src/syn/mig.c puts the home pages at the front of their table.
use jiajia.Prelude.{
  ℕ, zero, suc, ◌+◌, ◌-◌, ◌*◌, ◌≤◌, ◌<◌, ◌≡◌, ◌≢◌, inl, inr, refl, ap, sym, ◌∙◌, subst, arith, true,
  false, not, min, ◌==◌, ltb, lt→ltb, ℕ_discrete, Bool-cases,
}
use jiajia.Constants.{home_pages, page_size}
use jiajia.Mem.Invalid.{Memory, first_where, move_home, arrange_loop, migarrangehome}
use jiajia.Mem.Invalid.Homes.{HasHomes, first_where-finds}
use jiajia.Mem.Invalid.Arrange.{
  Keeps, Keeps-refl, Keeps-trans, move_home-HasHomes, move_home-Keeps, moved_addr-first,
  moved_addr-other,
}

-- The first k entries are in use, and no other.
abbrev pub IsCompact : ℕ → Memory → Type 0
IsCompact k m =
    (k ≤ home_pages)
    × ((x : ℕ) → x < k → m.home_addr x ≢ 0)
    × ((x : ℕ) → k ≤ x → x < home_pages → m.home_addr x ≡ 0)

module _ (jia_pid start : ℕ) (positive : 0 < start) where
  -- The loop's result, and the index at its end.
  abbrev Arranged : Memory → Memory × ℕ → Type 0
  Arranged m out =
      HasHomes jia_pid start out.0
      × Keeps jia_pid m out.0
      × ((k : ℕ) × IsCompact k out.0 × (out.1 - 1 ≡ min k (home_pages - 1)))

  after : (m n : Memory) (out : Memory × ℕ) → Keeps jia_pid m n → Arranged n out → Arranged m out
  after m n out keeps (homes, more, compact) =
      (homes, Keeps-trans jia_pid m n out.0 keeps more, compact)

  loop_moves :
      (n i : ℕ) (m : Memory)
      → (m.home_addr i == 0) ≡ true
      → ltb (first_where (λ j. not (m.home_addr j == 0)) n (i + 1)) home_pages ≡ true
      → arrange_loop jia_pid start (suc n) i m
        ≡ arrange_loop jia_pid start n
            (i + 1)
            (move_home jia_pid start i (first_where (λ j. not (m.home_addr j == 0)) n (i + 1)) m)
  unfolding arrange_loop
  loop_moves n i m e f = rw (e, f) refl

  loop_ends :
      (n i : ℕ) (m : Memory)
      → (m.home_addr i == 0) ≡ true
      → ltb (first_where (λ j. not (m.home_addr j == 0)) n (i + 1)) home_pages ≡ false
      → arrange_loop jia_pid start (suc n) i m ≡ (m, i + 1)
  unfolding arrange_loop
  loop_ends n i m e f = rw (e, f) refl

  loop_passes :
      (n i : ℕ) (m : Memory)
      → (m.home_addr i == 0) ≡ false
      → arrange_loop jia_pid start (suc n) i m ≡ arrange_loop jia_pid start n (i + 1) m
  unfolding arrange_loop
  loop_passes n i m e = rw e refl

  one_more :
      (m : Memory) (i : ℕ)
      → ((x : ℕ) → x < i → m.home_addr x ≢ 0)
      → m.home_addr i ≢ 0
      → (x : ℕ) → x < i + 1
      → m.home_addr x ≢ 0
  one_more m i front here x lt = elim (ℕ_discrete x i) [
    | yes same ↦ λ z. here (ap m.home_addr (sym same) ∙ z)
    | no ne ↦ front x (omega arith)
  ]

  arrange_loop-Arranged :
      (n i : ℕ) (m : Memory)
      → i + n ≡ home_pages
      → HasHomes jia_pid start m
      → ((x : ℕ) → x < i → m.home_addr x ≢ 0)
      → Arranged m (arrange_loop jia_pid start n i m)
  unfolding arrange_loop
  arrange_loop-Arranged zero i m end homes front = (
    homes,
    Keeps-refl jia_pid m,
    (i, (omega arith, front, λ x a b. absurd (omega arith)), omega arith),
  )
  arrange_loop-Arranged (suc n) i m end homes front =
      let j = first_where (λ j. not (m.home_addr j == 0)) n (i + 1) in
      elim (Bool-cases (m.home_addr i == 0)) [
        | inl e ↦
            let free : m.home_addr i ≡ 0 = ground arith in
            elim (first_where-finds (λ j. not (m.home_addr j == 0)) n (i + 1)) [
              | inl (lt, le, yes_, before) ↦
                  let below : i < home_pages = omega arith in
                  let inside : j < home_pages = omega arith in
                  let apart : i ≢ j = λ z. omega arith in
                  let used : m.home_addr j ≢ 0 = λ z. ground arith in
                  let next = move_home jia_pid start i j m in
                  let other : (x : ℕ) → x < i → next.home_addr x ≢ 0 = λ x lx z. front x lx (
                    sym (
                      moved_addr-other jia_pid start positive m i j below inside apart free used
                        homes x (λ w. omega arith) (λ w. omega arith))
                    ∙ z) in
                  let here : next.home_addr i ≢ 0 = λ z. used (
                    sym (
                      moved_addr-first jia_pid start positive m i j below inside apart free used
                        homes)
                    ∙ z) in
                  subst (Arranged m) (sym (loop_moves n i m e (lt→ltb j home_pages inside))) (
                    after m next _
                      (move_home-Keeps jia_pid start positive m i j below inside apart free used
                        homes)
                      (arrange_loop-Arranged n (i + 1) next (omega arith)
                        (move_home-HasHomes jia_pid start positive m i j below inside apart free
                          used homes)
                        (one_more next i other here)))
              | inr (all, none_) ↦
                  let out : ltb j home_pages ≡ false = ground arith in
                  subst (Arranged m) (sym (loop_ends n i m e out)) (
                    homes,
                    Keeps-refl jia_pid m,
                    (
                      i,
                      (
                        omega arith,
                        front,
                        λ x a b. elim (ℕ_discrete x i) [
                          | yes same ↦ ap m.home_addr same ∙ free
                          | no ne ↦ let z = none_ x (omega arith) (omega arith) in ground arith
                        ],
                      ),
                      omega arith,
                    ),
                  )
            ]
        | inr e ↦ subst (Arranged m) (sym (loop_passes n i m e)) (
            arrange_loop-Arranged n (i + 1) m (omega arith) homes
              (one_more m i front (λ z. ground arith)))
      ]

  -- `migarrangehome` keeps the table of the pages at home right, moves each page's flags with it, and puts
  -- the entries in use to the front. `homesize` is then the bytes of these k pages; but if the table is full
  -- it is a page too few.
  pub migarrangehome_compacts :
      (m : Memory)
      → HasHomes jia_pid start m
      → (let (m', homesize) = migarrangehome jia_pid start m in
          HasHomes jia_pid start m'
          × Keeps jia_pid m m'
          × ((k : ℕ) × IsCompact k m' × (homesize ≡ min k (home_pages - 1) * page_size)))
  unfolding migarrangehome
  migarrangehome_compacts m homes =
      let (kept, keeps, (k, compact, end)) =
        arrange_loop-Arranged home_pages 0 m refl homes (λ x lt. absurd (omega arith)) in
      (kept, keeps, (k, compact, ap (λ n. n * page_size) end))
