-- ===== src/Mem/Invalid/Arrange.antt =====
-- What `migarrangehome` of src/syn/mig.c does to one entry of the table of home pages.
use jiajia.Prelude.{
  ℕ, ◌<◌, ◌≡◌, ◌≢◌, refl, ap, sym, ◌∙◌, arith, update, update_self, update_ne, ℕ_discrete,
}
use jiajia.Constants.{home_pages, max_mem_pages}
use jiajia.Mem.Cache.{page_index}
use jiajia.Mem.Invalid.{Memory, move_home}
use jiajia.Mem.Invalid.Homes.{page_addr, page_index_lem, HasHomes, at_same}

-- What the pages at home keep: their hosts' flags, wherever their entries are.
pub record Keeps (jia_pid : ℕ) (m m' : Memory) : Type 0 where
  pub same_home : m'.homepid ≡ m.homepid
  pub flags :
      (q : ℕ)
      → q < max_mem_pages
      → m.homepid q ≡ jia_pid
      → (m'.home_wtnt (m'.homei q) ≡ m.home_wtnt (m.homei q))
        × (m'.home_rdnt (m'.homei q) ≡ m.home_rdnt (m.homei q))

pub Keeps-refl : (jia_pid : ℕ) (m : Memory) → Keeps jia_pid m m
Keeps-refl jia_pid m = record { same_home = refl; flags = λ q lt e. (refl, refl) }

pub Keeps-trans :
    (jia_pid : ℕ) (a b c : Memory) → Keeps jia_pid a b → Keeps jia_pid b c → Keeps jia_pid a c
Keeps-trans jia_pid a b c x y = record {
  same_home = y.same_home ∙ x.same_home;
  flags = λ q lt e.
      let (w, r) = x.flags q lt e in
      let (w', r') = y.flags q lt (ap (λ f. f q) x.same_home ∙ e) in (w' ∙ w, r' ∙ r);
}

-- The page of the entry j goes to the entry i.
module _ (jia_pid start : ℕ) (positive : 0 < start) (m : Memory) (i j : ℕ) (lt : i < home_pages)
    (lt' : j < home_pages) (apart : i ≢ j) (free : m.home_addr i ≡ 0) (used : m.home_addr j ≢ 0)
    (homes : HasHomes jia_pid start m) where
  abbrev pub moved_addr : ℕ → ℕ
  moved_addr = update (update m.home_addr i (m.home_addr j)) j 0

  pub moved_addr-first : moved_addr i ≡ m.home_addr j
  moved_addr-first =
      update_ne (update m.home_addr i (m.home_addr j)) j 0 i apart
      ∙ update_self m.home_addr i (m.home_addr j)

  pub moved_addr-other : (x : ℕ) → x ≢ i → x ≢ j → moved_addr x ≡ m.home_addr x
  moved_addr-other x a b =
      update_ne (update m.home_addr i (m.home_addr j)) j 0 x b
      ∙ update_ne m.home_addr i (m.home_addr j) x a

  -- The entry of another page is neither.
  elsewhere :
      (p q : ℕ)
      → m.home_addr j ≡ page_addr start p
      → q ≢ p
      → m.home_addr (m.homei q) ≡ page_addr start q
      → (m.homei q ≢ i) × (m.homei q ≢ j)
  elsewhere p q there ne its = (
    λ z. absurd (omega (arith, sym its ∙ ap m.home_addr z ∙ free)),
    λ z. ne (omega (arith, sym its ∙ ap m.home_addr z ∙ there)),
  )

  pub move_home-HasHomes : HasHomes jia_pid start (move_home jia_pid start i j m)
  move_home-HasHomes =
      let (p, below, there, here, back) = homes.owner_of j lt' used in
      let index : page_index start (m.home_addr j) ≡ p =
        ap (page_index start) there ∙ page_index_lem start p in
      rw index (record {
        entry_of = λ q lq e. elim (ℕ_discrete q p) [
          | yes same ↦
              rw (at_same m.homei p i q same)
                (lt, moved_addr-first ∙ there ∙ ap (page_addr start) (sym same))
          | no ne ↦
              let (inside, its) = homes.entry_of q lq e in
              let (a, b) = elsewhere p q there ne its in
              rw (update_ne m.homei p i q ne) (inside, moved_addr-other (m.homei q) a b ∙ its)
        ];
        owner_of = λ x lx taken. elim (ℕ_discrete x i) [
          | yes same ↦ (
            p,
            below,
            ap moved_addr same ∙ moved_addr-first ∙ there,
            here,
            update_self m.homei p i ∙ sym same,
          )
          | no ne ↦
              let b : x ≢ j = λ z. taken (at_same (update m.home_addr i (m.home_addr j)) j 0 x z) in
              let (q, lq, its, at, entry) =
                homes.owner_of x lx (λ z. taken (moved_addr-other x ne b ∙ z)) in
              let other : q ≢ p = λ z. b (sym entry ∙ ap m.homei z ∙ back) in
              (q, lq, moved_addr-other x ne b ∙ its, at, update_ne m.homei p i q other ∙ entry)
        ];
      })

  pub move_home-Keeps : Keeps jia_pid m (move_home jia_pid start i j m)
  move_home-Keeps =
      let (p, below, there, here, back) = homes.owner_of j lt' used in
      let index : page_index start (m.home_addr j) ≡ p =
        ap (page_index start) there ∙ page_index_lem start p in
      rw index (record {
        same_home = refl;
        flags = λ q lq e. elim (ℕ_discrete q p) [
          | yes same ↦
              let entry = ap m.homei same ∙ back in
              rw (at_same m.homei p i q same, entry)
                (update_self m.home_wtnt i _, update_self m.home_rdnt i _)
          | no ne ↦
              let (inside, its) = homes.entry_of q lq e in
              let (a, b) = elsewhere p q there ne its in
              rw (update_ne m.homei p i q ne)
                (update_ne m.home_wtnt i _ _ a, update_ne m.home_rdnt i _ _ a)
        ];
      })
