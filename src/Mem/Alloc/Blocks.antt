-- ===== src/Mem/Alloc/Blocks.antt =====
-- What a block of pages is after a round of `jia_alloc3` or `jia_alloc4` of src/mem/memuser.c.
use jiajia.Prelude.{
  ℕ, zero, suc, ◌+◌, ◌*◌, ◌/◌, ◌≤◌, ◌<◌, ◌≡◌, refl, ap, ◌∙◌, subst, arith, true, some, ◌==◌, ltb,
  update, update_self, update_ne, update_each, Bool-cases, inl, inr, ◌⊎◌,
}
use jiajia.Constants.{page_size, home_pages}
use jiajia.Mem.Alloc.{Space, set_homes, set_homepids, add_block, map_block}

-- The columns of the page table that `set_homes` leaves alone.
set_homes-rest :
    (start homesize n i : ℕ) (s : Space)
    → ((set_homes start homesize n i s).globaladdr ≡ s.globaladdr)
      × ((set_homes start homesize n i s).homesize ≡ s.homesize)
      × ((set_homes start homesize n i s).homepid ≡ s.homepid)
unfolding set_homes
set_homes-rest start homesize zero i s = (refl, refl, refl)
set_homes-rest start homesize (suc n) i s = set_homes-rest start homesize n (i + 1) _

pageno : (pg i : ℕ) → (pg * page_size + i * page_size) / page_size ≡ pg + i
pageno pg i = omega arith

module _ (pg homepid : ℕ) where
  set_homepids-out :
      (n i : ℕ) (t : ℕ → ℕ) (j : ℕ)
      → (j < pg + i) ⊎ (pg + i + n ≤ j)
      → set_homepids (pg * page_size) homepid n i t j ≡ t j
  unfolding set_homepids
  set_homepids-out zero i t j h = refl
  set_homepids-out (suc n) i t j h =
      set_homepids-out n (i + 1) _ j (omega arith)
      ∙ update_ne t _ homepid j (omega (arith, pageno pg i))

  set_homepids-in :
      (n i : ℕ) (t : ℕ → ℕ) (j : ℕ)
      → pg + i ≤ j
      → j < pg + i + n
      → set_homepids (pg * page_size) homepid n i t j ≡ homepid
  unfolding set_homepids
  set_homepids-in zero i t j low high = omega arith
  set_homepids-in (suc n) i t j low high = elim (Bool-cases (j == pg + i)) [
    | inl e ↦
        set_homepids-out n (i + 1) _ j (ground arith)
        ∙ (let at : j ≡ (pg * page_size + i * page_size) / page_size =
              ground (arith, pageno pg i) in
            subst (λ k. update t k homepid j ≡ homepid) at (update_self t j homepid))
    | inr e ↦ set_homepids-in n (i + 1) _ j (ground arith) (omega arith)
  ]

-- A block of m pages is mapped wherever there is room for it.
pub record Mapped (s s' : Space) (pg m homepid : ℕ) : Type 0 where
  pub at : s'.globaladdr ≡ (pg + m) * page_size
  pub sizes : (p : ℕ) → s'.homesize p ≤ s.homesize p + m * page_size
  pub mapped : (i : ℕ) → i < m → s'.homepid (pg + i) ≡ homepid
  pub before : (j : ℕ) → j < pg → s'.homepid j ≡ s.homepid j
  pub after : (j : ℕ) → pg + m ≤ j → s'.homepid j ≡ s.homepid j

add_block-Mapped :
    (pg m homepid : ℕ) (s s' : Space)
    → s.globaladdr ≡ pg * page_size
    → s'.homesize ≡ s.homesize
    → s'.homepid ≡ s.homepid
    → Mapped s (add_block (m * page_size) homepid s s') pg m homepid
add_block-Mapped pg m homepid s s' at sizes pids =
    let whole : m * page_size / page_size ≡ m = omega arith in
    record {
      at = omega (arith, at);
      sizes =
          update_each (λ p n. n ≤ s.homesize p + m * page_size) s'.homesize homepid _ (omega arith)
            (λ p ne.
              let e : s'.homesize p ≡ s.homesize p = ap (λ f. f p) sizes in omega (arith, e));
      mapped = λ i lt.
          rw (at, whole)
            (set_homepids-in pg homepid m 0 s'.homepid (pg + i) (omega arith) (omega arith));
      before = λ j lt.
          rw (at, whole)
            (set_homepids-out pg homepid m 0 s'.homepid j (omega arith) ∙ ap (λ f. f j) pids);
      after = λ j le.
          rw (at, whole)
            (set_homepids-out pg homepid m 0 s'.homepid j (omega arith) ∙ ap (λ f. f j) pids);
    }

pub map_block-some :
    (jia_pid hostc start pg m homepid : ℕ) (s : Space)
    → s.globaladdr ≡ pg * page_size
    → s.homesize homepid + m * page_size < home_pages * page_size
    → (s' : Space) × (map_block jia_pid hostc start (m * page_size) homepid s ≡ some s')
      × Mapped s s' pg m homepid
unfolding map_block
map_block-some jia_pid hostc start pg m homepid s at room =
    let fits : ltb (s.homesize homepid + m * page_size) (home_pages * page_size) ≡ true =
      ground arith in
    let homed = set_homes start (s.homesize homepid) (m * page_size / page_size) 0 s in
    let (_, sizes, pids) =
      set_homes-rest start (s.homesize homepid) (m * page_size / page_size) 0 s in
    elim (Bool-cases (jia_pid == homepid)) [
      | inl e ↦ (
        add_block (m * page_size) homepid s homed,
        rw (e, fits) refl,
        add_block-Mapped pg m homepid s homed at sizes pids,
      )
      | inr e ↦ (
        add_block (m * page_size) homepid s s,
        rw e refl,
        add_block-Mapped pg m homepid s s at refl refl,
      )
    ]
