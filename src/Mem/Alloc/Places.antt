-- ===== src/Mem/Alloc/Places.antt =====
-- Where `jia_alloc3` and `jia_alloc4` of src/mem/memuser.c place the pages.
use jiajia.Prelude.{
  ℕ, zero, suc, ◌+◌, ◌-◌, ◌*◌, ◌%◌, ◌^◌, ◌≤◌, ◌<◌, ◌≡◌, refl, ap, ◌∙◌, arith, true, false, Option,
  some, ltb, ltb→lt, leb, Bool-cases, inl, inr, if◌then◌else◌, dec_lt,
}
use native.Mathlib.Nat.{suc-mul}
use jiajia.Constants.{page_size, max_mem_size, home_pages}
use jiajia.Syn.Notices.Pack.{◌>>=◌}
use jiajia.Mem.Alloc.{Space, align_to_page, address_of, map_block, alloc3_loop, jia_alloc3}
use jiajia.Mem.Alloc.Blocks.{map_block-some}

-- From page pg on, n blocks of m pages each are at the hosts from homepid on, in turn.
abbrev pub Placed : (hostc : ℕ) → (ℕ → ℕ) → (pg m homepid n : ℕ) → Type 0
Placed hostc t pg m homepid zero = Unit
Placed hostc t pg m homepid (suc n) =
    ((i : ℕ) → i < m → t (pg + i) ≡ homepid) × Placed hostc t (pg + m) m ((homepid + 1) % hostc) n

loop_more :
    (jia_pid hostc start f mapsize homepid allocsize : ℕ) (s s₁ : Space)
    → ltb 0 allocsize ≡ true
    → map_block jia_pid hostc start mapsize homepid s ≡ some s₁
    → alloc3_loop jia_pid hostc start (suc f) mapsize homepid allocsize s
      ≡ alloc3_loop jia_pid hostc start f mapsize ((homepid + 1) % hostc) (allocsize - mapsize) s₁
unfolding alloc3_loop
loop_more jia_pid hostc start f mapsize homepid allocsize s s₁ e run =
    let rest : Space → Option Space =
      alloc3_loop jia_pid hostc start f mapsize ((homepid + 1) % hostc) (allocsize - mapsize) in
    ap
      (λ b. elim b [
        | false ↦ some s
        | true ↦ map_block jia_pid hostc start mapsize homepid s >>= rest
      ])
      e
    ∙ ap (λ o. o >>= rest) run

loop_done :
    (jia_pid hostc start f mapsize homepid allocsize : ℕ) (s : Space)
    → ltb 0 allocsize ≡ false
    → alloc3_loop jia_pid hostc start (suc f) mapsize homepid allocsize s ≡ some s
unfolding alloc3_loop
loop_done jia_pid hostc start f mapsize homepid allocsize s e =
    let rest : Space → Option Space =
      alloc3_loop jia_pid hostc start f mapsize ((homepid + 1) % hostc) (allocsize - mapsize) in
    ap
      (λ b. elim b [
        | false ↦ some s
        | true ↦ map_block jia_pid hostc start mapsize homepid s >>= rest
      ])
      e

-- The number of blocks of mapsize bytes that the loop maps.
abbrev block_count : (f mapsize allocsize : ℕ) → ℕ
block_count zero mapsize allocsize = 0
block_count (suc f) mapsize allocsize =
    let rest = block_count f mapsize (allocsize - mapsize) in
    if ltb 0 allocsize then suc rest else 0

-- The space s' after n blocks of m pages, from page pg on, in s.
pub record Allocated (hostc : ℕ) (s s' : Space) (pg m homepid n : ℕ) : Type 0 where
  pub at : s'.globaladdr ≡ (pg + n * m) * page_size
  pub placed : Placed hostc s'.homepid pg m homepid n
  pub before : (j : ℕ) → j < pg → s'.homepid j ≡ s.homepid j
  pub after : (j : ℕ) → pg + n * m ≤ j → s'.homepid j ≡ s.homepid j

block_count-bounds :
    (f m allocsize : ℕ)
    → 0 < m
    → allocsize < f
    → (let n = block_count f (m * page_size) allocsize in
        (allocsize ≤ n * m * page_size)
        × (n * m * page_size < allocsize + m * page_size)
        × (allocsize ≡ 0 → n ≡ 0))
block_count-bounds zero m allocsize pos fuel = let bad : ⊥ = omega arith in elim bad [ ]
block_count-bounds (suc f) m allocsize pos fuel = elim (Bool-cases (ltb 0 allocsize)) [
  | inl e ↦
      let more : 0 < allocsize = ltb→lt 0 allocsize e in
      let rest = block_count f (m * page_size) (allocsize - m * page_size) in
      let (low, high, none_left) =
        block_count-bounds f m (allocsize - m * page_size) pos (omega arith) in
      rw e (
        omega (arith, suc-mul rest m, low),
        elim (dec_lt allocsize (m * page_size)) [
          | yes lt ↦
              let last : rest ≡ 0 = none_left (omega arith) in
              let last_pages : rest * m ≡ 0 = rw last (omega arith) in
              omega (arith, suc-mul rest m, last_pages)
          | no ge ↦ omega (arith, suc-mul rest m, high)
        ],
        λ z. absurd (omega arith),
      )
  | inr e ↦ rw e (ground arith, omega arith, λ z. refl)
]

-- The loop maps blocks until the size is reached, one round for each, and no other page.
loop-Allocated :
    (jia_pid hostc start f pg m homepid allocsize : ℕ) (s : Space)
    → 0 < m
    → s.globaladdr ≡ pg * page_size
    → (0 < allocsize → (p : ℕ) → s.homesize p + allocsize + m * page_size < home_pages * page_size)
    → allocsize < f
    → (s' : Space) × (alloc3_loop jia_pid hostc start f (m * page_size) homepid allocsize s
        ≡ some s')
      × Allocated hostc s s' pg m homepid (block_count f (m * page_size) allocsize)
unfolding alloc3_loop
loop-Allocated jia_pid hostc start zero pg m homepid allocsize s pos at room fuel =
    let bad : ⊥ = omega arith in elim bad [ ]
loop-Allocated jia_pid hostc start (suc f) pg m homepid allocsize s pos at room fuel =
    elim (Bool-cases (ltb 0 allocsize)) [
      | inl e ↦
          let more : 0 < allocsize = ltb→lt 0 allocsize e in
          let n = block_count f (m * page_size) (allocsize - m * page_size) in
          let (s₁, run, mapped) =
            map_block-some jia_pid hostc start pg m homepid s at
              (omega (arith, room more homepid)) in
          let (s', run', rest) =
            loop-Allocated jia_pid hostc start f (pg + m) m ((homepid + 1) % hostc)
              (allocsize - m * page_size) s₁ pos mapped.at
              (λ left p. omega (arith, mapped.sizes p, room more p)) (omega arith) in
          (
            s',
            loop_more jia_pid hostc start f (m * page_size) homepid allocsize s s₁ e run ∙ run',
            rw e (record {
              at = omega (arith, suc-mul n m, rest.at);
              placed =
                  (λ i lt. rest.before (pg + i) (omega arith) ∙ mapped.mapped i lt, rest.placed);
              before = λ j lt. rest.before j (omega arith) ∙ mapped.before j lt;
              after = λ j le.
                  rest.after j (omega (arith, suc-mul n m, le))
                  ∙ mapped.after j (omega (arith, suc-mul n m, le));
            }),
          )
      | inr e ↦ (
        s,
        loop_done jia_pid hostc start f (m * page_size) homepid allocsize s e,
        rw e (record {
          at = at ∙ omega arith;
          placed = tt;
          before = λ j lt. refl;
          after = λ j le. refl;
        }),
      )
    ]

-- `jia_alloc3` on one host.
jia_alloc3-Allocated :
    (jia_pid hostc start fuel totalsize blocksize starthost pg m : ℕ) (s : Space)
    → align_to_page blocksize ≡ m * page_size
    → 0 < m
    → s.globaladdr ≡ pg * page_size
    → s.globaladdr + totalsize ≤ max_mem_size
    → ((p : ℕ) → s.homesize p + align_to_page totalsize + m * page_size < home_pages * page_size)
    → align_to_page totalsize < fuel
    → s.globaladdr < 2 ^ 31
    → start + s.globaladdr < 2 ^ 64
    → (s' : Space) × (jia_alloc3 jia_pid hostc start fuel totalsize blocksize starthost s
        ≡ some (start + s.globaladdr, s'))
      × Allocated hostc s s' pg m starthost
          (block_count fuel (m * page_size) (align_to_page totalsize))
unfolding jia_alloc3
jia_alloc3-Allocated jia_pid hostc start fuel totalsize blocksize starthost pg m s block pos at
      space room enough low high =
    let (s', run, allocated) =
      loop-Allocated jia_pid hostc start fuel pg m starthost (align_to_page totalsize) s pos at
        (λ _. room) enough in
    let fits : leb (s.globaladdr + totalsize) max_mem_size ≡ true = ground arith in
    let address : address_of start s.globaladdr ≡ start + s.globaladdr = ground arith in
    (s', rw (fits, block, run) (ap (λ a. some (a, s')) address), allocated)

-- `jia_alloc3` of a positive block on the hosts, each with its own space, where on every host the space
-- allocated ends at the same page border, Maxmemsize and every home have room, and the fuel is above the
-- aligned size, succeeds on every host. There is one number n of whole blocks, the least that holds the
-- aligned size, that every host maps: at starthost and the hosts after it in turn, from the same page on.
-- No host changes the home of a page before or behind the blocks. Below 2 GiB of allocated memory the
-- address that it returns is where the blocks start.
pub jia_alloc3_places :
    (hostc start fuel totalsize blocksize starthost pg m : ℕ) (spaces : ℕ → Space)
    → align_to_page blocksize ≡ m * page_size
    → 0 < m
    → ((jia_pid : ℕ) → (spaces jia_pid).globaladdr ≡ pg * page_size)
    → pg * page_size + totalsize ≤ max_mem_size
    → ((jia_pid p : ℕ)
        → (spaces jia_pid).homesize p + align_to_page totalsize + m * page_size
          < home_pages * page_size)
    → align_to_page totalsize < fuel
    → pg * page_size < 2 ^ 31
    → start + pg * page_size < 2 ^ 64
    → (n : ℕ) × (align_to_page totalsize ≤ n * m * page_size)
      × (n * m * page_size < align_to_page totalsize + m * page_size)
      × ((jia_pid : ℕ)
          → (s' : Space) × (jia_alloc3 jia_pid hostc start fuel totalsize blocksize starthost
                (spaces jia_pid)
              ≡ some (start + pg * page_size, s'))
            × Allocated hostc (spaces jia_pid) s' pg m starthost n)
jia_alloc3_places hostc start fuel totalsize blocksize starthost pg m spaces block pos at space room
      enough low high =
    let (holds, least, _) = block_count-bounds fuel m (align_to_page totalsize) pos enough in
    (
      block_count fuel (m * page_size) (align_to_page totalsize),
      holds,
      least,
      λ jia_pid.
          let (s', run, allocated) =
            jia_alloc3-Allocated jia_pid hostc start fuel totalsize blocksize starthost pg m
              (spaces jia_pid) block pos (at jia_pid) (omega (arith, at jia_pid)) (room jia_pid)
              enough (omega (arith, at jia_pid)) (omega (arith, at jia_pid)) in
          (s', run ∙ ap (λ g. some (start + g, s')) (at jia_pid), allocated),
    )
