-- ===== src/Syn/Interval/Ending.antt =====
-- Step 3 of `endinterval` of src/syn/syn.c: the write notices of the home pages. The write vectors
-- (W_VEC) are off.
use jiajia.Prelude.{
  ℕ, zero, suc, ◌+◌, ◌≤◌, ◌<◌, ◌≡◌, ◌≢◌, refl, ap, ◌∙◌, arith, Bool, false, ◌&&◌, ◌||◌, not, [],
  ◌∷◌, if◌then◌else◌, ◌==◌, update, update_self, update_ne, bit_and, Bool-cases, inl, inr,
  ℕ_discrete,
}
use jiajia.Constants.{max_hosts}
use jiajia.Syn.Notices.{
  Notice, Chain, page_of, in_node, in_chain, change_chain, add_notice, savewtnt, notices,
}
use jiajia.Syn.Notices.Laws.{
  IsPacked, Distinct, savewtnt_keeps, in_node-append, in_node-page, in_node-change_node,
}

-- The columns of `home` that the loop reads and writes, and `top.wtntp`.
pub record Ending : Type 0 where
  pub home_addr : ℕ → ℕ
  pub home_wtnt : ℕ → ℕ
  pub home_rdnt : ℕ → ℕ
  pub wtntp : Chain

-- This host has written the home page, and others have copies of it.
abbrev pub is_noted : Ending → ℕ → Bool
is_noted s i = not (bit_and (s.home_wtnt i) 1 == 0) && not (s.home_rdnt i == 0)

module _ (jia_pid : ℕ) (at_barrier : Bool) where
  abbrev pub note_home : ℕ → Ending → Ending
  note_home i s =
      if is_noted s i
      then record s {
        home_rdnt = if at_barrier then update s.home_rdnt i 0 else s.home_rdnt;
        wtntp = savewtnt s.wtntp (s.home_addr i) 0 jia_pid max_hosts;
      }
      else s

  -- The loop over the n home pages from i on.
  unfoldable pub note_homes : ℕ → ℕ → Ending → Ending
  note_homes zero i s = s
  note_homes (suc n) i s = note_homes n (i + 1) (note_home i s)

in_change_chain :
    (b addr mig scope : ℕ) (c : Chain) → in_chain b (change_chain addr mig scope c) ≡ in_chain b c
unfolding in_chain change_chain
in_change_chain b addr mig scope [] = refl
in_change_chain b addr mig scope (node ∷ more) =
    ground (arith, in_node-change_node addr mig scope b node, in_change_chain b addr mig scope more)

in_add_notice :
    (b : ℕ) (n : Notice) (c : Chain)
    → in_chain b (add_notice n c) ≡ (in_chain b c || page_of b == page_of n.addr)
unfolding in_chain add_notice in_node
in_add_notice b n [] = ground arith
in_add_notice b n (node ∷ more) =
    ground (arith, in_add_notice b n more, in_node-append b node (n ∷ []))

in_same_page : (a b : ℕ) (c : Chain) → page_of b ≡ page_of a → in_chain b c ≡ in_chain a c
unfolding in_chain
in_same_page a b [] e = refl
in_same_page a b (node ∷ more) e = rw (in_node-page b a node e, in_same_page a b more e) refl

in_savewtnt :
    (b : ℕ) (c : Chain) (addr mig frompid scope : ℕ)
    → in_chain b (savewtnt c addr mig frompid scope) ≡ (in_chain b c || page_of b == page_of addr)
unfolding savewtnt
in_savewtnt b c addr mig frompid scope = ground (
  arith,
  in_change_chain b addr mig scope c,
  in_same_page addr b c,
  in_add_notice b (record { addr = addr; from = frompid; scope = scope; mig = mig }) c,
)

-- Is the address in one of the n home pages from i on that are noted?
unfoldable pub any_noted : Ending → ℕ → ℕ → ℕ → Bool
any_noted s b zero i = false
any_noted s b (suc n) i =
    (is_noted s i && page_of b == page_of (s.home_addr i)) || any_noted s b n (i + 1)

any_noted_ext :
    (s t : Ending) (b n i : ℕ)
    → s.home_addr ≡ t.home_addr
    → ((j : ℕ) → i ≤ j → is_noted s j ≡ is_noted t j)
    → any_noted s b n i ≡ any_noted t b n i
unfolding any_noted
any_noted_ext s t b zero i addrs same = refl
any_noted_ext s t b (suc n) i addrs same =
    rw
      (
        same i (omega arith),
        ap (λ f. f i) addrs,
        any_noted_ext s t b n (i + 1) addrs (λ j le. same j (omega arith)),
      )
      refl

module _ (jia_pid : ℕ) (at_barrier : Bool) where
  note_home-others :
      (i j : ℕ) (s : Ending)
      → j ≢ i
      → (note_home jia_pid at_barrier i s).home_rdnt j ≡ s.home_rdnt j
  note_home-others i j s ne = elim (Bool-cases (is_noted s i)) [
    | inl e ↦ rw e (elim (Bool-cases at_barrier) [
      | inl f ↦ rw f (update_ne s.home_rdnt i 0 j ne)
      | inr f ↦ rw f refl
    ])
    | inr e ↦ rw e refl
  ]

  note_home-rdnt :
      (i : ℕ) (s : Ending)
      → (note_home jia_pid at_barrier i s).home_rdnt i
        ≡ (if at_barrier && is_noted s i then 0 else s.home_rdnt i)
  note_home-rdnt i s = elim (Bool-cases at_barrier) [
    | inl f ↦ elim (Bool-cases (is_noted s i)) [
      | inl e ↦ rw (e, f) (update_self s.home_rdnt i 0)
      | inr e ↦ rw (e, f) refl
    ]
    | inr f ↦ elim (Bool-cases (is_noted s i)) [ inl e ↦ rw (e, f) refl | inr e ↦ rw (e, f) refl ]
  ]

  note_home-wtnt : (i : ℕ) (s : Ending) → (note_home jia_pid at_barrier i s).home_wtnt ≡ s.home_wtnt
  note_home-wtnt i s = elim (Bool-cases (is_noted s i)) [ inl e ↦ rw e refl | inr e ↦ rw e refl ]

  note_home-addr : (i : ℕ) (s : Ending) → (note_home jia_pid at_barrier i s).home_addr ≡ s.home_addr
  note_home-addr i s = elim (Bool-cases (is_noted s i)) [ inl e ↦ rw e refl | inr e ↦ rw e refl ]

  note_home-chain :
      (i b : ℕ) (s : Ending)
      → in_chain b (note_home jia_pid at_barrier i s).wtntp
        ≡ (in_chain b s.wtntp || (is_noted s i && page_of b == page_of (s.home_addr i)))
  note_home-chain i b s = elim (Bool-cases (is_noted s i)) [
    | inl e ↦ rw e (in_savewtnt b s.wtntp (s.home_addr i) 0 jia_pid max_hosts)
    | inr e ↦ rw e (ground arith)
  ]

  note_home-kept :
      (i : ℕ) (s : Ending)
      → IsPacked s.wtntp
      → Distinct (notices s.wtntp)
      → (let s' = note_home jia_pid at_barrier i s in
          IsPacked s'.wtntp × Distinct (notices s'.wtntp))
  note_home-kept i s h d = elim (Bool-cases (is_noted s i)) [
    | inl e ↦ rw e (savewtnt_keeps s.wtntp (s.home_addr i) 0 jia_pid max_hosts h d)
    | inr e ↦ rw e (h, d)
  ]

  -- A page that the loop comes to later is noted or not as before.
  note_home-later :
      (i j : ℕ) (s : Ending)
      → i + 1 ≤ j
      → is_noted (note_home jia_pid at_barrier i s) j ≡ is_noted s j
  note_home-later i j s le =
      let same = note_home-others i j s (λ z. absurd (omega arith)) in
      rw (note_home-wtnt i s, same) refl

  note_homes-rdnt :
      (n i j : ℕ) (s : Ending)
      → j < i
      → (note_homes jia_pid at_barrier n i s).home_rdnt j ≡ s.home_rdnt j
  unfolding note_homes
  note_homes-rdnt zero i j s lt = refl
  note_homes-rdnt (suc n) i j s lt =
      note_homes-rdnt n (i + 1) j (note_home jia_pid at_barrier i s) (omega arith)
      ∙ note_home-others i j s (λ z. absurd (omega arith))

  note_homes_clears :
      (n i j : ℕ) (s : Ending)
      → i ≤ j
      → j < i + n
      → (note_homes jia_pid at_barrier n i s).home_rdnt j
        ≡ (if at_barrier && is_noted s j then 0 else s.home_rdnt j)
  unfolding note_homes
  note_homes_clears zero i j s le lt = absurd (omega arith)
  note_homes_clears (suc n) i j s le lt = elim (ℕ_discrete j i) [
    | yes e ↦ rw e (
        note_homes-rdnt n (i + 1) i (note_home jia_pid at_barrier i s) (omega arith)
        ∙ note_home-rdnt i s)
    | no ne ↦
        note_homes_clears n (i + 1) j (note_home jia_pid at_barrier i s) (omega arith) (omega arith)
        ∙ rw (note_home-later i j s (omega arith), note_home-others i j s ne) refl
  ]

  note_homes-chain :
      (n i b : ℕ) (s : Ending)
      → in_chain b (note_homes jia_pid at_barrier n i s).wtntp
        ≡ (in_chain b s.wtntp || any_noted s b n i)
  unfolding note_homes any_noted
  note_homes-chain zero i b s = ground arith
  note_homes-chain (suc n) i b s =
      let rest =
        any_noted_ext (note_home jia_pid at_barrier i s) s b n (i + 1) (note_home-addr i s)
          (λ j le. note_home-later i j s le) in
      note_homes-chain n (i + 1) b (note_home jia_pid at_barrier i s)
      ∙ rw (note_home-chain i b s, rest) (ground arith)

  note_homes-kept :
      (n i : ℕ) (s : Ending)
      → IsPacked s.wtntp
      → Distinct (notices s.wtntp)
      → (let s' = note_homes jia_pid at_barrier n i s in
          IsPacked s'.wtntp × Distinct (notices s'.wtntp))
  unfolding note_homes
  note_homes-kept zero i s h d = (h, d)
  note_homes-kept (suc n) i s h d =
      let (h', d') = note_home-kept i s h d in
      note_homes-kept n (i + 1) (note_home jia_pid at_barrier i s) h' d'

  -- At the end of an interval the pages with a write notice in the top of the stack are those that had
  -- one, and the home pages that this host has written and of which others have copies; at a barrier the
  -- copies of these home pages are forgotten, and otherwise none are. The chain keeps one notice for a
  -- page at most, in full nodes but for the last.
  pub endinterval_notes :
      (hpages b j : ℕ) (s : Ending)
      → IsPacked s.wtntp
      → Distinct (notices s.wtntp)
      → j < hpages
      → (let s' = note_homes jia_pid at_barrier hpages 0 s in
          (in_chain b s'.wtntp ≡ (in_chain b s.wtntp || any_noted s b hpages 0))
          × (s'.home_rdnt j ≡ (if at_barrier && is_noted s j then 0 else s.home_rdnt j))
          × IsPacked s'.wtntp
          × Distinct (notices s'.wtntp))
  endinterval_notes hpages b j s h d lt =
      let (packed, distinct) = note_homes-kept hpages 0 s h d in
      (
        note_homes-chain hpages 0 b s,
        note_homes_clears hpages 0 j s (omega arith) (omega arith),
        packed,
        distinct,
      )
