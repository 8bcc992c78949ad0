-- ===== src/Mem/Fetch/Round.antt =====
-- A page fault at a page of another host, without prefetching.
use jiajia.Prelude.{
  ℕ, ◌+◌, ◌-◌, ◌≤◌, ◌<◌, ◌≡◌, ◌≢◌, ◌⊎◌, inl, inr, refl, ap, ◌∙◌, Bool, true, false, ◌&&◌, some, [],
  ◌∷◌, if◌then◌else◌, ◌==◌, ltb, leb, arith, update, Bool-cases,
}
use jiajia.Constants.{page_size, cache_pages}
use jiajia.Mem.Diff.{Bytes, slice, copy}
use jiajia.Mem.Diff.Copy.{copy-slice}
use jiajia.Mem.Cache.{PageState, unmap, inv, ro, rw_, Cache, page_index, take_entry, findposition}
use jiajia.Mem.Fetch.{
  Host, with_cache, is_ro, set_rdnt, map_page, getpage, enter_cache, mark_entry, fault_begin,
  fault_end, fault_round,
}
use jiajia.Mem.Fetch.Choose.{IsPointer}
use jiajia.Mem.Fetch.Serve.{page_request, fetched, getp_installs}

take_entry-cachei :
    (start addr j : ℕ) (st : PageState) (c : Cache) (i : ℕ) (c' : Cache)
    → take_entry start st addr j c ≡ (some i, c')
    → c'.cachei (page_index start addr) ≡ i
unfolding take_entry
take_entry-cachei start addr j unmap c i c' e = ground arith
take_entry-cachei start addr j inv c i c' e = ground arith
take_entry-cachei start addr j ro c i c' e = ground arith
take_entry-cachei start addr j rw_ c i c' e = ground arith

module _ (start jia_pid scheme random addr : ℕ) (writefault : Bool) (s : Host) where
  -- The entry that a fault uses: that of the page, or one that `findposition` gives. A write to a page
  -- that is cached and RO needs no message.
  abbrev pub UsesEntry : ℕ → Type 0
  UsesEntry i =
      ((s.pages.cache.cachei (page_index start addr) ≡ i)
        × (i < cache_pages)
        × ((writefault && is_ro (s.pages.cache.state i)) ≡ false))
      ⊎ ((cache_pages ≤ s.pages.cache.cachei (page_index start addr))
          × (c : Cache) × (findposition start scheme random addr s.pages.cache ≡ (some i, c)))

  record Entered (h i : ℕ) : Type 0 where
    temp : ℕ
    after : Host
    enters :
        enter_cache start jia_pid scheme random addr writefault s
        ≡ some (i, page_request jia_pid h addr temp ∷ [], after)
    same_mem : after.mem ≡ s.mem
    same_twin : after.twin ≡ s.twin
    is_entry : after.pages.cache.cachei (page_index start addr) ≡ i

  UsesEntry-Entered :
      (h i : ℕ) → s.pages.homepid (page_index start addr) ≡ h → UsesEntry i → Entered h i
  unfolding enter_cache getpage map_page
  UsesEntry-Entered h i at (inl (e, lt, needs)) = record {
    temp = 1;
    after = record s { getpwait = 1 };
    enters =
        let cached : ltb (s.pages.cache.cachei (page_index start addr)) cache_pages ≡ true =
          ground arith in
        rw (cached, e, needs, at);
    same_mem = refl;
    same_twin = refl;
    is_entry = e;
  }
  UsesEntry-Entered h i at (inr (far, c, found)) = record {
    temp = 0;
    after =
        record (with_cache (record c { mapped = update c.mapped (page_index start addr) true }) s) {
          getpwait = 1;
        };
    enters =
        let missing : ltb (s.pages.cache.cachei (page_index start addr)) cache_pages ≡ false =
          ground arith in
        rw (missing, found, at);
    same_mem = refl;
    same_twin = refl;
    is_entry = unfold findposition in take_entry-cachei start addr _ _ _ i c found;
  }

  fault_begin-some :
      (globaladdr h i : ℕ) (n : Entered h i)
      → start ≤ addr
      → addr < start + globaladdr
      → s.pages.homepid (page_index start addr) ≡ h
      → h ≢ jia_pid
      → fault_begin start jia_pid scheme random globaladdr addr writefault s
        ≡ some
            (some i, page_request jia_pid h addr n.temp ∷ [], mark_entry addr writefault i n.after)
  unfolding fault_begin
  fault_begin-some globaladdr h i n lo hi at other =
      let inside : ltb addr (start + globaladdr) && leb start addr ≡ true = ground arith in
      let away : (s.pages.homepid (page_index start addr) == jia_pid) ≡ false = ground arith in
      rw (inside, away, n.enters)

-- The host `after`, which waits with entry i, with the page from memory `mem`, at the end.
abbrev at_end : (start scheme : ℕ) → (ℕ → ℕ) → (addr i : ℕ) → Bytes → Host → Bool → Host
at_end start scheme random addr i mem after writefault =
    let got = fetched start scheme random addr mem [] (mark_entry addr writefault i after) in
    if writefault then record got { twin = update got.twin i (λ o. got.mem (addr + o)) } else got

copied_page :
    (mem before : Bytes) (addr x : ℕ)
    → copy before addr (slice mem addr page_size) x
      ≡ (if leb addr x && ltb x (addr + page_size) then mem x else before x)
copied_page mem before addr x = elim (Bool-cases (leb addr x && ltb x (addr + page_size))) [
  | inl e ↦
      let back : addr + (x - addr) ≡ x = ground arith in
      rw (copy-slice before mem addr addr page_size x, e, back)
  | inr e ↦ rw (copy-slice before mem addr addr page_size x, e)
]

module _ (start scheme : ℕ) (random : ℕ → ℕ) (addr i : ℕ) (mem : Bytes) (after s : Host) where
  at_end_lem :
      (writefault : Bool)
      → after.mem ≡ s.mem
      → after.twin ≡ s.twin
      → after.pages.cache.cachei (page_index start addr) ≡ i
      → (let s' = at_end start scheme random addr i mem after writefault in
          ((x : ℕ) → s'.mem x ≡ (if leb addr x && ltb x (addr + page_size) then mem x else s.mem x))
          × (s'.pages.cache.cachei (page_index start addr) ≡ i)
          × (s'.pages.cache.addr i ≡ addr)
          × (s'.pages.cache.state i ≡ (if writefault then rw_ else ro))
          × ((o : ℕ) → s'.twin i o ≡ (if writefault then s'.mem (addr + o) else s.twin i o))
          × ((if writefault then s'.pages.cache.wtnt i else 1) ≡ 1))
  unfolding mark_entry
  at_end_lem true m t e =
      let self : (i == i) ≡ true = ground arith in
      (
        λ x. ap (λ b. copy b addr (slice mem addr page_size) x) m ∙ copied_page mem s.mem addr x,
        e,
        rw self,
        rw self,
        λ o. rw self,
        rw self,
      )
  at_end_lem false m t e =
      let self : (i == i) ≡ true = ground arith in
      (
        λ x. ap (λ b. copy b addr (slice mem addr page_size) x) m ∙ copied_page mem s.mem addr x,
        e,
        rw self,
        rw self,
        λ o. ap (λ f. f i o) t,
        refl,
      )

module _ (start h prefetch_pages max_checking_pages scheme : ℕ) (random : ℕ → ℕ)
    (h_mig : Bool) where
  -- A fault at a page of another host, below the end of the shared space, with prefetching off: the
  -- handler comes back, and the host has the bytes of the page as the home has them, and no other byte
  -- of its memory is changed; the page's cache entry is the one that was chosen, with the page's
  -- address, RW after a write fault and RO after another; a write fault makes the page's copy as the
  -- entry's twin and leaves a write notice to come; the home notes that a copy is out. This if the page
  -- is cached and has to be fetched, or not cached and `findposition` finds an entry, and if both hosts
  -- agree where the page's home is.
  pub fault_fetches :
      (globaladdr jia_pid addr : ℕ) (writefault : Bool) (home s : Host) (i : ℕ)
      → start ≤ addr
      → addr < start + globaladdr
      → IsPointer addr
      → prefetch_pages ≤ 8
      → s.pages.homepid (page_index start addr) ≡ h
      → home.pages.homepid (page_index start addr) ≡ h
      → h ≢ jia_pid
      → UsesEntry start jia_pid scheme (random 0) addr writefault s i
      → (s' : Host) × (fault_round start h prefetch_pages max_checking_pages scheme random h_mig
            false globaladdr jia_pid addr writefault home s
          ≡ some (set_rdnt start addr home, s'))
        × (((x : ℕ)
              → s'.mem x ≡ (if leb addr x && ltb x (addr + page_size) then home.mem x else s.mem x))
            × (s'.pages.cache.cachei (page_index start addr) ≡ i)
            × (s'.pages.cache.addr i ≡ addr)
            × (s'.pages.cache.state i ≡ (if writefault then rw_ else ro))
            × ((o : ℕ) → s'.twin i o ≡ (if writefault then s'.mem (addr + o) else s.twin i o))
            × ((if writefault then s'.pages.cache.wtnt i else 1) ≡ 1))
  unfolding fault_round fault_end
  fault_fetches globaladdr jia_pid addr writefault home s i lo hi p few at at' other uses =
      let n = UsesEntry-Entered start jia_pid scheme (random 0) addr writefault s h i at uses in
      (
        at_end start scheme random addr i home.mem n.after writefault,
        rw (
          fault_begin-some start jia_pid scheme (random 0) addr writefault s globaladdr h i n lo hi
              at other,
          getp_installs start jia_pid h prefetch_pages max_checking_pages scheme random h_mig false
              addr n.temp home (mark_entry addr writefault i n.after) at' few (p, tt),
        ),
        at_end_lem start scheme random addr i home.mem n.after s writefault n.same_mem n.same_twin
            n.is_entry,
      )
