-- ===== src/Mem/Cache.antt =====
-- The page cache of a host: `xor`, `flushpage`, `replacei` and `findposition` of src/mem/memsyn.c.
pub mod Classes
pub mod Choice
mod Tests
use jiajia.Prelude.{
  ℕ, zero, suc, ◌+◌, ◌-◌, ◌*◌, ◌/◌, ◌%◌, ◌^◌, Bool, true, false, ◌&&◌, not, Option, none, some,
  if◌then◌else◌, ◌==◌, update,
}
use jiajia.Constants.{page_size, cache_pages}

-- pagestate_t
pub data PageState : Type 0 where
  unmap inv ro rw_ : PageState

-- The columns of `cache` but for `twin`, which `freetwin` leaves alone (RESERVE_TWIN_SPACE is defined),
-- the column `cachei` of `page`, `repcnt`, and which pages are mapped.
pub record Cache : Type 0 where
  pub state : ℕ → PageState
  pub addr : ℕ → ℕ
  pub wtnt : ℕ → ℕ
  pub cachei : ℕ → ℕ
  pub repcnt : ℕ → ℕ
  pub mapped : ℕ → Bool

abbrev pub set_num : ℕ
set_num = 1

abbrev pub set_pages : ℕ
set_pages = 1024

abbrev pub is_unmap : PageState → Bool
is_unmap unmap = true
is_unmap inv = false
is_unmap ro = false
is_unmap rw_ = false

abbrev pub is_inv : PageState → Bool
is_inv unmap = false
is_inv inv = true
is_inv ro = false
is_inv rw_ = false

abbrev pub is_rw : PageState → Bool
is_rw unmap = false
is_rw inv = false
is_rw ro = false
is_rw rw_ = true

-- `start` is global_start_addr.
module _ (start : ℕ) where
  abbrev pub page_index : ℕ → ℕ
  page_index addr = (addr - start) / page_size

  -- The first entry of the page's set.
  abbrev pub xor : ℕ → ℕ
  xor addr = page_index addr % set_num * set_pages

  unfoldable pub flushpage : ℕ → Cache → Cache
  flushpage i c = record c {
    mapped = update c.mapped (page_index (c.addr i)) false;
    cachei = update c.cachei (page_index (c.addr i)) cache_pages;
    state = update c.state i unmap;
    wtnt = update c.wtnt i 0;
    addr = update c.addr i 0;
  }

  -- REPSCHEME is the first argument, what `random() >> 8` gives the second.
  unfoldable pub replacei : ℕ → ℕ → ℕ → Cache → ℕ × Cache
  replacei scheme random cachei c =
      if scheme == 0
      then (random % set_pages, c)
      else (let seti = cachei / set_pages in
          let n = (c.repcnt seti + 1) % set_pages in
          (n, record c { repcnt = update c.repcnt seti n }))

  -- The loop, for n more entries of the set that starts at `base`; `invi` is -1 as none.
  unfoldable pub scan : ℕ → (ℕ → PageState) → ℕ → ℕ → Option ℕ → ℕ × Option ℕ
  scan base state zero seti invi = (seti, invi)
  scan base state (suc n) seti invi =
      let seen : Option ℕ = elim invi [
        | some i ↦ some i
        | none ↦ if is_inv (state (base + seti)) then some seti else none
      ] in
      let rest = scan base state n ((seti + 1) % set_pages) seen in
      if is_unmap (state (base + seti)) then (seti, invi) else rest

  -- The entry is taken, by its state: an INV or RO page is flushed; `none` is the result -1 for an RW
  -- page.
  unfoldable pub take_entry : PageState → ℕ → ℕ → Cache → Option ℕ × Cache
  take_entry unmap addr i c = (some i, record c { cachei = update c.cachei (page_index addr) i })
  take_entry inv addr i c =
      let c' = flushpage i c in
      (some i, record c' { cachei = update c'.cachei (page_index addr) i })
  take_entry ro addr i c =
      let c' = flushpage i c in
      (some i, record c' { cachei = update c'.cachei (page_index addr) i })
  take_entry rw_ addr i c = (none, c)

  abbrev pub pick : ℕ → (ℕ → PageState) → ℕ × Option ℕ → ℕ
  pick base state (seti, none) = base + seti
  pick base state (seti, some invi) =
      if is_unmap (state (base + seti)) then base + seti else base + invi

  unfoldable pub findposition : ℕ → ℕ → ℕ → Cache → Option ℕ × Cache
  findposition scheme random addr c =
      let base = xor addr in
      let r = replacei scheme random base c in
      let i = pick base c.state (scan base c.state set_pages r.0 none) in
      take_entry (r.1.state i) addr i r.1
