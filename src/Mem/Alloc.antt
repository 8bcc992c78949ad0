-- ===== src/Mem/Alloc.antt =====
-- The shared memory's allocation, src/mem/memuser.c, on one host: which host is each page's home, and
-- which entry of the home array it has there.
pub mod Blocks
pub mod Places
mod Tests
use jiajia.Prelude.{
  ℕ, zero, suc, ◌+◌, ◌-◌, ◌*◌, ◌/◌, ◌%◌, ◌^◌, Bool, true, false, Option, none, some, if◌then◌else◌,
  ◌==◌, ltb, leb, update,
}
use jiajia.Constants.{page_size, max_mem_size, home_pages}
use jiajia.Syn.Notices.Pack.{◌>>=◌}

-- `globaladdr`, `hosts[].homesize`, and the columns of `page` and `home` that are written.
pub record Space : Type 0 where
  pub globaladdr : ℕ
  pub homesize : ℕ → ℕ
  pub homepid : ℕ → ℕ
  pub homei : ℕ → ℕ
  pub home_addr : ℕ → ℕ

-- ALIGN2PAGE
abbrev pub align_to_page : ℕ → ℕ
align_to_page size = if size % page_size == 0 then size else (size / page_size + 1) * page_size

-- `int originaddr = globaladdr`, added to an unsigned long.
abbrev pub address_of : ℕ → ℕ → ℕ
address_of start globaladdr =
    let low = globaladdr % 2 ^ 32 in
    (start + (if ltb low (2 ^ 31) then low else low + (2 ^ 64 - 2 ^ 32))) % 2 ^ 64

-- The loop over the pages of a block that sets `home` and `page[].homei`, i pages from the first.
unfoldable pub set_homes : (start homesize : ℕ) → ℕ → ℕ → Space → Space
set_homes start homesize zero i s = s
set_homes start homesize (suc n) i s =
    let pagei = (s.globaladdr + i * page_size) / page_size in
    let homei = (homesize + i * page_size) / page_size in
    set_homes start homesize n (i + 1) (record s {
      home_addr = update s.home_addr homei (start + s.globaladdr + i * page_size);
      homei = update s.homei pagei homei;
    })

-- The loop that sets `page[].homepid`.
unfoldable pub set_homepids : ℕ → ℕ → ℕ → ℕ → (ℕ → ℕ) → ℕ → ℕ
set_homepids globaladdr homepid zero i t = t
set_homepids globaladdr homepid (suc n) i t =
    set_homepids globaladdr homepid n (i + 1)
      (update t ((globaladdr + i * page_size) / page_size) homepid)

-- What every host notes of a block; s' is s, with the pages that are the host's own.
abbrev pub add_block : ℕ → ℕ → Space → Space → Space
add_block mapsize homepid s s' = record s' {
  homepid = set_homepids s.globaladdr homepid (mapsize / page_size) 0 s'.homepid;
  homesize = update s'.homesize homepid (s.homesize homepid + mapsize);
  globaladdr = s.globaladdr + mapsize;
}

module _ (jia_pid hostc start : ℕ) where
  -- The body of the loop of `jia_alloc3` and `jia_alloc4`, for one block: the assertion of the home's
  -- own room is `none`.
  unfoldable pub map_block : ℕ → ℕ → Space → Option Space
  map_block mapsize homepid s =
      let size = s.homesize homepid in
      let n = mapsize / page_size in
      if jia_pid == homepid
      then (if ltb (size + mapsize) (home_pages * page_size)
          then some (add_block mapsize homepid s (set_homes start size n 0 s))
          else none)
      else some (add_block mapsize homepid s s)

  -- The loops, with fuel for the rounds; `none` is also a loop that the fuel does not finish.
  unfoldable pub alloc3_loop : ℕ → (mapsize homepid allocsize : ℕ) → Space → Option Space
  alloc3_loop zero mapsize homepid allocsize s = none
  alloc3_loop (suc f) mapsize homepid allocsize s = elim (ltb 0 allocsize) [
    | false ↦ some s
    | true ↦ do
      s' ← map_block mapsize homepid s
      alloc3_loop f mapsize ((homepid + 1) % hostc) (allocsize - mapsize) s'
  ]

  unfoldable pub jia_alloc3 : ℕ → (totalsize blocksize starthost : ℕ) → Space → Option (ℕ × Space)
  jia_alloc3 fuel totalsize blocksize starthost s =
      if leb (s.globaladdr + totalsize) max_mem_size
      then alloc3_loop fuel (align_to_page blocksize) starthost (align_to_page totalsize) s
        >>= (λ s'. some (address_of start s.globaladdr, s'))
      else none

  unfoldable pub alloc4_loop :
      ℕ → (blocks : ℕ → ℕ) → (n blocki homepid allocsize : ℕ) → Space → Option Space
  alloc4_loop zero blocks n blocki homepid allocsize s = none
  alloc4_loop (suc f) blocks n blocki homepid allocsize s =
      let mapsize = align_to_page (blocks blocki) in
      let next = (homepid + 1) % hostc in
      elim (ltb 0 allocsize) [
        | false ↦ some s
        | true ↦ do
          s' ← map_block mapsize homepid s
          alloc4_loop f blocks n (if next == 0 then (blocki + 1) % n else blocki) next
              (allocsize - mapsize) s'
      ]

  unfoldable pub jia_alloc4 : ℕ → ℕ → (ℕ → ℕ) → (n starthost : ℕ) → Space → Option (ℕ × Space)
  jia_alloc4 fuel totalsize blocks n starthost s =
      if leb (s.globaladdr + totalsize) max_mem_size
      then alloc4_loop fuel blocks n 0 starthost (align_to_page totalsize) s
        >>= (λ s'. some (address_of start s.globaladdr, s'))
      else none

  -- `jia_alloc`, with its static variable, -1 at first as 2^32 - 1; `jia_alloc2` and `jia_alloc2p`.
  unfoldable pub jia_alloc : ℕ → ℕ → ℕ → Space → Option (ℕ × ℕ × Space)
  jia_alloc fuel totalsize starthost s =
      let next = ((starthost + 1) % 2 ^ 32) % hostc in
      jia_alloc3 fuel totalsize totalsize next s >>= (λ r. some (next, r.0, r.1))

  unfoldable pub jia_alloc2 : ℕ → ℕ → ℕ → Space → Option (ℕ × Space)
  jia_alloc2 fuel size block s = jia_alloc3 fuel size block 0 s

  unfoldable pub jia_alloc2p : ℕ → ℕ → ℕ → Space → Option (ℕ × Space)
  jia_alloc2p fuel totalsize starthost s = jia_alloc3 fuel totalsize totalsize starthost s
