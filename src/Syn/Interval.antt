-- ===== src/Syn/Interval.antt =====
-- `startinterval` of src/syn/syn.c: which pages may be written in the interval to come, and which are noted
-- as written. The write vectors (W_VEC) are off.
pub mod Bytes
pub mod Noted
pub mod Ending
mod Tests
use jiajia.Prelude.{
  ℕ, zero, suc, ◌+◌, ◌*◌, ◌/◌, ◌%◌, ◌≤◌, ◌<◌, ◌≡◌, Bool, true, false, ◌&&◌, ◌||◌, not, Option, none,
  some, if◌then◌else◌, ◌==◌, leb, update, bit_and, bit_or,
}
use jiajia.Syn.Notices.Pack.{◌>>=◌}
use jiajia.Mem.Cache.{PageState, ro, rw_}

-- The columns of `cache` and `home` that an interval changes: the state and `wtnt` of the cached pages,
-- and `wtnt` of the home pages, with their protection (PROT_WRITE or not).
pub record Pages : Type 0 where
  pub state : ℕ → PageState
  pub cache_wtnt : ℕ → ℕ
  pub home_wtnt : ℕ → ℕ
  pub writable : ℕ → Bool

-- SWvalve
abbrev pub sw_valve : ℕ
sw_valve = 1

-- The first loop, over the n cache entries from i on.
unfoldable pub start_cache : ℕ → ℕ → Pages → Pages
start_cache zero i s = s
start_cache (suc n) i s = start_cache n (i + 1) (
    if s.cache_wtnt i == 1
    then record s { cache_wtnt = update s.cache_wtnt i 0; state = update s.state i ro }
    else s)

-- The loop over the home pages at a lock, or with AD_WD off.
unfoldable pub start_homes : ℕ → ℕ → Pages → Pages
start_homes zero i s = s
start_homes (suc n) i s =
    let wtnt = s.home_wtnt i in
    start_homes n (i + 1) (
      if bit_and wtnt 1 == 0 then s else record s {
        home_wtnt = update s.home_wtnt i (bit_and wtnt 0xfe);
        writable = update s.writable i false;
      })

-- The cases of the switch, for a page with `wtnt` and its protection; `none` is the assertion.
unfoldable pub barr_page : ℕ → Bool → Option (ℕ × Bool)
barr_page wtnt writable =
    let bits = bit_and wtnt 7 in
    let swcnt = bit_and (wtnt / 16) 0xf + 1 in
    let counted = bit_and (swcnt * 16) 0xf0 in
    if bits == 0
    then some (wtnt, writable)
    else if bits == 1 || bits == 5
    then none
    else if bits == 2
    then some (if leb sw_valve swcnt then (bit_or wtnt 3, true) else (counted, writable))
    else if bits == 3
    then some (if leb sw_valve swcnt then (wtnt, writable) else (counted, false))
    else if bits == 4 || bits == 6
    then some (0, writable)
    else some (0, false)

-- The loop over the home pages at a barrier, with AD_WD on.
unfoldable pub barr_homes : ℕ → ℕ → Pages → Option Pages
barr_homes zero i s = some s
barr_homes (suc n) i s = do
  r ← barr_page (s.home_wtnt i) (s.writable i)
  barr_homes n (i + 1)
      (record s { home_wtnt = update s.home_wtnt i r.0; writable = update s.writable i r.1 })

-- `at_barrier` is `synop == BARR`, `hpages` the pages of `homesize`.
unfoldable pub startinterval :
    (ad_wd at_barrier : Bool) → (cachepages hpages : ℕ) → Pages → Option Pages
startinterval ad_wd at_barrier cachepages hpages s =
    let s' = start_cache cachepages 0 s in
    if not at_barrier || not ad_wd then some (start_homes hpages 0 s') else barr_homes hpages 0 s'
