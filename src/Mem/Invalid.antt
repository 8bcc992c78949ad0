-- ===== src/Mem/Invalid.antt =====
-- `invalidate` of src/syn/synserver.c, `migpage` and `migarrangehome` of src/syn/mig.c, on the cache and the home pages
-- of a host. The write vectors (W_VEC) are off,
-- and `freetwin` does nothing, for RESERVE_TWIN_SPACE is defined.
pub mod Marks
pub mod Homes
pub mod Move
pub mod Arrange
pub mod Compact
mod Tests
use jiajia.Prelude.{
  ℕ, zero, suc, ◌+◌, ◌-◌, ◌*◌, ◌/◌, ◌%◌, ◌^◌, Bool, true, false, ◌&&◌, ◌||◌, not, Option, none,
  some, List, [], ◌∷◌, if◌then◌else◌, ◌==◌, ltb, update, drop, length, bit_or,
}
use jiajia.Prelude.Bytes.{read_le}
use jiajia.Constants.{cache_pages, home_pages, max_hosts, hidelock, int_bytes, page_size, ptr_bytes}
use jiajia.Msg.Types.{JiaMsg}
use jiajia.Syn.Notices.Pack.{◌>>=◌}
use jiajia.Mem.Cache.{
  PageState, unmap, inv, ro, Cache, is_unmap, is_inv, is_rw, page_index, flushpage,
}

-- The cache, and the columns of `home` and of `page`.
pub record Memory : Type 0 where
  pub cache : Cache
  pub homepid : ℕ → ℕ
  pub homei : ℕ → ℕ
  pub home_addr : ℕ → ℕ
  pub home_wtnt : ℕ → ℕ
  pub home_rdnt : ℕ → ℕ

-- `for (; (i < n) && !p(i); i++);` over the n entries from i on.
unfoldable pub first_where : (ℕ → Bool) → ℕ → ℕ → ℕ
first_where p zero i = i
first_where p (suc n) i = let rest = first_where p n (i + 1) in if p i then i else rest

module _ (jia_pid start : ℕ) where
  -- The page's cache becomes its home.
  unfoldable pub new_home : ℕ → Memory → Option Memory
  new_home addr m =
      let pagei = page_index start addr in
      let c = m.cache in
      let cachei = c.cachei pagei in
      let homei = first_where (λ i. m.home_addr i == 0) home_pages 0 in
      let c' : Cache = record c {
        cachei = update c.cachei pagei cache_pages;
        state = update c.state cachei unmap;
        wtnt = update c.wtnt cachei 0;
        addr = update c.addr cachei 0;
      } in
      if ltb cachei cache_pages && (c.addr cachei == addr && ltb homei home_pages)
      then some (record m {
        cache = c';
        homei = update m.homei pagei homei;
        home_addr = update m.home_addr homei addr;
        home_wtnt = update m.home_wtnt homei (if c.wtnt cachei == 0 then 2 else 3);
        home_rdnt = update m.home_rdnt homei 1;
      })
      else none

  -- The page's home becomes a cached page, or is dropped if the cache has no entry free.
  unfoldable pub old_home : ℕ → Memory → Option Memory
  old_home addr m =
      let pagei = page_index start addr in
      let homei = m.homei pagei in
      let c = m.cache in
      let cachei = first_where (λ i. is_unmap (c.state i) || is_inv (c.state i)) cache_pages 0 in
      let f : Cache = if is_inv (c.state cachei) then flushpage start cachei c else c in
      let kept : Cache = record f {
        state = update f.state cachei ro;
        wtnt = update f.wtnt cachei (m.home_wtnt homei % 2);
        addr = update f.addr cachei addr;
        cachei = update f.cachei pagei cachei;
      } in
      let dropped : Cache = record c { mapped = update c.mapped pagei false } in
      if ltb homei home_pages && m.home_addr homei == addr
      then some (record m {
        cache = if ltb cachei cache_pages then kept else dropped;
        homei = update m.homei pagei home_pages;
        home_addr = update m.home_addr homei 0;
        home_wtnt = update m.home_wtnt homei 0;
        home_rdnt = update m.home_rdnt homei 0;
      })
      else none

  unfoldable pub migpage : ℕ → ℕ → ℕ → Memory → Option Memory
  migpage addr homepid modifypid m =
      (if modifypid == jia_pid
        then (if homepid == jia_pid then some m else new_home addr m)
        else (if homepid == jia_pid then old_home addr m else some m))
      >>= (λ m'. some (record m' { homepid = update m'.homepid (page_index start addr) modifypid }))

  -- The cached page that a notice is about becomes INV.
  unfoldable pub drop_cached : ℕ → ℕ → Memory → Memory
  drop_cached addr modifypid m =
      let pagei = page_index start addr in
      let c = m.cache in
      let i = c.cachei pagei in
      if not (modifypid == jia_pid)
        && (not (m.homepid pagei == jia_pid) && (ltb i cache_pages && not (is_inv (c.state i))))
      then record m { cache = record c { wtnt = update c.wtnt i 0; state = update c.state i inv } }
      else m

  module _ (h_mig ad_wd : Bool) where
    -- One round of `invalidate`. `homepid` is read before the page moves.
    unfoldable pub inval_one : ℕ → ℕ → ℕ → ℕ → Memory → Option Memory
    inval_one lock addr modifypid migtag m =
        let pagei = page_index start addr in
        let homepid = m.homepid pagei in
        let m₁ = drop_cached addr modifypid m in
        (if h_mig && (lock == hidelock && (not (modifypid == max_hosts) && not (migtag == 0)))
          then migpage addr (m₁.homepid pagei) modifypid m₁
          else some m₁)
        >>= (λ m₂. some (
            if ad_wd && (lock == hidelock && (homepid == jia_pid && not (modifypid == jia_pid)))
            then record m₂ {
              home_wtnt =
                  update m₂.home_wtnt (m₂.homei pagei) (bit_or (m₂.home_wtnt (m₂.homei pagei)) 4);
            }
            else m₂))

    -- The loop over what is left of the message, with fuel for its rounds.
    unfoldable pub inval_loop : ℕ → ℕ → List ℕ → Memory → Option Memory
    inval_loop zero lock rest m = some m
    inval_loop (suc f) lock [] m = some m
    inval_loop (suc f) lock (b ∷ bs) m =
        let rest = b ∷ bs in
        let addr = read_le ptr_bytes rest in
        let modifypid = read_le int_bytes (drop ptr_bytes rest) in
        let migtag = read_le int_bytes (drop (ptr_bytes + int_bytes) rest) in
        inval_one lock addr modifypid migtag m
        >>= inval_loop f lock (drop (ptr_bytes + 2 * int_bytes) rest)

    unfoldable pub invalidate : JiaMsg → Memory → Option Memory
    invalidate req m =
        inval_loop (length req.body) (read_le int_bytes req.body) (drop int_bytes req.body) m

  -- The home page at j moves to the entry i.
  abbrev pub move_home : ℕ → ℕ → Memory → Memory
  move_home i j m = record m {
    homei = update m.homei (page_index start (m.home_addr j)) i;
    home_addr = update (update m.home_addr i (m.home_addr j)) j 0;
    home_wtnt = update m.home_wtnt i (m.home_wtnt j);
    home_rdnt = update m.home_rdnt i (m.home_rdnt j);
  }

  -- The loop of `migarrangehome` over the n entries from i on, and `i` at its end.
  unfoldable pub arrange_loop : ℕ → ℕ → Memory → Memory × ℕ
  arrange_loop zero i m = (m, i)
  arrange_loop (suc n) i m =
      let empty = m.home_addr i == 0 in
      let homei = first_where (λ j. not (m.home_addr j == 0)) n (i + 1) in
      let found = ltb homei home_pages in
      let rest = arrange_loop n (i + 1) (if empty then move_home i homei m else m) in
      if empty && not found then (m, i + 1) else rest

  -- The home pages, and the host's `homesize`.
  unfoldable pub migarrangehome : Memory → Memory × ℕ
  migarrangehome m = let (m', i) = arrange_loop home_pages 0 m in (m', (i - 1) * page_size)
