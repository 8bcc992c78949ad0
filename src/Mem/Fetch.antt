-- ===== src/Mem/Fetch.antt =====
-- Page faults: `sigsegv_handler` and `getpage` of src/mem/memsyn.c, and `getpserver` and `getpgrantserver`
-- of src/mem/memserver.c. The write vectors (W_VEC) are off. mprotect and mmap are the columns `state`
-- and `mapped`; the pages of a host are in its memory at their addresses.
pub mod Choose
pub mod Reply
pub mod Serve
pub mod Round
mod Tests
use jiajia.Prelude.{
  ℕ, zero, suc, ◌+◌, ◌-◌, ◌*◌, Bool, true, false, ◌&&◌, ◌||◌, not, Option, none, some, List, [],
  ◌∷◌, if◌then◌else◌, ◌==◌, ltb, leb, update, drop, take, length, bit_or,
}
use jiajia.Prelude.Bytes.{le_bytes, read_le}
use jiajia.Constants.{page_size, ptr_bytes, int_bytes, cache_pages}
use jiajia.Msg.Types.{MsgOp, JiaMsg, getp, getpgrant, op_code, appendmsg}
use jiajia.Syn.Notices.Pack.{◌>>=◌}
use jiajia.Syn.Server.{is_for}
use jiajia.Mem.Diff.{Bytes, slice, copy}
use jiajia.Mem.Cache.{PageState, unmap, inv, ro, rw_, Cache, page_index, findposition}
use jiajia.Mem.Invalid.{Memory}

-- A host: the tables of its pages, its memory by address, the twins of its cache entries by offset,
-- and `getpwait`.
pub record Host : Type 0 where
  pub pages : Memory
  pub mem : Bytes
  pub twin : ℕ → Bytes
  pub getpwait : ℕ

abbrev pub page_message : MsgOp → (frompid topid temp : ℕ) → List ℕ → JiaMsg
page_message op frompid topid temp body = record {
  op = op;
  frompid = frompid;
  topid = topid;
  temp = temp;
  seqno = 0;
  scope = 0;
  body = body;
}

abbrev pub with_cache : Cache → Host → Host
with_cache c s = record s { pages = record s.pages { cache = c } }

abbrev pub is_ro : PageState → Bool
is_ro unmap = false
is_ro inv = false
is_ro ro = true
is_ro rw_ = false

-- WVFULL
abbrev pub wv_full : ℕ
wv_full = 0xffffffff

-- `memcpy` of a page into a message; `none` is a read at the null pointer.
unfoldable pub read_page : Bytes → ℕ → Option (List ℕ)
read_page mem addr = if addr == 0 then none else some (slice mem addr page_size)

-- Somebody will have a valid copy.
abbrev pub set_rdnt : ℕ → ℕ → Host → Host
set_rdnt start addr s =
    let homei = s.pages.homei (page_index start addr) in
    record s { pages = record s.pages { home_rdnt = update s.pages.home_rdnt homei 1 } }

-- The prefetched pages in the reply.
unfoldable pub put_pages : Bytes → List ℕ → List ℕ → Option (List ℕ)
put_pages mem [] body = some body
put_pages mem (addr ∷ addrs) body = do
  b ← appendmsg body (le_bytes ptr_bytes addr)
  page ← read_page mem addr
  b' ← appendmsg b page
  put_pages mem addrs b'

-- The reply with the pages at `addrs`; `addr[0]` is null if there are none.
unfoldable pub put_reply : Bytes → List ℕ → List ℕ → Option (List ℕ)
put_reply mem request [] = do
  b ← appendmsg [] (le_bytes int_bytes 0)
  b' ← appendmsg b (take ptr_bytes request)
  page ← read_page mem 0
  appendmsg b' page
put_reply mem request (addr ∷ addrs) = do
  b ← appendmsg [] (le_bytes int_bytes (suc (length addrs)))
  b' ← appendmsg b (take ptr_bytes request)
  page ← read_page mem addr
  b'' ← appendmsg b' page
  put_pages mem addrs b''

module _ (start jia_pid prefetch_pages max_checking_pages : ℕ) where
  -- The loop over the n pages from paddr on, with num pages in the message: the addresses of the
  -- pages that are prefetched.
  unfoldable pub prefetch_loop : ℕ → (paddr num : ℕ) → Host → List ℕ × Host
  prefetch_loop zero paddr num s = ([], s)
  prefetch_loop (suc n) paddr num s =
      let s' = set_rdnt start paddr s in
      let skip = prefetch_loop n (paddr + page_size) num s in
      let rest = prefetch_loop n (paddr + page_size) (num + 1) s' in
      let more = if num + 1 == prefetch_pages + 1 then ([], s') else rest in
      let found : List ℕ × Host = (paddr ∷ more.0, more.1) in
      if ltb num (max_checking_pages + 1)
      then (if s.pages.homepid (page_index start paddr) == jia_pid then found else skip)
      else ([], s)

  -- The pages that a request gets, with `rdnt` set.
  unfoldable pub pages_granted : Bool → ℕ → Host → List ℕ × Host
  pages_granted flag paddr s =
      let s' = set_rdnt start paddr s in
      let more = prefetch_loop max_checking_pages (paddr + page_size) 1 s' in
      if flag && not (prefetch_pages == 0) then (paddr ∷ more.0, more.1) else (paddr ∷ [], s')

  unfoldable pub getpserver : (h_mig flag : Bool) → JiaMsg → Host → Option (Host × JiaMsg)
  getpserver h_mig flag req s =
      let paddr = read_le ptr_bytes req.body in
      let here = s.pages.homepid (page_index start paddr) == jia_pid in
      let pages = if h_mig && not here then ([], s) else pages_granted flag paddr s in
      if is_for req getp jia_pid && ((h_mig && not here) || here)
      then put_reply s.mem req.body pages.0
        >>= (λ body. some (pages.1, page_message getpgrant jia_pid req.frompid wv_full body))
      else none

-- What the requesting host does with the reply.
module _ (start scheme : ℕ) (random : ℕ → ℕ) where
  -- A prefetched page, by the result of `findposition`.
  unfoldable pub put_page : ℕ → List ℕ → Host → Option ℕ × Cache → Host
  put_page addr bytes s (none, c) = with_cache c s
  put_page addr bytes s (some i, c) =
      record (with_cache
        (record c {
          addr = update c.addr i addr;
          state = update c.state i ro;
          mapped = update c.mapped (page_index start addr) true;
        })
        s) { mem = copy s.mem addr bytes }

  unfoldable pub install : ℕ → ℕ → List ℕ → Host → Host
  install i addr bytes s =
      let c = s.pages.cache in
      if ltb (c.cachei (page_index start addr)) cache_pages
      then s
      else put_page addr bytes s (findposition start scheme (random i) addr c)

  -- The loop over the n prefetched pages that are left, from the i-th on.
  unfoldable pub install_loop : ℕ → ℕ → List ℕ → Host → Host
  install_loop zero i rest s = s
  install_loop (suc n) i rest s =
      let after = drop ptr_bytes rest in
      install_loop n (i + 1) (drop page_size after)
        (install i (read_le ptr_bytes rest) (take page_size after) s)

  unfoldable pub getpgrantserver : JiaMsg → Host → Option Host
  getpgrantserver rep s =
      let num = read_le int_bytes rep.body in
      let rest = drop int_bytes rep.body in
      let after = drop ptr_bytes rest in
      let copied : Host = record s {
        mem = copy s.mem (read_le ptr_bytes rest) (take page_size after);
      } in
      if op_code rep.op == op_code getpgrant
      then some (record (install_loop (num - 1) 1 (drop page_size after) copied) { getpwait = 0 })
      else none

-- The entry that is used for a page that is not cached; `none` is `cache[-1]`.
unfoldable pub map_page : ℕ → ℕ → Host → Option ℕ × Cache → Option (ℕ × Host)
map_page start addr s (none, c) = none
map_page start addr s (some i, c) =
    some (i, with_cache (record c { mapped = update c.mapped (page_index start addr) true }) s)

-- `getpage`
unfoldable pub getpage : (start jia_pid addr flag : ℕ) → Host → Host × JiaMsg
getpage start jia_pid addr flag s = (
  record s { getpwait = 1 },
  page_message getp jia_pid (s.pages.homepid (page_index start addr)) flag
      (le_bytes ptr_bytes addr),
)

unfoldable pub mark_entry : ℕ → Bool → ℕ → Host → Host
mark_entry addr writefault i s =
    let c = s.pages.cache in
    with_cache
      (record c {
        addr = update c.addr i addr;
        state = update c.state i (if writefault then rw_ else ro);
        wtnt = if writefault then update c.wtnt i 1 else c.wtnt;
      })
      s

-- `sigsegv_handler` for the page at `addr`, up to the wait for `getpwait` and behind it.
module _ (start jia_pid scheme random : ℕ) where
  -- The cache entry, the request if there is one, and the host.
  unfoldable pub enter_cache : ℕ → Bool → Host → Option (ℕ × List JiaMsg × Host)
  enter_cache addr writefault s =
      let c = s.pages.cache in
      let i = c.cachei (page_index start addr) in
      let g = getpage start jia_pid addr 1 s in
      if ltb i cache_pages
      then some (if writefault && is_ro (c.state i) then (i, [], s) else (i, g.1 ∷ [], g.0))
      else map_page start addr s (findposition start scheme random addr c)
        >>= (λ r. let g' = getpage start jia_pid addr 0 r.1 in some (r.0, g'.1 ∷ [], g'.0))

  -- `none` as the entry: the page is at home here, and may be written from now on.
  unfoldable pub fault_begin :
      (globaladdr addr : ℕ) → Bool → Host → Option (Option ℕ × List JiaMsg × Host)
  fault_begin globaladdr addr writefault s =
      let pagei = page_index start addr in
      let homei = s.pages.homei pagei in
      let wtnt = s.pages.home_wtnt in
      let own : Host = record s {
        pages = record s.pages { home_wtnt = update wtnt homei (bit_or (wtnt homei) 3) };
      } in
      if ltb addr (start + globaladdr) && leb start addr
      then (if s.pages.homepid pagei == jia_pid
          then some (none, [], own)
          else enter_cache addr writefault s
            >>= (λ r. some (some r.0, r.1, mark_entry addr writefault r.0 r.2)))
      else none

-- `none`: the handler waits for `getpwait`.
unfoldable pub fault_end : ℕ → Bool → Option ℕ → Host → Option Host
fault_end addr writefault none s = some s
fault_end addr writefault (some i) s =
    if s.getpwait == 0
    then some
        (if writefault then record s { twin = update s.twin i (λ o. s.mem (addr + o)) } else s)
    else none

-- A whole fault: the home, host h, serves the request while the handler waits.
module _ (start h prefetch_pages max_checking_pages scheme : ℕ) (random : ℕ → ℕ)
    (h_mig flag : Bool) where
  unfoldable pub serve_gets : List JiaMsg → Host → Host → Option (Host × Host)
  serve_gets [] home s = some (home, s)
  serve_gets (req ∷ reqs) home s = do
    r ← getpserver start h prefetch_pages max_checking_pages h_mig flag req home
    s' ← getpgrantserver start scheme random r.1 s
    serve_gets reqs r.0 s'

  unfoldable pub fault_round :
      (globaladdr jia_pid addr : ℕ) → Bool → Host → Host → Option (Host × Host)
  fault_round globaladdr jia_pid addr writefault home s = do
    f ← fault_begin start jia_pid scheme (random 0) globaladdr addr writefault s
    r ← serve_gets f.1 home f.2
    s' ← fault_end addr writefault f.0 r.1
    some (r.0, s')
