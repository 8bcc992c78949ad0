-- ===== src/Mem/Fetch/Serve.antt =====
-- What a GETP brings: `getpserver` and `getpgrantserver` together, against the pages' addresses alone.
use jiajia.Prelude.{
  ℕ, suc, ◌+◌, ◌-◌, ◌^◌, ◌≤◌, ◌<◌, ◌≡◌, refl, Bool, true, false, ◌&&◌, some, List, [], ◌∷◌, ◌++◌,
  if◌then◌else◌, ◌==◌, length, length-take, take, All, arith,
}
use jiajia.Prelude.Bytes.{le_bytes, read_le-le_bytes, drop-le_bytes}
use jiajia.Constants.{page_size, ptr_bytes, int_bytes}
use jiajia.Msg.Types.{JiaMsg, getp, getpgrant}
use jiajia.Mem.Diff.{Bytes, slice, copy}
use jiajia.Mem.Diff.Copy.{take-slice, drop-slice}
use jiajia.Mem.Cache.{page_index}
use jiajia.Mem.Fetch.{Host, page_message, pages_granted, getpserver, getpgrantserver, serve_gets}
use jiajia.Mem.Fetch.Choose.{
  IsPointer, at_home, more_pages, reply_pages, noted, granted_lem, granted-noted,
}
use jiajia.Mem.Fetch.Reply.{encoded, put_reply_lem, installs, install_loop-encoded, own_address}

abbrev pub page_request : (jia_pid h addr temp : ℕ) → JiaMsg
page_request jia_pid h addr temp = page_message getp jia_pid h temp (le_bytes ptr_bytes addr)

-- The host with the pages of the home, the first at its address and the others in its cache.
abbrev pub fetched : (start scheme : ℕ) → (ℕ → ℕ) → ℕ → Bytes → List ℕ → Host → Host
fetched start scheme random addr mem more s =
    record (installs start scheme random 1 mem more
      (record s { mem = copy s.mem addr (slice mem addr page_size) })) { getpwait = 0 }

length-when : (b : Bool) (k : ℕ) (xs : List ℕ) → length (if b then take k xs else []) ≤ k
length-when true k xs = omega (arith, length-take k xs)
length-when false k xs = omega arith

module _ (start jia_pid h prefetch_pages max_checking_pages scheme : ℕ) (random : ℕ → ℕ)
    (h_mig flag : Bool) where
  getpserver_lem :
      (addr temp : ℕ) (home : Host)
      → home.pages.homepid (page_index start addr) ≡ h
      → prefetch_pages ≤ 8
      → All IsPointer
          (reply_pages start h prefetch_pages max_checking_pages flag home.pages.homepid addr)
      → getpserver start h prefetch_pages max_checking_pages h_mig flag
          (page_request jia_pid h addr temp)
          home
        ≡ some (
          (pages_granted start h prefetch_pages max_checking_pages flag addr home).1,
          page_message getpgrant h jia_pid 0xffffffff (
              le_bytes int_bytes (
                suc (
                  length (
                    more_pages start h prefetch_pages max_checking_pages flag home.pages.homepid
                      addr)))
              ++ (le_bytes ptr_bytes addr
                  ++ (slice home.mem addr page_size
                      ++ encoded home.mem (
                          more_pages start h prefetch_pages max_checking_pages flag
                            home.pages.homepid addr)))),
        )
  unfolding getpserver
  getpserver_lem addr temp home at few p =
      rw (own_address addr (omega (arith, p.0.1)), mine, off h_mig, same)
        (rw (granted_lem start h prefetch_pages max_checking_pages flag addr home) (
          rw (
            put_reply_lem home.mem addr
              (more_pages start h prefetch_pages max_checking_pages flag home.pages.homepid addr) p
              (omega (arith, room)))))
    where
      mine : (home.pages.homepid (page_index start addr) == h) ≡ true
      mine = ground arith

      same : (h == h) ≡ true
      same = ground arith

      off : (b : Bool) → (b && false) ≡ false
      off true = refl
      off false = refl

      room :
          length (more_pages start h prefetch_pages max_checking_pages flag home.pages.homepid addr)
          ≤ prefetch_pages
      room = length-when flag prefetch_pages _

  getpgrantserver_lem :
      (addr : ℕ) (mem : Bytes) (more : List ℕ) (s : Host)
      → addr < 2 ^ 64
      → All IsPointer more
      → length more < 2 ^ 31
      → getpgrantserver start scheme random
          (page_message getpgrant h jia_pid 0xffffffff (
            le_bytes int_bytes (suc (length more))
            ++ (le_bytes ptr_bytes addr ++ (slice mem addr page_size ++ encoded mem more))))
          s
        ≡ some (fetched start scheme random addr mem more s)
  unfolding getpgrantserver
  getpgrantserver_lem addr mem more s lt p small =
      rw
        (
          read_le-le_bytes 4 (suc (length more))
              (le_bytes 8 addr ++ (slice mem addr 4096 ++ encoded mem more)) (omega arith),
          drop-le_bytes 4 (suc (length more))
              (le_bytes 8 addr ++ (slice mem addr 4096 ++ encoded mem more)),
          read_le-le_bytes 8 addr (slice mem addr 4096 ++ encoded mem more) (omega arith),
          drop-le_bytes 8 addr (slice mem addr 4096 ++ encoded mem more),
        )
        (rw
          (take-slice mem addr 4096 (encoded mem more), drop-slice mem addr 4096 (encoded mem more))
          (rw (
            less,
            install_loop-encoded start scheme random mem more 1
                (record s { mem = copy s.mem addr (slice mem addr 4096) }) p,
          )))
    where
      less : suc (length more) - 1 ≡ length more
      less = omega arith

  -- What a GETP brings: the home, which the page is at, replies with it and, when prefetching is on,
  -- with the first `prefetch_pages` of the next `max_checking_pages` pages that are at home there, and
  -- sets `rdnt` for them; and the host that asked copies the page to its address and takes the others
  -- into its cache as it would with the home's memory at hand. This for at most 8 prefetched pages, whose
  -- addresses are not null.
  pub getp_installs :
      (addr temp : ℕ) (home s : Host)
      → home.pages.homepid (page_index start addr) ≡ h
      → prefetch_pages ≤ 8
      → All IsPointer
          (reply_pages start h prefetch_pages max_checking_pages flag home.pages.homepid addr)
      → serve_gets start h prefetch_pages max_checking_pages scheme random h_mig flag
          (page_request jia_pid h addr temp ∷ [])
          home
          s
        ≡ some (
          noted start
              (reply_pages start h prefetch_pages max_checking_pages flag home.pages.homepid addr)
              home,
          fetched start scheme random addr home.mem
              (more_pages start h prefetch_pages max_checking_pages flag home.pages.homepid addr)
              s,
        )
  unfolding serve_gets
  getp_installs addr temp home s at few p = rw (
    getpserver_lem addr temp home at few p,
    getpgrantserver_lem addr home.mem
        (more_pages start h prefetch_pages max_checking_pages flag home.pages.homepid addr) s p.0.1
        p.1
        (omega (
          arith,
          length-when flag prefetch_pages
              (at_home start h home.pages.homepid max_checking_pages (addr + page_size)),
        )),
    granted-noted start h prefetch_pages max_checking_pages flag addr home,
    granted_lem start h prefetch_pages max_checking_pages flag addr home,
  )
