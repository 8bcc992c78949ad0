-- ===== src/Mem/Fetch/Tests.antt =====
-- Host 0 reads and writes a page that is at home at host 1.
use jiajia.Prelude.{
  ℕ, ◌+◌, ◌*◌, ◌%◌, ◌≡◌, refl, true, false, ◌&&◌, some, [], ◌∷◌, inl, if◌then◌else◌, ◌==◌, ltb, leb,
  arith,
}
use jiajia.Mem.Diff.{Bytes}
use jiajia.Mem.Cache.{unmap, inv, rw_}
use jiajia.Mem.Invalid.{Memory}
use jiajia.Mem.Fetch.{Host, set_rdnt, pages_granted, prefetch_loop, fault_round, serve_gets}
use jiajia.Mem.Fetch.Choose.{noted}
use jiajia.Mem.Fetch.Serve.{page_request, fetched, getp_installs}
use jiajia.Mem.Fetch.Round.{fault_fetches}

-- Pages 0, 1 and 3 are at home at host 1, page 2 at host 0; page 0 is in entry 3, which is INV.
abbrev tables : Memory
tables = record {
  cache = record {
    state = λ i. if i == 3 then inv else unmap;
    addr = λ i. if i == 3 then 4096 else 0;
    wtnt = λ i. 0;
    cachei = λ p. if p == 0 then 3 else 1024;
    repcnt = λ i. 0;
    mapped = λ p. p == 0;
  };
  homepid = λ p. if p == 2 then 0 else 1;
  homei = λ p. p;
  home_addr = λ i. 4096 * (i + 1);
  home_wtnt = λ i. 0;
  home_rdnt = λ i. 0;
}

abbrev host : Bytes → Host
host mem = record { pages = tables; mem = mem; twin = λ i o. 0; getpwait = 0 }

abbrev reader : Host
reader = host (λ a. 0)

abbrev owner : Host
owner = host (λ a. a % 256)

-- With up to two of the next three pages, page 2 is left out.
granted_runs : (pages_granted 4096 1 2 3 true 4096 owner).0 ≡ 4096 ∷ 8192 ∷ 16384 ∷ []
unfolding pages_granted prefetch_loop
granted_runs = refl

getp_installs_example :
    serve_gets 4096 1 2 3 1 (λ i. 0) true true (page_request 0 1 4096 1 ∷ []) owner reader
    ≡ some (
      noted 4096 (4096 ∷ 8192 ∷ 16384 ∷ []) owner,
      fetched 4096 1 (λ i. 0) 4096 owner.mem (8192 ∷ 16384 ∷ []) reader,
    )
getp_installs_example =
    getp_installs 4096 0 1 2 3 1 (λ i. 0) true true 4096 1 owner reader refl (omega arith)
      (omega arith)

fault_fetches_example :
    (s' : Host) × (fault_round 4096 1 2 3 1 (λ i. 0) true false 65536 0 4096 true owner reader
      ≡ some (set_rdnt 4096 4096 owner, s'))
    × (((x : ℕ) → s'.mem x ≡ (if leb 4096 x && ltb x 8192 then x % 256 else 0))
        × (s'.pages.cache.cachei 0 ≡ 3)
        × (s'.pages.cache.addr 3 ≡ 4096)
        × (s'.pages.cache.state 3 ≡ rw_)
        × ((o : ℕ) → s'.twin 3 o ≡ s'.mem (4096 + o))
        × (s'.pages.cache.wtnt 3 ≡ 1))
fault_fetches_example =
    fault_fetches 4096 1 2 3 1 (λ i. 0) true 65536 0 4096 true owner reader 3 (omega arith)
      (omega arith) (omega arith) (omega arith) refl refl (omega arith)
      (inl (refl, omega arith, refl))
