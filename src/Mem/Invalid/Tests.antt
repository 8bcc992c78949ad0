-- ===== src/Mem/Invalid/Tests.antt =====
-- A host with cached pages that gets the notice of one, and one with a home page; and the theorems at
-- them.
use jiajia.Constants.{home_pages, page_size}
use jiajia.Prelude.{
  ℕ, ◌-◌, ◌*◌, ◌==◌, min, update, ◌≡◌, refl, arith, true, [], ◌∷◌, ◌++◌, some, if◌then◌else◌,
}
use jiajia.Prelude.Bytes.{le_bytes}
use jiajia.Msg.Types.{acqgrant, JiaMsg}
use jiajia.Syn.Notices.{Notice}
use jiajia.Syn.Notices.Pack.Uniform.{encode, triple}
use jiajia.Mem.Cache.{inv, ro}
use jiajia.Mem.Invalid.{Memory, invalidate, migpage, move_home, migarrangehome}
use jiajia.Mem.Invalid.Homes.{HasHomes}
use jiajia.Mem.Invalid.Move.{migpage_keeps_homes}
use jiajia.Mem.Invalid.Arrange.{Keeps}
use jiajia.Mem.Invalid.Compact.{IsCompact, migarrangehome_compacts}
use jiajia.Mem.Invalid.Marks.{any_named, invalidate_marks}

abbrev host : Memory
host = record {
  cache = record {
    state = λ _. ro;
    addr = λ i. i;
    wtnt = λ _. 0;
    cachei = λ p. p;
    repcnt = λ _. 0;
    mapped = λ _. true;
  };
  homepid = λ _. 1;
  homei = λ _. 16384;
  home_addr = λ _. 0;
  home_wtnt = λ _. 0;
  home_rdnt = λ _. 0;
}

abbrev notice : Notice
notice = record { addr = 12288; from = 2; scope = 1; mig = 0 }

abbrev grant : JiaMsg
grant = record {
  op = acqgrant;
  frompid = 3;
  topid = 0;
  temp = 0;
  seqno = 0;
  scope = 1;
  body = le_bytes 4 3 ++ encode triple (notice ∷ []);
}

-- The page is entry 3.
entry_named : (any_named 0 0 host (notice ∷ []) 3 ≡ true)
entry_named = refl

invalidate_marks_example :
    (m' : Memory) × (invalidate 0 0 true true grant host ≡ some m')
    × ((i : ℕ) → m'.cache.state i ≡ (if any_named 0 0 host (notice ∷ []) i then inv else ro))
    × (m'.cache.cachei ≡ host.cache.cachei)
    × (m'.homepid ≡ host.homepid)
invalidate_marks_example =
    invalidate_marks 0 0 true true 3 (notice ∷ []) grant host refl (omega arith) refl
      ((omega arith, omega arith, omega arith), tt)

-- Page 0, at 4096, is at home on host 1, in entry 1.
abbrev one_home : Memory
one_home = record host {
  homepid = λ p. if p == 0 then 1 else 2;
  homei = λ _. 1;
  home_addr = λ i. if i == 1 then 4096 else 0;
}

one_home-HasHomes : HasHomes 1 4096 one_home
one_home-HasHomes = record {
  entry_of = λ p lt e. let first : p ≡ 0 = ground arith in rw first (omega arith, refl);
  owner_of = λ i lt used.
      let second : i ≡ 1 = ground arith in rw second (0, omega arith, refl, refl, refl);
}

-- The page goes to host 2.
migpage_keeps_homes_example :
    (m' : Memory) × (migpage 1 4096 4096 1 2 one_home ≡ some m')
    × HasHomes 1 4096 m'
    × (m'.homepid ≡ update one_home.homepid 0 2)
migpage_keeps_homes_example =
    migpage_keeps_homes 1 4096 4096 one_home (omega arith) (refl, omega arith) one_home-HasHomes 2
      (λ same. absurd (omega (arith, same)))

migarrangehome_compacts_example :
    (let (m', homesize) = migarrangehome 1 4096 one_home in
      HasHomes 1 4096 m'
      × Keeps 1 one_home m'
      × ((k : ℕ) × IsCompact k m' × (homesize ≡ min k (home_pages - 1) * page_size)))
migarrangehome_compacts_example =
    migarrangehome_compacts 1 4096 (omega arith) one_home one_home-HasHomes

migrated : (move_home 1 4096 0 1 one_home).homei 0 ≡ 0
migrated = refl
