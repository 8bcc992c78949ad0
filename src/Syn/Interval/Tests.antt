-- ===== src/Syn/Interval/Tests.antt =====
-- A host that has written a home page and a cached page passes a barrier with AD_WD on; another notes a home
-- page that it has written.
use jiajia.Prelude.{
  Bool-cases, inl, inr, ℕ, ◌+◌, ◌*◌, ◌<◌, ◌≡◌, ◌≢◌, refl, true, false, some, ◌==◌, update, arith,
  [], ◌∷◌, ◌||◌, ◌&&◌, if◌then◌else◌,
}
use jiajia.Syn.Notices.{in_chain, notices}
use jiajia.Syn.Notices.Laws.{IsPacked, Distinct}
use jiajia.Syn.Interval.Ending.{Ending, is_noted, note_homes, any_noted, endinterval_notes}
use jiajia.Mem.Cache.{ro, rw_}
use jiajia.Syn.Interval.{Pages, start_cache, barr_page, barr_homes, startinterval}
use jiajia.Syn.Interval.Bytes.{only_home}
use jiajia.Syn.Interval.Noted.{HomesFit, CachedNoted, startinterval_protects}

abbrev wrote_both : Pages
wrote_both = record {
  state = λ i. if i == 0 then rw_ else ro;
  cache_wtnt = λ i. if i == 0 then 1 else 0;
  home_wtnt = λ i. if i == 1 then 3 else 0;
  writable = λ i. i == 1;
}

wrote_both-HomesFit : HomesFit wrote_both
wrote_both-HomesFit i = elim (Bool-cases (i == 1)) [
  | inl e ↦ rw e record { small = omega arith; also_in_barrier = omega arith; noted = refl }
  | inr e ↦ rw e record { small = omega arith; also_in_barrier = omega arith; noted = refl }
]

-- The home page that only its home wrote stays writable; the cached page does not.
abbrev next_interval : Pages
next_interval = record {
  state = update wrote_both.state 0 ro;
  cache_wtnt = update wrote_both.cache_wtnt 0 0;
  home_wtnt = update (update wrote_both.home_wtnt 0 0) 1 3;
  writable = update (update wrote_both.writable 0 false) 1 true;
}

startinterval_runs : startinterval true true 2 2 wrote_both ≡ some next_interval
unfolding startinterval start_cache barr_homes barr_page
startinterval_runs = refl

startinterval_protects_example :
    (s' : Pages) × (startinterval true true 2 2 wrote_both ≡ some s')
    × HomesFit s'
    × CachedNoted s'
    × ((i : ℕ) → i < 2 → s'.state i ≢ rw_)
    × ((i : ℕ) → i < 2 → s'.writable i ≡ (true && (true && only_home (wrote_both.home_wtnt i))))
startinterval_protects_example =
    startinterval_protects true true 2 2 wrote_both wrote_both-HomesFit (λ i h. ground arith)

-- Of two home pages, the second is written and has copies.
abbrev two_homes : Ending
two_homes = record {
  home_addr = λ i. 4096 + i * 4096;
  home_wtnt = λ i. if i == 1 then 3 else 0;
  home_rdnt = λ _. 1;
  wtntp = [] ∷ [];
}

endinterval_notes_example :
    (let s' = note_homes 0 true 2 0 two_homes in
      (in_chain 8200 s'.wtntp ≡ (in_chain 8200 two_homes.wtntp || any_noted two_homes 8200 2 0))
      × (s'.home_rdnt 1 ≡ (if true && is_noted two_homes 1 then 0 else 1))
      × IsPacked s'.wtntp
      × Distinct (notices s'.wtntp))
unfolding notices
endinterval_notes_example =
    endinterval_notes 0 true 2 8200 1 two_homes (omega arith) tt (omega arith)

second_noted : any_noted two_homes 8200 2 0 ≡ true
unfolding any_noted
second_noted = refl
