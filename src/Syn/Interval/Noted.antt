-- ===== src/Syn/Interval/Noted.antt =====
-- What `startinterval` of src/syn/syn.c leaves writable, and noted.
use jiajia.Prelude.{
  ℕ, zero, suc, ◌+◌, ◌≤◌, ◌<◌, ◌≡◌, ◌≢◌, refl, sym, ap, update_self, update_ne, ◌∙◌, Bool, false,
  ◌||◌, ◌&&◌, not, some, if◌then◌else◌, ◌==◌, arith, bit_and, update, Bool-cases, inl, inr,
  ℕ_discrete,
}
use jiajia.Mem.Cache.{ro, rw_}
use jiajia.Syn.Interval.{Pages, start_cache, start_homes, barr_homes, startinterval}
use jiajia.Syn.Interval.Bytes.{Fits, barr_page-Fits, only_home, clear-Fits, unwritten_byte}

abbrev pub HomesFit : Pages → Type 0
HomesFit s = (i : ℕ) → Fits (s.home_wtnt i) (s.writable i)

-- A cached page that is RW has a write notice to come.
abbrev pub CachedNoted : Pages → Type 0
CachedNoted s = (i : ℕ) → s.state i ≡ rw_ → s.cache_wtnt i ≡ 1

-- A home page gets a byte and a protection that fit.
written_page :
    (s : Pages)
    → HomesFit s
    → (i w : ℕ) (writable : Bool) → Fits w writable
    → HomesFit
        (record s { home_wtnt = update s.home_wtnt i w; writable = update s.writable i writable })
written_page s fit i w writable ok x = elim (Bool-cases (x == i)) [
  | inl e ↦ rw e ok
  | inr e ↦ rw e (fit x)
]

record Started (n i : ℕ) (s s' : Pages) : Type 0 where
  homes : s'.home_wtnt ≡ s.home_wtnt
  protection : s'.writable ≡ s.writable
  noted : CachedNoted s'
  read_only : (x : ℕ) → i ≤ x → x < i + n → s'.state x ≢ rw_
  stays : (x : ℕ) → s.state x ≢ rw_ → s'.state x ≢ rw_

abbrev closed : ℕ → Pages → Pages
closed i s =
    if s.cache_wtnt i == 1
    then record s { cache_wtnt = update s.cache_wtnt i 0; state = update s.state i ro }
    else s

closed-Started : (i : ℕ) (s : Pages) → CachedNoted s → Started 1 i s (closed i s)
closed-Started i s noted = elim (Bool-cases (s.cache_wtnt i == 1)) [
  | inl e ↦ rw e record {
    homes = refl;
    protection = refl;
    noted = λ x h. ground (arith, noted x);
    read_only = λ x le lt h. ground arith;
    stays = λ x o h. ground arith;
  }
  | inr e ↦ rw e record {
    homes = refl;
    protection = refl;
    noted = noted;
    read_only = λ x le lt h.
        let here : x ≡ i = omega arith in ground (arith, noted x, ap s.cache_wtnt here);
    stays = λ x o. o;
  }
]

start_cache-Started : (n i : ℕ) (s : Pages) → CachedNoted s → Started n i s (start_cache n i s)
unfolding start_cache
start_cache-Started zero i s noted = record {
  homes = refl;
  protection = refl;
  noted = noted;
  read_only = λ x le lt. absurd (omega arith);
  stays = λ x o. o;
}
start_cache-Started (suc n) i s noted =
    let one = closed-Started i s noted in
    let rest = start_cache-Started n (i + 1) (closed i s) one.noted in
    record {
      homes = rest.homes ∙ one.homes;
      protection = rest.protection ∙ one.protection;
      noted = rest.noted;
      read_only = λ x le lt. elim (ℕ_discrete x i) [
        | yes here ↦ rest.stays x (one.read_only x le (omega arith))
        | no later ↦ rest.read_only x (omega arith) (omega arith)
      ];
      stays = λ x o. rest.stays x (one.stays x o);
    }

-- What the loops over the home pages leave alone.
record SameCache (s s' : Pages) : Type 0 where
  states : s'.state ≡ s.state
  notices : s'.cache_wtnt ≡ s.cache_wtnt

-- The protection of the n home pages from i on, by their `wtnt` before, and of those before i.
record Protected (after : ℕ → Bool) (n i : ℕ) (s s' : Pages) : Type 0 where
  fit : HomesFit s'
  cache : SameCache s s'
  earlier : (x : ℕ) → x < i → s'.writable x ≡ s.writable x
  inside : (x : ℕ) → i ≤ x → x < i + n → s'.writable x ≡ after (s.home_wtnt x)

none_left : (after : ℕ → Bool) (i : ℕ) (s : Pages) → HomesFit s → Protected after 0 i s s
none_left after i s fit = record {
  fit = fit;
  cache = record { states = refl; notices = refl };
  earlier = λ x lt. refl;
  inside = λ x le lt. absurd (omega arith);
}

-- One page, and then the rest.
one_more :
    (after : ℕ → Bool) (n i w : ℕ) (writable : Bool) (s s' : Pages)
    → writable ≡ after (s.home_wtnt i)
    → (let t : Pages = record s {
      home_wtnt = update s.home_wtnt i w;
      writable = update s.writable i writable;
    } in
        Protected after n (i + 1) t s')
    → Protected after (suc n) i s s'
one_more after n i w writable s s' kept rest = record {
  fit = rest.fit;
  cache = record { states = rest.cache.states; notices = rest.cache.notices };
  earlier = λ x lt.
      rest.earlier x (omega arith) ∙ update_ne s.writable i writable x (λ z. absurd (omega arith));
  inside = λ x le lt. elim (ℕ_discrete x i) [
    | yes here ↦ rw here (rest.earlier i (omega arith) ∙ update_self s.writable i writable ∙ kept)
    | no later ↦
        rest.inside x (omega arith) (omega arith) ∙ ap after (update_ne s.home_wtnt i w x later)
  ];
}

abbrev read_only : ℕ → Bool
read_only w = false

start_homes-Protected :
    (n i : ℕ) (s : Pages) → HomesFit s → Protected read_only n i s (start_homes n i s)
unfolding start_homes
start_homes-Protected zero i s fit = none_left read_only i s fit
start_homes-Protected (suc n) i s fit = elim (Bool-cases (bit_and (s.home_wtnt i) 1 == 0)) [
  | inl e ↦
      let rest = start_homes-Protected n (i + 1) s fit in
      let unwritten =
        rest.earlier i (omega arith)
        ∙ (fit i).noted
        ∙ unwritten_byte (s.home_wtnt i) (fit i).small e in
      rw e record {
        fit = rest.fit;
        cache = rest.cache;
        earlier = λ x lt. rest.earlier x (omega arith);
        inside = λ x le lt. elim (ℕ_discrete x i) [
          | yes here ↦ rw here unwritten
          | no later ↦ rest.inside x (omega arith) (omega arith)
        ];
      }
  | inr e ↦
      let ok = written_page s fit i _ _ (clear-Fits (s.home_wtnt i) (s.writable i) (fit i) e) in
      rw e (one_more read_only n i _ false s _ refl (start_homes-Protected n (i + 1) _ ok))
]

barr_homes-Protected :
    (n i : ℕ) (s : Pages)
    → HomesFit s
    → (s' : Pages) × (barr_homes n i s ≡ some s') × Protected only_home n i s s'
unfolding barr_homes
barr_homes-Protected zero i s fit = (s, refl, none_left only_home i s fit)
barr_homes-Protected (suc n) i s fit =
    let (r, page, ok, kept) = barr_page-Fits (s.home_wtnt i) (s.writable i) (fit i) in
    let after : Pages = record s {
      home_wtnt = update s.home_wtnt i r.0;
      writable = update s.writable i r.1;
    } in
    let (s', run, rest) = barr_homes-Protected n (i + 1) after (written_page s fit i r.0 r.1 ok) in
    (s', rw page run, one_more only_home n i r.0 r.1 s s' kept rest)

-- What `startinterval` does where each home page has a `wtnt` that fits its protection (the page may be
-- written just when bit 0 says that this host has written it in the interval, and bit 1 is then set too;
-- the other bits are free), and where each RW cache entry has its write notice to come. It comes back, so
-- its assertion on impossible `wtnt` holds; both conditions hold again; no cache entry is RW; and of the
-- home pages just those may be written that only this host has written in the barrier interval, at a
-- barrier with AD_WD on.
pub startinterval_protects :
    (ad_wd at_barrier : Bool) (cachepages hpages : ℕ) (s : Pages)
    → HomesFit s
    → CachedNoted s
    → (s' : Pages) × (startinterval ad_wd at_barrier cachepages hpages s ≡ some s')
      × HomesFit s'
      × CachedNoted s'
      × ((i : ℕ) → i < cachepages → s'.state i ≢ rw_)
      × ((i : ℕ)
          → i < hpages
          → s'.writable i ≡ (at_barrier && (ad_wd && only_home (s.home_wtnt i))))
unfolding startinterval
startinterval_protects ad_wd at_barrier cachepages hpages s homes cached =
    let first = start_cache-Started cachepages 0 s cached in
    let t = start_cache cachepages 0 s in
    let fit : HomesFit t = λ i. rw (first.homes, first.protection) (homes i) in
    let noted : (s' : Pages) → SameCache t s' → CachedNoted s' = λ s' same i h.
      ap (λ f. f i) same.notices ∙ first.noted i (sym (ap (λ f. f i) same.states) ∙ h) in
    let clean : (s' : Pages) → SameCache t s' → (i : ℕ) → i < cachepages → s'.state i ≢ rw_ =
      λ s' same i lt h.
        first.read_only i (omega arith) (omega arith) (sym (ap (λ f. f i) same.states) ∙ h) in
    let wtnt : (i : ℕ) → t.home_wtnt i ≡ s.home_wtnt i = λ i. ap (λ f. f i) first.homes in
    elim (Bool-cases (not at_barrier || not ad_wd)) [
      | inl e ↦
          let done = start_homes-Protected hpages 0 t fit in
          let s' = start_homes hpages 0 t in
          (
            s',
            rw e refl,
            done.fit,
            noted s' done.cache,
            clean s' done.cache,
            λ i lt. done.inside i (omega arith) (omega arith) ∙ ground (arith, e),
          )
      | inr e ↦
          let (s', run, done) = barr_homes-Protected hpages 0 t fit in
          (
            s',
            rw e run,
            done.fit,
            noted s' done.cache,
            clean s' done.cache,
            λ i lt.
                done.inside i (omega arith) (omega arith)
                ∙ ap only_home (wtnt i)
                ∙ ground (arith, e),
          )
    ]
