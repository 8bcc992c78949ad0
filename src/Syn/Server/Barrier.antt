-- ===== src/Syn/Server/Barrier.antt =====
-- A round of `jia_barrier`: the BARR messages at host 0, `barrserver` of src/syn/synserver.c.
use jiajia.Prelude.{
  ℕ, ◌+◌, ◌<◌, ◌%◌, ◌^◌, ◌≡◌, ◌≢◌, refl, ap, ap₂, ◌∙◌, arith, true, false, some, List, [], ◌∷◌,
  ◌++◌, ◌==◌, length, drop, update, update_self,
}
use jiajia.Constants.{int_bytes, hidelock}
use jiajia.Msg.Types.{barr, JiaMsg}
use jiajia.Syn.Notices.{Chain}
use jiajia.Syn.Notices.Pack.{◌>>=◌}
use jiajia.Syn.Notices.Send.{recordwtnts, record_loop}
use jiajia.Syn.Server.{
  JiaLock, SynState, grantbarr, Outcome, set_lock, record_notices, emptied, is_for, subject,
  barrserver,
}

-- The server thread on a list of messages, one after the other.
unfoldable pub barrservers : ℕ → ℕ → SynState → List JiaMsg → Outcome
barrservers jia_pid hostc s [] = some (s, [])
barrservers jia_pid hostc s (req ∷ reqs) = do
  (s', calls) ← barrserver jia_pid hostc s req
  (s'', more) ← barrservers jia_pid hostc s' reqs
  some (s'', calls ++ more)

-- A BARR message as `sendwtnts` builds its last one.
pub record IsArrival (jia_pid hostc : ℕ) (req : JiaMsg) : Type 0 where
  pub mine : is_for req barr jia_pid ≡ true
  pub lock : subject req ≡ hidelock

-- The barrier's notices after the messages.
abbrev pub recorded : ℕ → Chain → List JiaMsg → Chain
recorded scope c [] = c
recorded scope c (req ∷ reqs) = recorded scope (recordwtnts (λ i. c) (λ i. scope) req) reqs

-- All of the list satisfy P.
abbrev pub Arrivals : ℕ → ℕ → List JiaMsg → Type 0
Arrivals jia_pid hostc [] = Unit
Arrivals jia_pid hostc (req ∷ reqs) = IsArrival jia_pid hostc req × Arrivals jia_pid hostc reqs

module _ (jia_pid hostc : ℕ) (home : (hidelock % hostc == jia_pid) ≡ true) where
  record_at :
      (s : SynState) (req : JiaMsg)
      → subject req ≡ hidelock
      → record_notices s req
        ≡ recordwtnts (λ i. (s.locks hidelock).wtntp) (λ i. (s.locks hidelock).scope) req
  unfolding recordwtnts
  record_at s req e =
      ap
        (λ k.
          record_loop req.frompid (s.locks k).scope (length req.body) (drop int_bytes req.body)
            (s.locks k).wtntp)
        e

  barrserver_waits :
      (s : SynState) (req : JiaMsg)
      → IsArrival jia_pid hostc req
      → (s.locks hidelock).acqc + 1 ≢ hostc
      → (l : JiaLock) × (barrserver jia_pid hostc s req ≡ some (set_lock s hidelock l, []))
        × (l.acqc ≡ (s.locks hidelock).acqc + 1)
        × (l.scope ≡ (s.locks hidelock).scope)
        × (l.wtntp ≡ recorded (s.locks hidelock).scope (s.locks hidelock).wtntp (req ∷ []))
  unfolding barrserver
  barrserver_waits s req arrival more =
      let old = s.locks hidelock in
      let l : JiaLock = record old { wtntp = record_notices s req; acqc = old.acqc + 1 } in
      let early : (old.acqc + 1 == hostc) ≡ false = ground arith in
      (
        l,
        rw (arrival.mine, arrival.lock, home, early) refl,
        refl,
        refl,
        record_at s req arrival.lock,
      )

  barrserver_opens :
      (s : SynState) (req : JiaMsg)
      → IsArrival jia_pid hostc req
      → (s.locks hidelock).acqc + 1 ≡ hostc
      → (let scope = ((s.locks hidelock).scope + 1) % 2 ^ 32 in
          let chain = recorded (s.locks hidelock).scope (s.locks hidelock).wtntp (req ∷ []) in
          (l : JiaLock) × (barrserver jia_pid hostc s req
            ≡ some (set_lock s hidelock l, grantbarr hidelock scope chain ∷ []))
          × (l.acqc ≡ 0)
          × (l.scope ≡ scope)
          × (l.wtntp ≡ emptied chain))
  unfolding barrserver
  barrserver_opens s req arrival last =
      let old = s.locks hidelock in
      let l : JiaLock = record old {
        scope = (old.scope + 1) % 2 ^ 32;
        acqc = 0;
        wtntp = emptied (record_notices s req);
      } in
      let late : (old.acqc + 1 == hostc) ≡ true = ground arith in
      let chain = record_at s req arrival.lock in
      (
        l,
        rw (arrival.mine, arrival.lock, home, late)
            (ap
              (λ c.
                some (set_lock s hidelock l, grantbarr hidelock ((old.scope + 1) % 2 ^ 32) c ∷ []))
              chain),
        refl,
        refl,
        ap emptied chain,
      )

  -- The rest of a round, from a arrivals with the scope and the chain that the barrier has.
  round :
      (s : SynState) (reqs : List JiaMsg) (a sc : ℕ) (c : Chain)
      → (s.locks hidelock).acqc ≡ a
      → (s.locks hidelock).scope ≡ sc
      → (s.locks hidelock).wtntp ≡ c
      → Arrivals jia_pid hostc reqs
      → a + length reqs ≡ hostc
      → a < hostc
      → (s' : SynState) × (barrservers jia_pid hostc s reqs
          ≡ some (s', grantbarr hidelock ((sc + 1) % 2 ^ 32) (recorded sc c reqs) ∷ []))
        × ((s'.locks hidelock).acqc ≡ 0)
        × ((s'.locks hidelock).scope ≡ (sc + 1) % 2 ^ 32)
        × ((s'.locks hidelock).wtntp ≡ emptied (recorded sc c reqs))
  unfolding barrservers
  round s [] a sc c ea es ec arrivals all lt = let bad : ⊥ = omega arith in elim bad [ ]
  round s (req ∷ []) a sc c ea es ec arrivals all lt =
      let (l, run, la, ls, lc) = barrserver_opens s req arrivals.0 (omega arith) in
      let at : update s.locks hidelock l hidelock ≡ l = update_self s.locks hidelock l in
      let chain : recorded (s.locks hidelock).scope (s.locks hidelock).wtntp (req ∷ [])
          ≡ recorded sc c (req ∷ []) =
        ap₂ (λ x y. recorded x y (req ∷ [])) es ec in
      let scope : ((s.locks hidelock).scope + 1) % 2 ^ 32 ≡ (sc + 1) % 2 ^ 32 =
        ap (λ x. (x + 1) % 2 ^ 32) es in
      (
        set_lock s hidelock l,
        rw run (ap₂ (λ x y. some (set_lock s hidelock l, grantbarr hidelock x y ∷ [])) scope chain),
        ap (λ v. v.acqc) at ∙ la,
        ap (λ v. v.scope) at ∙ ls ∙ scope,
        ap (λ v. v.wtntp) at ∙ lc ∙ ap emptied chain,
      )
  round s (req ∷ r ∷ reqs) a sc c ea es ec arrivals all lt =
      let (l, run, la, ls, lc) = barrserver_waits s req arrivals.0 (omega arith) in
      let at : update s.locks hidelock l hidelock ≡ l = update_self s.locks hidelock l in
      let chain : recorded (s.locks hidelock).scope (s.locks hidelock).wtntp (req ∷ [])
          ≡ recorded sc c (req ∷ []) =
        ap₂ (λ x y. recorded x y (req ∷ [])) es ec in
      let (s', run', ra, rs, rc) =
        round (set_lock s hidelock l) (r ∷ reqs) (a + 1) sc (recorded sc c (req ∷ []))
          (ap (λ v. v.acqc) at ∙ la ∙ ap (λ x. x + 1) ea) (ap (λ v. v.scope) at ∙ ls ∙ es)
          (ap (λ v. v.wtntp) at ∙ lc ∙ chain) arrivals.1 (omega arith) (omega arith) in
      (s', rw (run, run') refl, ra, rs, rc)

  -- When the BARR messages that are still missing, one at least, come in at the barrier's home,
  -- all hosts are let go at the last one and at no other, with all the notices that the messages
  -- carry; the barrier is then without arrivals, with its scope one higher and its chain emptied.
  pub barrier_round :
      (s : SynState) (reqs : List JiaMsg)
      → Arrivals jia_pid hostc reqs
      → (s.locks hidelock).acqc + length reqs ≡ hostc
      → (s.locks hidelock).acqc < hostc
      → (let scope = ((s.locks hidelock).scope + 1) % 2 ^ 32 in
          let chain = recorded (s.locks hidelock).scope (s.locks hidelock).wtntp reqs in
          (s' : SynState) × (barrservers jia_pid hostc s reqs
            ≡ some (s', grantbarr hidelock scope chain ∷ []))
          × ((s'.locks hidelock).acqc ≡ 0)
          × ((s'.locks hidelock).scope ≡ scope)
          × ((s'.locks hidelock).wtntp ≡ emptied chain))
  barrier_round s reqs arrivals all lt = round s reqs _ _ _ refl refl refl arrivals all lt
