-- ===== src/Syn/Server/Condvars.antt =====
-- The handlers of src/syn/synserver.c for condition variables and for `jia_wait`.
use jiajia.Prelude.{
  ℕ, zero, suc, ◌+◌, ◌%◌, ◌≡◌, refl, ap, ap₂, ◌∙◌, arith, Bool, true, false, Option, none, some,
  List, [], ◌∷◌, ◌++◌, map, if◌then◌else◌, ◌==◌, ltb, update, update_self, Bool-cases, fun_ext,
  first, first-update, inl, inr,
}
use jiajia.Msg.Types.{MsgOp, wait, waitgrant, setcv, resetcv, waitcv, cvgrant, JiaMsg}
use jiajia.Syn.Server.{
  Condvar, SynState, Call, grantcondv, broadcast_waitgrant, Outcome, asserting, is_for, subject,
}

abbrev pub set_condvar : SynState → ℕ → Condvar → SynState
set_condvar s condv c = record s { condvars = update s.condvars condv c }

-- The loop over the waiters from `i` on, `n` of them.
unfoldable pub grant_waiters : ℕ → (ℕ → ℕ) → ℕ → ℕ → List Call
grant_waiters condv waits i zero = []
grant_waiters condv waits i (suc n) =
    grantcondv condv (waits i) ∷ grant_waiters condv waits (i + 1) n

module _ (jia_pid hostc : ℕ) where
  unfoldable pub setcvserver : SynState → JiaMsg → Outcome
  setcvserver s req =
      let condv = subject req in
      let c = s.condvars condv in
      asserting (is_for req setcv jia_pid) (
        asserting (condv % hostc == jia_pid) (
          some (
            if ltb 0 c.waitc
            then (
              set_condvar s condv (record c { value = 1; waitc = 0 }),
              grant_waiters condv c.waits 0 c.waitc,
            )
            else (set_condvar s condv (record c { value = 1 }), []))))

  unfoldable pub resetcvserver : SynState → JiaMsg → Outcome
  resetcvserver s req =
      let condv = subject req in
      asserting (is_for req resetcv jia_pid)
        (some (set_condvar s condv (record (s.condvars condv) { value = 0 }), []))

  unfoldable pub waitcvserver : SynState → JiaMsg → Outcome
  waitcvserver s req =
      let condv = subject req in
      let old = s.condvars condv in
      let c : Condvar = record old {
        waits = update old.waits old.waitc req.frompid;
        waitc = old.waitc + 1;
      } in
      asserting (is_for req waitcv jia_pid) (
        some (
          if c.value == 1
          then (set_condvar s condv (record c { waitc = 0 }), grant_waiters condv c.waits 0 c.waitc)
          else (set_condvar s condv c, [])))

  unfoldable pub cvgrantserver : SynState → JiaMsg → Outcome
  cvgrantserver s req = asserting (is_for req cvgrant jia_pid) (some (record s { cvwait = 0 }, []))

  unfoldable pub waitserver : SynState → JiaMsg → Outcome
  waitserver s req = asserting (is_for req wait jia_pid) (
      some (
        if s.waitcounter + 1 == hostc
        then (record s { waitcounter = 0 }, broadcast_waitgrant ∷ [])
        else (record s { waitcounter = s.waitcounter + 1 }, [])))

  unfoldable pub waitgrantserver : SynState → JiaMsg → Outcome
  waitgrantserver s req =
      asserting (is_for req waitgrant jia_pid) (some (record s { waitwait = 0 }, []))

-- What a condition variable promises: a flag, and the hosts that wait for it.
pub record Waiting : Type 0 where
  pub is_set : Bool
  pub hosts : List ℕ

abbrev pub abstract : Condvar → Waiting
abstract c = record { is_set = c.value == 1; hosts = first c.waits c.waitc }

-- A request of a host, and the hosts that it lets go.
abbrev pub serve_set : Waiting → Waiting × List ℕ
serve_set w = (record { is_set = true; hosts = [] }, w.hosts)

abbrev pub serve_reset : Waiting → Waiting × List ℕ
serve_reset w = (record w { is_set = false }, [])

abbrev pub serve_wait : ℕ → Waiting → Waiting × List ℕ
serve_wait host w =
    if w.is_set
    then (record w { hosts = [] }, w.hosts ++ (host ∷ []))
    else (record w { hosts = w.hosts ++ (host ∷ []) }, [])

-- An outcome seen as the abstract variable and the grants.
abbrev pub seen : ℕ → Outcome → Option (Waiting × List Call)
seen condv none = none
seen condv (some o) = some (abstract (o.0.condvars condv), o.1)

abbrev pub granted : ℕ → Waiting × List ℕ → Option (Waiting × List Call)
granted condv o = some (o.0, map (grantcondv condv) o.1)

grant_waiters-first :
    (condv : ℕ) (waits : ℕ → ℕ) (i n : ℕ)
    → grant_waiters condv waits i n ≡ map (grantcondv condv) (first (λ j. waits (i + j)) n)
unfolding grant_waiters
grant_waiters-first condv waits i zero = refl
grant_waiters-first condv waits i (suc n) =
    ap₂ (λ w cs. grantcondv condv (waits w) ∷ cs) (omega arith)
      (grant_waiters-first condv waits (i + 1) n
        ∙ ap (λ f. map (grantcondv condv) (first f n)) (fun_ext (λ j. ap waits (omega arith))))

grant_waiters_all :
    (condv : ℕ) (waits : ℕ → ℕ) (n : ℕ)
    → grant_waiters condv waits 0 n ≡ map (grantcondv condv) (first waits n)
grant_waiters_all condv waits n =
    grant_waiters-first condv waits 0 n
    ∙ ap (λ f. map (grantcondv condv) (first f n)) (fun_ext (λ j. ap waits (omega arith)))

seen-set :
    (s : SynState) (condv : ℕ) (c : Condvar) (calls : List Call)
    → seen condv (some (set_condvar s condv c, calls)) ≡ some (abstract c, calls)
seen-set s condv c calls = ap (λ v. some (abstract v, calls)) (update_self s.condvars condv c)

none_left :
    (g : ℕ → Call) (waits : ℕ → ℕ) (n : ℕ)
    → ltb 0 n ≡ false
    → ◌≡◌ {A = Option (Waiting × List Call)}
        (some (record { is_set = true; hosts = first waits n }, []))
        (some (record { is_set = true; hosts = [] }, map g (first waits n)))
none_left g waits zero e = refl
none_left g waits (suc n) e = ground arith

-- At its home, a SETCV sets the condition variable and lets all its waiters go, in their order.
setcvserver_refines :
    (jia_pid hostc : ℕ) (s : SynState) (req : JiaMsg)
    → is_for req setcv jia_pid ≡ true
    → (subject req % hostc == jia_pid) ≡ true
    → seen (subject req) (setcvserver jia_pid hostc s req)
      ≡ granted (subject req) (serve_set (abstract (s.condvars (subject req))))
unfolding setcvserver
setcvserver_refines jia_pid hostc s req mine home =
    elim (Bool-cases (ltb 0 (s.condvars (subject req)).waitc)) [
      | inl e ↦
          rw (mine, home, e)
            (seen-set s (subject req) _ _
              ∙ ap (λ cs. some (record { is_set = true; hosts = [] }, cs))
                  (grant_waiters_all (subject req) (s.condvars (subject req)).waits _))
      | inr e ↦
          rw (mine, home, e)
            (seen-set s (subject req) _ _
              ∙ none_left (grantcondv (subject req)) (s.condvars (subject req)).waits _ e)
    ]

-- A RESETCV clears the condition variable, and keeps its waiters.
resetcvserver_refines :
    (jia_pid hostc : ℕ) (s : SynState) (req : JiaMsg)
    → is_for req resetcv jia_pid ≡ true
    → seen (subject req) (resetcvserver jia_pid hostc s req)
      ≡ granted (subject req) (serve_reset (abstract (s.condvars (subject req))))
unfolding resetcvserver
resetcvserver_refines jia_pid hostc s req mine = rw mine (seen-set s (subject req) _ [])

-- A WAITCV of a host lets it go, with all waiters before it, if the condition variable is set;
-- otherwise the host waits behind them.
waitcvserver_refines :
    (jia_pid hostc : ℕ) (s : SynState) (req : JiaMsg)
    → is_for req waitcv jia_pid ≡ true
    → seen (subject req) (waitcvserver jia_pid hostc s req)
      ≡ granted (subject req) (serve_wait req.frompid (abstract (s.condvars (subject req))))
unfolding waitcvserver
waitcvserver_refines jia_pid hostc s req mine =
    elim (Bool-cases ((s.condvars (subject req)).value == 1)) [
      | inl e ↦
          rw (mine, e)
            (seen-set s (subject req) _ _
              ∙ ap₂ (λ b cs. some (record { is_set = b; hosts = [] }, cs)) e
                  (grant_waiters_all (subject req) _ _
                    ∙ ap (map (grantcondv (subject req))) (
                        first-update (s.condvars (subject req)).waits
                          (s.condvars (subject req)).waitc req.frompid)))
      | inr e ↦
          rw (mine, e)
            (seen-set s (subject req) _ _
              ∙ ap₂ (λ b hs. some (record { is_set = b; hosts = hs }, [])) e
                  (first-update (s.condvars (subject req)).waits (s.condvars (subject req)).waitc
                    req.frompid))
    ]

-- The three requests for a condition variable, with their handlers and what they ask for.
pub data CvRequest : Type 0 where
  set_request reset_request wait_request : CvRequest

abbrev pub request_op : CvRequest → MsgOp
request_op set_request = setcv
request_op reset_request = resetcv
request_op wait_request = waitcv

abbrev pub handle_request : CvRequest → (jia_pid hostc : ℕ) → SynState → JiaMsg → Outcome
handle_request set_request jia_pid hostc s req = setcvserver jia_pid hostc s req
handle_request reset_request jia_pid hostc s req = resetcvserver jia_pid hostc s req
handle_request wait_request jia_pid hostc s req = waitcvserver jia_pid hostc s req

abbrev pub serve_request : CvRequest → ℕ → Waiting → Waiting × List ℕ
serve_request set_request host w = serve_set w
serve_request reset_request host w = serve_reset w
serve_request wait_request host w = serve_wait host w

-- At the home of a condition variable, a SETCV sets it and lets all its waiters go, in their order; a
-- RESETCV clears it, and keeps the waiters; a WAITCV lets its host go, with all waiters before it, if
-- the variable is set, and otherwise makes the host wait behind them.
pub condvars_refine :
    (r : CvRequest) (jia_pid hostc : ℕ) (s : SynState) (req : JiaMsg)
    → is_for req (request_op r) jia_pid ≡ true
    → (subject req % hostc == jia_pid) ≡ true
    → seen (subject req) (handle_request r jia_pid hostc s req)
      ≡ granted (subject req) (serve_request r req.frompid (abstract (s.condvars (subject req))))
condvars_refine set_request jia_pid hostc s req mine home =
    setcvserver_refines jia_pid hostc s req mine home
condvars_refine reset_request jia_pid hostc s req mine home =
    resetcvserver_refines jia_pid hostc s req mine
condvars_refine wait_request jia_pid hostc s req mine home =
    waitcvserver_refines jia_pid hostc s req mine
