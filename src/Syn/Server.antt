-- ===== src/Syn/Server.antt =====
-- The message handlers of src/syn/synserver.c. A handler returns the new state and the calls that it
-- makes into other parts, in their order; `none` is a failed assertion, which ends the program.
pub mod Queue
pub mod Requests
pub mod Barrier
pub mod Condvars
pub mod Tests
use jiajia.Prelude.{
  ℕ, zero, suc, ◌+◌, ◌-◌, ◌%◌, ◌^◌, Bool, true, false, ◌&&◌, Option, none, some, List, [], ◌∷◌,
  ◌++◌, if◌then◌else◌, ◌==◌, ltb, update,
}
use jiajia.Prelude.Bytes.{read_le}
use jiajia.Constants.{int_bytes, hidelock, max_locks}
use jiajia.Msg.Types.{
  MsgOp, acq, acqgrant, invld, barr, barrgrant, rel, wtnt, wait, waitgrant, setcv, resetcv, waitcv,
  cvgrant, JiaMsg, op_code,
}
use jiajia.Syn.Notices.{Chain, freewtntspace}
use jiajia.Syn.Notices.Send.{recordwtnts}

-- jialock_t. The scopes are 32-bit patterns, `-1` being 0xffffffff.
pub record JiaLock : Type 0 where
  pub acqs : ℕ → ℕ
  pub acqscope : ℕ → ℕ
  pub acqc : ℕ
  pub scope : ℕ
  pub myscope : ℕ
  pub wtntp : Chain

-- jiacv_t
pub record Condvar : Type 0 where
  pub waits : ℕ → ℕ
  pub waitc : ℕ
  pub value : ℕ

-- The globals of syn.c that the handlers share with the user's thread; the flags are 0 or 1.
pub record SynState : Type 0 where
  pub locks : ℕ → JiaLock
  pub condvars : ℕ → Condvar
  pub noclearlocks : ℕ
  pub waitcounter : ℕ
  pub acqwait : ℕ
  pub barrwait : ℕ
  pub waitwait : ℕ
  pub cvwait : ℕ

pub data Call : Type 0 where
  grantlock : (lock toproc acqscope : ℕ) → Call
  grantbarr : (lock scope : ℕ) → Chain → Call
  grantcondv : (condv toproc : ℕ) → Call
  broadcast_waitgrant migarrangehome : Call
  invalidate : JiaMsg → Call

abbrev pub Outcome : Type 0
Outcome = Option (SynState × List Call)

-- `jia_assert(cond, …)` in front of the rest.
abbrev pub asserting : Bool → Outcome → Outcome
asserting true rest = rest
asserting false rest = none

abbrev pub set_lock : SynState → ℕ → JiaLock → SynState
set_lock s lock l = record s { locks = update s.locks lock l }

abbrev pub record_notices : SynState → JiaMsg → Chain
record_notices s req = recordwtnts (λ i. (s.locks i).wtntp) (λ i. (s.locks i).scope) req

-- The lock or condition variable that a message is about, `(int)stol(req->data)`.
abbrev pub subject : JiaMsg → ℕ
subject req = read_le int_bytes req.body

-- `(req->op == op) && (req->topid == jia_pid)`
abbrev pub is_for : JiaMsg → MsgOp → ℕ → Bool
is_for req op jia_pid = op_code req.op == op_code op && req.topid == jia_pid

-- Requests of a lock's queue, in order, moved up by one; the entry behind the last stays.
abbrev pub shift : ℕ → (ℕ → ℕ) → ℕ → ℕ
shift acqc f i = if ltb i (acqc - 1) then f (i + 1) else f i

-- The atomic operations on `acqc` are this thread's alone.
pub grant_first : ℕ → JiaLock → Bool → List Call
grant_first lock l true = grantlock lock (l.acqs 0) (l.acqscope 0) ∷ []
grant_first lock l false = []

-- `freewtntspace` on a chain that is not WNULL: at the barrier's home and of a host's own locks.
abbrev pub emptied : Chain → Chain
emptied c = elim (freewtntspace c) [ none ↦ c | some d ↦ d ]

module _ (jia_pid hostc : ℕ) where
  unfoldable pub acqserver : SynState → JiaMsg → Outcome
  unfolding grant_first
  acqserver s req =
      let lock = subject req in
      let old = s.locks lock in
      let l : JiaLock = record old {
        acqs = update old.acqs old.acqc req.frompid;
        acqscope = update old.acqscope old.acqc req.scope;
        acqc = old.acqc + 1;
      } in
      asserting (is_for req acq jia_pid) (
        asserting (lock % hostc == jia_pid)
          (some (set_lock s lock l, grant_first lock l (l.acqc == 1))))

  -- A REL when acqc is 0 makes it -1 in the code; here it stays 0.
  unfoldable pub relserver : SynState → JiaMsg → Outcome
  unfolding grant_first
  relserver s req =
      let lock = subject req in
      let old = s.locks lock in
      let l : JiaLock = record old {
        wtntp = record_notices s req;
        scope = (old.scope + 1) % 2 ^ 32;
        acqs = shift old.acqc old.acqs;
        acqscope = shift old.acqc old.acqscope;
        acqc = old.acqc - 1;
      } in
      let s' : SynState = record s {
        noclearlocks = if ltb (s.locks hidelock).myscope req.scope then 1 else s.noclearlocks;
      } in
      asserting (is_for req rel jia_pid) (
        asserting (lock % hostc == jia_pid) (
          asserting (req.frompid == old.acqs 0)
            (some (set_lock s' lock l, grant_first lock l (ltb 0 l.acqc)))))

  unfoldable pub acqgrantserver : SynState → JiaMsg → Outcome
  acqgrantserver s req =
      let lock = subject req in
      asserting (is_for req acqgrant jia_pid) (
        some (
          record (set_lock s lock (record (s.locks lock) { myscope = req.scope })) { acqwait = 0 },
          invalidate req ∷ [],
        ))

  unfoldable pub invserver : SynState → JiaMsg → Outcome
  invserver s req = asserting (is_for req invld jia_pid) (some (s, invalidate req ∷ []))

  unfoldable pub wtntserver : SynState → JiaMsg → Outcome
  wtntserver s req =
      let lock = subject req in
      asserting (is_for req wtnt jia_pid) (
        asserting (lock % hostc == jia_pid)
          (some (set_lock s lock (record (s.locks lock) { wtntp = record_notices s req }), [])))

  unfoldable pub barrserver : SynState → JiaMsg → Outcome
  unfolding freewtntspace
  barrserver s req =
      let lock = subject req in
      let old = s.locks lock in
      let l : JiaLock = record old { wtntp = record_notices s req; acqc = old.acqc + 1 } in
      asserting (is_for req barr jia_pid) (
        asserting (lock % hostc == jia_pid) (
          asserting (lock == hidelock) (
            some (
              if l.acqc == hostc
              then (
                set_lock s lock (record l {
                  scope = (l.scope + 1) % 2 ^ 32;
                  acqc = 0;
                  wtntp = emptied l.wtntp;
                }),
                grantbarr lock ((l.scope + 1) % 2 ^ 32) l.wtntp ∷ [],
              )
              else (set_lock s lock l, [])))))

  -- The loop of `clearlocks`, with fuel for its rounds.
  unfoldable pub clearlocks : ℕ → ℕ → (ℕ → JiaLock) → ℕ → JiaLock
  clearlocks zero i locks = locks
  clearlocks (suc f) i locks =
      let l : JiaLock = record (locks i) { wtntp = emptied (locks i).wtntp } in
      let rest = clearlocks f (i + hostc) (update locks i l) in
      if ltb i max_locks then rest else locks

  unfoldable pub barrgrantserver : (h_mig : Bool) → SynState → JiaMsg → Outcome
  unfolding freewtntspace
  barrgrantserver h_mig s req =
      let lock = subject req in
      let cleared = if s.noclearlocks == 0 then clearlocks max_locks jia_pid s.locks else s.locks in
      let l : JiaLock = record (cleared lock) { myscope = req.scope } in
      let s' : SynState = record s {
        locks = update cleared lock l;
        barrwait = 0;
        noclearlocks = 0;
      } in
      asserting (is_for req barrgrant jia_pid)
        (some (s', invalidate req ∷ (if h_mig then migarrangehome ∷ [] else [])))
