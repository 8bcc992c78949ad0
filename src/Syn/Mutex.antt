-- ===== src/Syn/Mutex.antt =====
-- A lock of src/syn between the hosts: the users' `jia_lock` and `jia_unlock` (src/syn/synuser.c) with
-- `acqserver`, `relserver` and `acqgrantserver` (src/syn/synserver.c), as steps.
pub mod Invariant
pub mod Safety
mod Tests
use jiajia.Prelude.{ℕ, ◌<◌, ◌≡◌, Bool, true, false, some, List, [], ◌∷◌, update}
use jiajia.Msg.Types.{acq, rel, JiaMsg}
use jiajia.Syn.Server.{
  SynState, Call, grantlock, grantbarr, grantcondv, broadcast_waitgrant, migarrangehome, invalidate,
  is_for, subject, acqserver, relserver,
}
use jiajia.Syn.Server.Queue.{requests}

-- Where a host is with the lock: it does not want it; its ACQ is on its way (`acquire` spins on
-- `acqwait`); the home has the ACQ; its ACQGRANT is on its way; `jia_lock` has returned; its REL is on
-- its way.
pub data Pc : Type 0 where
  out asked queued granted inside leaving : Pc

-- The state at the lock's home, and the hosts.
abbrev pub System : Type 0
System = SynState × (ℕ → Pc)

-- The ACQGRANT messages that the calls of a handler send.
abbrev pub granting : List Call → (ℕ → Pc) → ℕ → Pc
granting [] pc = pc
granting (grantlock lock toproc acqscope ∷ calls) pc = granting calls (update pc toproc granted)
granting (grantbarr _ _ _ ∷ calls) pc = granting calls pc
granting (grantcondv _ _ ∷ calls) pc = granting calls pc
granting (broadcast_waitgrant ∷ calls) pc = granting calls pc
granting (migarrangehome ∷ calls) pc = granting calls pc
granting (invalidate _ ∷ calls) pc = granting calls pc

-- `elsewhere` is any other message that the home serves: it leaves the lock's queue alone.
module _ (home hostc lock : ℕ) where
  pub data Step : System → System → Type 0 where
    ask :
        (s : SynState) (pc : ℕ → Pc) (p : ℕ)
        → p < hostc
        → pc p ≡ out
        → Step (s, pc) (s, update pc p asked)
    queue :
        (s s' : SynState) (pc : ℕ → Pc) (req : JiaMsg) (calls : List Call)
        → is_for req acq home ≡ true
        → subject req ≡ lock
        → pc req.frompid ≡ asked
        → acqserver home hostc s req ≡ some (s', calls)
        → Step (s, pc) (s', granting calls (update pc req.frompid queued))
    enter :
        (s : SynState) (pc : ℕ → Pc) (p : ℕ) → pc p ≡ granted → Step (s, pc) (s, update pc p inside)
    leave :
        (s : SynState) (pc : ℕ → Pc) (p : ℕ) → pc p ≡ inside → Step (s, pc) (s, update pc p leaving)
    release :
        (s s' : SynState) (pc : ℕ → Pc) (req : JiaMsg) (calls : List Call)
        → is_for req rel home ≡ true
        → subject req ≡ lock
        → pc req.frompid ≡ leaving
        → relserver home hostc s req ≡ some (s', calls)
        → Step (s, pc) (s', granting calls (update pc req.frompid out))
    elsewhere :
        (s s' : SynState) (pc : ℕ → Pc)
        → requests (s'.locks lock) ≡ requests (s.locks lock)
        → Step (s, pc) (s', pc)

  -- From a home that has no request, and hosts that do not want the lock.
  pub data Reach : System → Type 0 where
    start : (s : SynState) → requests (s.locks lock) ≡ [] → Reach (s, λ p. out)
    next : (x y : System) → Reach x → Step x y → Reach y
