-- ===== src/Syn/Mutex/Tests.antt =====
-- Runs of a lock of two hosts, and the theorems at them.
use jiajia.Prelude.{ℕ, ◌≡◌, ◌<◌, refl, arith, true, some, List}
use jiajia.Prelude.Bytes.{le_bytes, read_le}
use jiajia.Msg.Types.{acq, rel}
use jiajia.Syn.Server.{SynState, Call, acqserver, relserver}
use jiajia.Syn.Mutex.{
  out, asked, queued, inside, leaving, System, Reach, next, ask, queue, enter, leave,
}
use jiajia.Syn.Mutex.Invariant.{holds}
use jiajia.Syn.Mutex.Safety.{lock_excludes, release_accepted, queue_fits, queue_served}
use jiajia.Syn.Init.{initsyn, initsyn-Reach}
use jiajia.Syn.Notices.{newwtnt}
use jiajia.Syn.Server.Tests.{message}

abbrev idle : SynState
idle = (initsyn 0 2).0

-- Host 1 asks for lock 4 and gets it, then host 0 asks.
taken : (x : System) × Reach 0 2 4 x × (x.1 1 ≡ inside) × (x.1 0 ≡ asked)
unfolding acqserver read_le le_bytes initsyn newwtnt
taken = (
  _,
  next _ _
      (next _ _
        (next _ _ (next _ _ (initsyn-Reach 0 2 4) (ask idle (λ _. out) 1 (omega arith) refl))
          (queue idle _ _ (message acq 1 4) _ refl refl refl refl))
        (enter _ _ 1 refl))
      (ask _ _ 0 (omega arith) refl),
  refl,
  refl,
)

abbrev holder : ℕ
holder = 1

lock_excludes_example : holder ≡ holder
lock_excludes_example = lock_excludes 0 2 4 refl taken.0 holder holder taken.1 taken.2 taken.2

queue_fits_example : (taken.0.0.locks 4).acqc < 2
queue_fits_example = queue_fits 0 2 4 refl taken.0 0 taken.1 taken.3

-- The home has host 0's ACQ too, and host 1 leaves.
both : (x : System) × Reach 0 2 4 x × (x.1 0 ≡ queued) × (x.1 1 ≡ leaving)
unfolding acqserver read_le le_bytes taken
both = (
  _,
  next _ _ (next _ _ taken.1 (queue _ _ _ (message acq 0 4) _ refl refl refl refl))
      (leave _ _ 1 refl),
  refl,
  refl,
)

queue_served_example : (h : ℕ) × (holds (both.0.1 h) ≡ true)
queue_served_example = queue_served 0 2 4 refl both.0 0 both.1 both.2

release_accepted_example :
    (s' : SynState) × (calls : List Call) × (relserver 0 2 both.0.0 (message rel 1 4)
      ≡ some (s', calls))
unfolding read_le le_bytes
release_accepted_example =
    release_accepted 0 2 4 refl both.0 (message rel 1 4) both.1 refl refl both.3
