-- ===== src/Syn/Server/Tests.antt =====
-- A lock, a condition variable and the barrier of two hosts, and the theorems at them.
use jiajia.Prelude.{ℕ, ◌≡◌, refl, arith, true, false, some, List, [], ◌∷◌, ◌==◌, if◌then◌else◌}
use jiajia.Prelude.Bytes.{le_bytes, read_le}
use jiajia.Constants.{hidelock}
use jiajia.Msg.Types.{MsgOp, rel, barr, setcv, waitcv, JiaMsg}
use jiajia.Syn.Server.{JiaLock, SynState, grantbarr, grantcondv, emptied}
use jiajia.Syn.Server.Queue.{queue_of}
use jiajia.Syn.Server.Requests.{handle_lock, give_back, serve_lock, lock_refines}
use jiajia.Syn.Server.Condvars.{
  setcvserver, waitcvserver, seen, set_request, wait_request, condvars_refine,
}
use jiajia.Syn.Server.Barrier.{barrservers, recorded, barrier_round}

abbrev pub message : MsgOp → ℕ → ℕ → JiaMsg
message op frompid lock = record {
  op = op;
  frompid = frompid;
  topid = 0;
  temp = 0;
  seqno = 0;
  scope = 5;
  body = le_bytes 4 lock;
}

-- Lock 6 is host 1's, and host 0 waits; no host waits for condition variable 2 but host 1.
abbrev pub held_lock : JiaLock
held_lock = record {
  acqs = λ i. if i == 0 then 1 else 0;
  acqscope = λ _. 5;
  acqc = 2;
  scope = 0;
  myscope = 0;
  wtntp = [] ∷ [];
}

abbrev pub free_lock : JiaLock
free_lock = record held_lock { acqc = 0 }

abbrev two_hosts : SynState
two_hosts = record {
  locks = λ i. if i == 6 then held_lock else free_lock;
  condvars = λ _. record { waits = λ _. 1; waitc = 1; value = 0 };
  noclearlocks = 0;
  waitcounter = 0;
  acqwait = 0;
  barrwait = 0;
  waitwait = 0;
  cvwait = 0;
}

lock_refines_example :
    queue_of 6 (handle_lock give_back 0 2 two_hosts (message rel 1 6))
    ≡ some (serve_lock give_back 6 (1, 5) ((1, 5) ∷ (0, 5) ∷ []))
unfolding read_le le_bytes
lock_refines_example = lock_refines give_back 0 2 two_hosts (message rel 1 6) refl refl refl

setcv_runs :
    seen 2 (setcvserver 0 2 two_hosts (message setcv 0 2))
    ≡ some (record { is_set = true; hosts = [] }, grantcondv 2 1 ∷ [])
unfolding read_le le_bytes
setcv_runs = condvars_refine set_request 0 2 two_hosts (message setcv 0 2) refl refl

condvars_refine_example :
    seen 2 (waitcvserver 0 2 two_hosts (message waitcv 0 2))
    ≡ some (record { is_set = false; hosts = 1 ∷ 0 ∷ [] }, [])
unfolding read_le le_bytes
condvars_refine_example = condvars_refine wait_request 0 2 two_hosts (message waitcv 0 2) refl refl

abbrev arrivals : List JiaMsg
arrivals = message barr 1 64 ∷ message barr 0 64 ∷ []

barrier_round_example :
    (s' : SynState) × (barrservers 0 2 two_hosts arrivals
      ≡ some (s', grantbarr hidelock 1 (recorded 0 ([] ∷ []) arrivals) ∷ []))
    × ((s'.locks hidelock).acqc ≡ 0)
    × ((s'.locks hidelock).scope ≡ 1)
    × ((s'.locks hidelock).wtntp ≡ emptied (recorded 0 ([] ∷ []) arrivals))
unfolding read_le le_bytes
barrier_round_example =
    barrier_round 0 2 refl two_hosts arrivals
      (record { mine = refl; lock = refl }, (record { mine = refl; lock = refl }, tt)) refl
      (omega arith)
