-- ===== src/Syn/Server/Requests.antt =====
-- The requests for a lock at its home: `acqserver` and `relserver` of src/syn/synserver.c together.
use jiajia.Prelude.{ℕ, ◌%◌, ◌≡◌, refl, ap, ◌∙◌, true, some, List, [], ◌∷◌, ◌++◌, ◌==◌}
use jiajia.Msg.Types.{MsgOp, acq, rel, JiaMsg}
use jiajia.Syn.Server.{SynState, Call, Outcome, is_for, subject, acqserver, relserver}
use jiajia.Syn.Server.Queue.{
  requests, grant_head, grant_alone, queue_of, acqserver_queues, relserver_queues,
}

pub data LockRequest : Type 0 where
  ask : LockRequest
  give_back : LockRequest

abbrev pub lock_op : LockRequest → MsgOp
lock_op ask = acq
lock_op give_back = rel

abbrev pub handle_lock : LockRequest → (jia_pid hostc : ℕ) → SynState → JiaMsg → Outcome
handle_lock ask = acqserver
handle_lock give_back = relserver

-- The first host of the queue has the lock, and only it gives it back.
abbrev pub MayCome : LockRequest → ℕ → List (ℕ × ℕ) → Type 0
MayCome ask pid queue = Unit
MayCome give_back pid [] = ⊥
MayCome give_back pid (p ∷ queue) = p.0 ≡ pid

-- The queue and the grant after a request.
abbrev pub serve_lock : LockRequest → ℕ → ℕ × ℕ → List (ℕ × ℕ) → List (ℕ × ℕ) × List Call
serve_lock ask lock p queue = (queue ++ (p ∷ []), grant_alone lock queue p)
serve_lock give_back lock p [] = ([], [])
serve_lock give_back lock p (_ ∷ queue) = (queue, grant_head lock queue)

gives_back :
    (jia_pid hostc : ℕ) (s : SynState) (req : JiaMsg) (queue : List (ℕ × ℕ))
    → is_for req rel jia_pid ≡ true
    → (subject req % hostc == jia_pid) ≡ true
    → requests (s.locks (subject req)) ≡ queue
    → MayCome give_back req.frompid queue
    → queue_of (subject req) (relserver jia_pid hostc s req)
      ≡ some (serve_lock give_back (subject req) (req.frompid, req.scope) queue)
gives_back jia_pid hostc s req [] mine home e may = elim may [ ]
gives_back jia_pid hostc s req ((pid, scope) ∷ queue) mine home e may =
    relserver_queues jia_pid hostc s req scope queue mine home
      (e ∙ ap (λ x. (x, scope) ∷ queue) may)

-- At the home of a lock, an ACQ puts its host behind those that wait, and gets the lock at once if there
-- are none; a REL of the first host takes it off, and the lock is granted to the next.
pub lock_refines :
    (k : LockRequest) (jia_pid hostc : ℕ) (s : SynState) (req : JiaMsg)
    → is_for req (lock_op k) jia_pid ≡ true
    → (subject req % hostc == jia_pid) ≡ true
    → MayCome k req.frompid (requests (s.locks (subject req)))
    → queue_of (subject req) (handle_lock k jia_pid hostc s req)
      ≡ some
          (serve_lock k (subject req) (req.frompid, req.scope) (requests (s.locks (subject req))))
lock_refines ask jia_pid hostc s req mine home may = acqserver_queues jia_pid hostc s req mine home
lock_refines give_back jia_pid hostc s req mine home may =
    gives_back jia_pid hostc s req (requests (s.locks (subject req))) mine home refl may
