-- ===== src/Syn/User.antt =====
-- The user's thread of src/syn: the lock stack of src/syn/syn.c (`pushstack`, `popstack`, `acquire`), and
-- `jia_lock`, `jia_unlock`, `jia_barrier`, `jia_wait` and the condition variables of src/syn/synuser.c.
-- A failed assertion is `none`. What `endinterval` saves into the top of the stack is an argument.
pub mod Section
mod Tests
use jiajia.Prelude.{
  ℕ, zero, suc, ◌+◌, ◌-◌, ◌%◌, Bool, true, false, ◌&&◌, ◌||◌, not, Option, none, some, List, [],
  ◌∷◌, ◌++◌, if◌then◌else◌, ◌==◌, ltb, update,
}
use jiajia.Prelude.Bytes.{le_bytes}
use jiajia.Constants.{max_hosts, max_locks, max_stack_size, max_cvs, hidelock, int_bytes}
use jiajia.Msg.Types.{MsgOp, acq, wait, setcv, resetcv, waitcv, JiaMsg, appendmsg}
use jiajia.Syn.Notices.{Notice, Chain, savewtnt, notices}
use jiajia.Syn.Notices.Pack.{◌>>=◌}
use jiajia.Syn.Notices.Send.{sendwtnts}
use jiajia.Syn.Server.{emptied}

-- `lockstack` and `stackptr`; `depth` is `stackptr + 1`, for `stackptr` may become -1.
pub record LockStack : Type 0 where
  pub lockid : ℕ → ℕ
  pub wtntp : ℕ → Chain
  pub depth : ℕ

-- What the thread does outside the stack, in its order; `spin_*` are the loops on the flags, which it
-- sets before the message goes out.
pub data Effect : Type 0 where
  put : JiaMsg → Effect
  spin_acqwait spin_barrwait spin_waitwait spin_cvwait : Effect

abbrev pub Result : Type 0
Result = Option (LockStack × List Effect)

-- The saves of `endinterval` into one chain: home and cached pages of this host.
unfoldable pub save_all : Chain → List Notice → Chain
save_all c [] = c
save_all c (n ∷ ns) = save_all (savewtnt c n.addr n.mig n.from n.scope) ns

-- `migcheckcache` of src/syn/mig.c; `cached` tells whether the page's cache entry is RO or RW.
unfoldable pub mark_cached : (ℕ → Bool) → List Notice → List Notice
mark_cached cached [] = []
mark_cached cached (n ∷ ns) =
    (if cached n.addr then record n { mig = 1 } else n) ∷ mark_cached cached ns

unfoldable pub migcheckcache : (ℕ → Bool) → Chain → Chain
migcheckcache cached [] = []
migcheckcache cached (node ∷ more) = mark_cached cached node ∷ migcheckcache cached more

-- `stackptr`, where it is not -1
abbrev pub top_index : ℕ → ℕ
top_index zero = zero
top_index (suc d) = d

-- Into the top of the stack.
abbrev pub save_top : List Notice → LockStack → LockStack
save_top ns s = record s {
  wtntp = update s.wtntp (top_index s.depth) (save_all (s.wtntp (top_index s.depth)) ns);
}

unfoldable pub pushstack : ℕ → LockStack → Option LockStack
pushstack lock s =
    if ltb s.depth max_stack_size
    then some (record s { lockid = update s.lockid s.depth lock; depth = suc s.depth })
    else none

-- At depth d + 1 the entry d is popped.
unfoldable pub pop_entry : ℕ → LockStack → Option LockStack
pop_entry zero s = none
pop_entry (suc zero) s =
    some (record s { wtntp = update s.wtntp 0 (emptied (s.wtntp 0)); depth = 0 })
pop_entry (suc (suc d)) s =
    let below = save_all (s.wtntp d) (notices (s.wtntp (suc d))) in
    some (record s {
      wtntp = update (update s.wtntp d below) (suc d) (emptied (s.wtntp (suc d)));
      depth = suc d;
    })

unfoldable pub popstack : LockStack → Option LockStack
popstack s = pop_entry s.depth s

-- Is the lock in one of the first n entries?
unfoldable pub is_held : ℕ → (ℕ → ℕ) → ℕ → Bool
is_held lock lockid zero = false
is_held lock lockid (suc n) = lockid n == lock || is_held lock lockid n

abbrev pub puts : List JiaMsg → List Effect
puts [] = []
puts (m ∷ ms) = put m ∷ puts ms

module _ (jia_pid hostc : ℕ) where
  -- The requests that name a lock or a condition variable, to its home.
  unfoldable pub request : MsgOp → ℕ → ℕ → Option JiaMsg
  request op scope id = do
    body ← appendmsg [] (le_bytes int_bytes id)
    some (record {
      op = op;
      frompid = jia_pid;
      topid = id % hostc;
      temp = 0;
      seqno = 0;
      scope = scope;
      body = body;
    })

  unfoldable pub acquire : (ℕ → ℕ) → ℕ → Option (List Effect)
  acquire myscope lock = do
    req ← request acq (myscope lock) lock
    some (put req ∷ spin_acqwait ∷ [])

  unfoldable pub jia_lock : (ℕ → ℕ) → List Notice → ℕ → LockStack → Result
  jia_lock myscope saved lock s =
      if hostc == 1
      then some (s, [])
      else (if ltb lock max_locks && not (is_held lock s.lockid s.depth)
          then acquire myscope lock
            >>= (λ calls. pushstack lock (save_top saved s) >>= (λ s'. some (s', calls)))
          else none)

  unfoldable pub jia_unlock : ℕ → (ℕ → ℕ) → List Notice → ℕ → LockStack → Result
  jia_unlock fuel myscope saved lock s =
      let s' = save_top saved s in
      let top = top_index s.depth in
      if hostc == 1
      then some (s, [])
      else (if ltb lock max_locks && lock == s.lockid top
          then sendwtnts jia_pid hostc fuel false myscope (s'.lockid top) (s'.wtntp top)
            >>= (λ ms. popstack s' >>= (λ s''. some (s'', puts ms)))
          else none)

  -- H_MIG and W_VEC are the first two arguments.
  unfoldable pub jia_wait : List Effect
  jia_wait =
      if hostc == 1
      then []
      else (put (record {
        op = wait;
        frompid = jia_pid;
        topid = 0;
        temp = 0;
        seqno = 0;
        scope = 0;
        body = [];
      })
          ∷ spin_waitwait
          ∷ [])

  unfoldable pub jia_barrier :
      (h_mig w_vec : Bool) → (ℕ → Bool) → ℕ → (ℕ → ℕ) → List Notice → LockStack → Result
  jia_barrier h_mig w_vec cached fuel myscope saved s =
      let s' = save_top saved s in
      let c = if h_mig then migcheckcache cached (s'.wtntp 0) else s'.wtntp 0 in
      if hostc == 1
      then some (s, [])
      else (if s.depth == 1
          then sendwtnts jia_pid hostc fuel true myscope (s'.lockid 0) c >>= (λ ms. some (
            record s' { wtntp = update s'.wtntp 0 (emptied c) },
            puts ms ++ (spin_barrwait ∷ (if h_mig && w_vec then jia_wait else [])),
          ))
          else none)

  unfoldable pub jia_setcv : ℕ → Option (List Effect)
  jia_setcv cvnum =
      if hostc == 1
      then some []
      else (if ltb cvnum max_cvs then request setcv 0 cvnum >>= (λ m. some (put m ∷ [])) else none)

  unfoldable pub jia_resetcv : ℕ → Option (List Effect)
  jia_resetcv cvnum =
      if hostc == 1
      then some []
      else (if ltb cvnum max_cvs
          then request resetcv 0 cvnum >>= (λ m. some (put m ∷ []))
          else none)

  unfoldable pub jia_waitcv : ℕ → Option (List Effect)
  jia_waitcv cvnum =
      if hostc == 1
      then some []
      else (if ltb cvnum max_cvs
          then request waitcv 0 cvnum >>= (λ m. some (put m ∷ spin_cvwait ∷ []))
          else none)
