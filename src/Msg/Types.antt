-- ===== src/Msg/Types.antt =====
-- msg_op_t of src/include/msg.h, and `appendmsg` of src/tools/tools.c.
use jiajia.Prelude.{
  ℕ, ◌+◌, ◌≤◌, ◌<◌, ◌≡◌, arith, Option, none, some, List, ◌++◌, if◌then◌else◌, leb, length,
}
use jiajia.Constants.{max_msg_size}

-- The operations of a message; `bcast_of op` is the code `op + BCAST`.
pub data MsgOp : Type 0 where
  diff diffgrant getp getpgrant acq acqgrant invld barr barrgrant rel wtnt jiaexit : MsgOp
  wait waitgrant stat statgrant errmsg setcv resetcv waitcv cvgrant : MsgOp
  msgbody msgtail loadreq loadgrant : MsgOp
  bcast_of : MsgOp → MsgOp

-- The value of the enumerator.
abbrev pub op_code : MsgOp → ℕ
op_code diff = 0
op_code diffgrant = 1
op_code getp = 2
op_code getpgrant = 3
op_code acq = 4
op_code acqgrant = 5
op_code invld = 6
op_code barr = 7
op_code barrgrant = 8
op_code rel = 9
op_code wtnt = 10
op_code jiaexit = 11
op_code wait = 12
op_code waitgrant = 13
op_code stat = 14
op_code statgrant = 15
op_code errmsg = 16
op_code setcv = 17
op_code resetcv = 18
op_code waitcv = 19
op_code cvgrant = 20
op_code msgbody = 21
op_code msgtail = 22
op_code loadreq = 23
op_code loadgrant = 24
op_code (bcast_of op) = op_code op + 100

-- jia_msg_t, but for `index`, which nothing reads; the message's bytes are `data` up to `size`.
pub record JiaMsg : Type 0 where
  pub op : MsgOp
  pub frompid : ℕ
  pub topid : ℕ
  pub temp : ℕ
  pub seqno : ℕ
  pub scope : ℕ
  pub body : List ℕ

-- memcpy behind the `size` bytes that the message has. `none`: the assertion "Message too large" fails,
-- and the system exits.
unfoldable pub appendmsg : List ℕ → List ℕ → Option (List ℕ)
appendmsg msg str = if leb (length msg + length str) max_msg_size then some (msg ++ str) else none

pub appendmsg-some :
    (msg str : List ℕ)
    → length msg + length str ≤ max_msg_size
    → appendmsg msg str ≡ some (msg ++ str)
unfolding appendmsg
appendmsg-some msg str h = ground arith

pub appendmsg-none :
    (msg str : List ℕ) → max_msg_size < length msg + length str → appendmsg msg str ≡ none
unfolding appendmsg
appendmsg-none msg str h = ground arith
