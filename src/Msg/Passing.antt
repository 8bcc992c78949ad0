-- ===== src/Msg/Passing.antt =====
-- Message passing: `jia_send` and `jia_recv` of src/msg/msguser.c, `nextpacket` and `nextmsg` of
-- src/msg/msg.c, and `msgrecvserver` of src/msg/msgserver.c.
pub mod Fragments
pub mod Oldest
pub mod Drain
pub mod Pending
pub mod Free
pub mod Contents
pub mod Arrive
pub mod Exchange
mod Tests
use jiajia.Prelude.{
  ℕ, zero, suc, ◌+◌, ◌%◌, ◌^◌, Bool, true, false, ◌&&◌, ◌||◌, not, Option, none, some, List, [],
  ◌∷◌, if◌then◌else◌, ◌==◌, ltb, update, take, drop, length, ◌-◌, ◌++◌, min,
}
use jiajia.Constants.{max_msg_size, max_msg_bufs}
use jiajia.Msg.Types.{MsgOp, msgbody, msgtail, errmsg, JiaMsg, op_code, appendmsg}
use jiajia.Syn.Notices.Pack.{◌>>=◌}

-- Maxmsgno
abbrev pub max_msg_no : ℕ
max_msg_no = 0x40000000

-- MSG_PROC_ALL and MSG_TAG_ALL, -1 as a 32-bit pattern
abbrev pub msg_all : ℕ
msg_all = 0xffffffff

module _ (jia_pid : ℕ) where
  abbrev pub fragment : MsgOp → ℕ → ℕ → List ℕ → JiaMsg
  fragment op toproc tag body = record {
    op = op;
    frompid = jia_pid;
    topid = toproc;
    temp = 0;
    seqno = 0;
    scope = tag;
    body = body;
  }

  -- The loop over the bytes that are left, with fuel for its rounds.
  unfoldable pub send_loop : ℕ → ℕ → ℕ → List ℕ → Option (List JiaMsg)
  send_loop zero toproc tag buf = none
  send_loop (suc f) toproc tag buf = elim (ltb max_msg_size (length buf)) [
    | true ↦ do
      body ← appendmsg [] (take max_msg_size buf)
      rest ← send_loop f toproc tag (drop max_msg_size buf)
      some (fragment msgbody toproc tag body ∷ rest)
    | false ↦ do body ← appendmsg [] buf; some (fragment msgtail toproc tag body ∷ [])
  ]

  unfoldable pub jia_send : ℕ → ℕ → ℕ → ℕ → List ℕ → Option (List JiaMsg)
  jia_send hostc fuel toproc tag buf =
      if ltb toproc hostc then send_loop fuel toproc tag buf else none

-- `msgbuf`, and `msgseqno`
pub record MsgBuf : Type 0 where
  pub msgbuf : ℕ → JiaMsg
  pub msgseqno : ℕ

abbrev pub same_op : MsgOp → MsgOp → Bool
same_op a b = op_code a == op_code b

-- The first of the n entries from i on that is free, or the index behind them.
unfoldable pub free_entry : (ℕ → JiaMsg) → ℕ → ℕ → ℕ
free_entry msgbuf zero i = i
free_entry msgbuf (suc n) i =
    let rest = free_entry msgbuf n (i + 1) in if same_op (msgbuf i).op errmsg then i else rest

-- `msgseqno` is an unsigned long, a packet's `seqno` an unsigned int. `none`: "Message Buffer Overflow!"
unfoldable pub msgrecvserver : JiaMsg → MsgBuf → Option MsgBuf
msgrecvserver req s =
    let i = free_entry s.msgbuf max_msg_bufs 0 in
    let seqno = (s.msgseqno + 1) % 2 ^ 64 in
    let kept : JiaMsg = record req { temp = (s.msgbuf i).temp; seqno = seqno % 2 ^ 32 } in
    if ltb i max_msg_bufs
    then some (record { msgbuf = update s.msgbuf i kept; msgseqno = seqno })
    else none

-- What the server thread does with messages that come in one after the other.
unfoldable pub receive_each : List JiaMsg → MsgBuf → Option MsgBuf
receive_each [] s = some s
receive_each (m ∷ ms) s = do next ← msgrecvserver m s; receive_each ms next

-- `endofmsg`, `msgbuf`, and the bytes copied to `buf`, which are `msgsize`.
pub record Received : Type 0 where
  pub endofmsg : Bool
  pub msgbuf : ℕ → JiaMsg
  pub buf : List ℕ

-- Step 2 of the loop's body; msgbuf has an entry behind the last, which the code writes too.
abbrev pub clear_packet : (ℕ → JiaMsg) → ℕ → ℕ → JiaMsg
clear_packet msgbuf i = let packet = msgbuf i in update msgbuf i (record packet { op = errmsg })

-- Step 3.
abbrev pub copy_packet : ℕ → List ℕ → List ℕ → List ℕ
copy_packet len buf body = buf ++ take (min (length body) (len - length buf)) body

module _ (fromproc tag : ℕ) where
  -- Is the entry a packet from the host and with the tag?
  abbrev pub wanted_packet : JiaMsg → Bool
  wanted_packet m =
      (same_op m.op msgtail || same_op m.op msgbody)
      && ((fromproc == msg_all || fromproc == m.frompid) && (tag == msg_all || tag == m.scope))

  -- The loop over the n entries from i on.
  unfoldable pub packet_loop : (ℕ → JiaMsg) → (n i next index : ℕ) → ℕ
  packet_loop msgbuf zero i next index = index
  packet_loop msgbuf (suc n) i next index =
      let older = wanted_packet (msgbuf i) && ltb (msgbuf i).seqno next in
      packet_loop msgbuf n (i + 1) (if older then (msgbuf i).seqno else next)
        (if older then i else index)

  unfoldable pub nextpacket : (ℕ → JiaMsg) → ℕ
  nextpacket msgbuf = packet_loop msgbuf max_msg_bufs 0 max_msg_no max_msg_bufs

  -- The loop, with fuel for its rounds; no message comes in meanwhile.
  unfoldable pub nextmsg : (len fuel i : ℕ) → Received → Option Received
  nextmsg len zero i s = none
  nextmsg len (suc f) i s =
      let found = nextpacket s.msgbuf in
      let cleared = clear_packet s.msgbuf found in
      let rest = nextmsg len f found (record {
        endofmsg = s.endofmsg || same_op (cleared found).op msgtail;
        msgbuf = cleared;
        buf = copy_packet len s.buf (s.msgbuf found).body;
      }) in
      if not s.endofmsg && not (i == max_msg_bufs) then rest else some s

  unfoldable pub jia_recv : (len fuel : ℕ) → (ℕ → JiaMsg) → Option Received
  jia_recv len fuel msgbuf =
      nextmsg len fuel 0 (record { endofmsg = false; msgbuf = msgbuf; buf = [] })
