-- ===== src/Syn/Notices/Send.antt =====
-- `sendwtnts`, `grantlock`, `grantbarr` and `broadcast` of src/syn/syn.c, and `recordwtnts`, which
-- reads what `sendwtnts` sent.
pub mod Stream
pub mod Record
use jiajia.Prelude.{
  ℕ, zero, suc, ◌+◌, ◌%◌, Bool, Option, none, some, List, [], ◌∷◌, ◌++◌, map, take, drop,
  if◌then◌else◌, length,
}
use jiajia.Prelude.Bytes.{le_bytes, read_le}
use jiajia.Constants.{int_bytes, ptr_bytes, hidelock}
use jiajia.Msg.Types.{MsgOp, invld, barr, barrgrant, acqgrant, rel, wtnt, JiaMsg, appendmsg}
use jiajia.Syn.Notices.{Notice, Chain, savewtnt}
use jiajia.Syn.Notices.Pack.{◌>>=◌, appendstackwtnts, appendbarrwtnts, appendlockwtnts}

-- Operation and bytes of a message; the other fields of its header stay the same in a stream.
abbrev pub Packet : Type 0
Packet = MsgOp × List ℕ

-- The loop that the three senders share: while nodes are left, send the message as a `part`, cut it
-- back to the lock id, and append as many nodes as fit; send the last one as `last`. The outer
-- option is an exit, or that the fuel for the rounds ran out.
module _ (append : List ℕ → Chain → Option (List ℕ × Chain)) (part last : MsgOp) where
  unfoldable pub packets : ℕ → List ℕ → Chain → Option (List Packet)
  packets zero msg c = none
  packets (suc f) msg [] = some ((last, msg) ∷ [])
  packets (suc f) msg (node ∷ more) = do
    (msg', c) ← append (take int_bytes msg) (node ∷ more)
    rest ← packets f msg' c
    some ((part, msg) ∷ rest)

  unfoldable pub stream : ℕ → ℕ → Chain → Option (List Packet)
  stream fuel lock wtntp = do
    head ← appendmsg [] (le_bytes int_bytes lock)
    (msg, c) ← append head wtntp
    packets fuel msg c

-- The messages of a stream, to one host.
abbrev pub addressed : ℕ → ℕ → ℕ → List Packet → List JiaMsg
addressed frompid topid scope = map λ p. record {
  op = p.0;
  frompid = frompid;
  topid = topid;
  temp = 0;
  seqno = 0;
  scope = scope;
  body = p.1;
}

module _ (jia_pid hostc fuel : ℕ) where
  -- `operation` is `barr` or `rel`; `barrier` says which, `myscope` is the column of `locks`.
  unfoldable pub sendwtnts : (barrier : Bool) → (ℕ → ℕ) → ℕ → Chain → Option (List JiaMsg)
  sendwtnts barrier myscope lockid wtntp = do
    let operation = if barrier then barr else rel
    let scope = if barrier then myscope hidelock else myscope lockid
    ps ← stream appendstackwtnts wtnt operation fuel lockid wtntp
    some (addressed jia_pid (lockid % hostc) scope ps)

  unfoldable pub grantlock : (ℕ → ℕ) → ℕ → ℕ → Chain → ℕ → ℕ → Option (List JiaMsg)
  grantlock homehost lock scope wtntp toproc acqscope = do
    ps ← stream (appendlockwtnts homehost toproc acqscope) invld acqgrant fuel lock wtntp
    some (addressed jia_pid toproc scope ps)

  -- `broadcast` with B_CAST off: each message goes to every host before the next is built.
  unfoldable pub copies : ℕ → ℕ → ℕ → Packet → List JiaMsg
  copies zero hosti scope p = []
  copies (suc n) hosti scope p =
      addressed jia_pid hosti scope (p ∷ []) ++ copies n (hosti + 1) scope p

  unfoldable pub broadcast : ℕ → List Packet → List JiaMsg
  broadcast scope [] = []
  broadcast scope (p ∷ ps) = copies hostc 0 scope p ++ broadcast scope ps

  unfoldable pub grantbarr : ℕ → ℕ → Chain → Option (List JiaMsg)
  grantbarr lock scope wtntp = do
    ps ← stream appendbarrwtnts invld barrgrant fuel lock wtntp
    some (broadcast scope ps)

-- The loop of `recordwtnts` over what is left of the message, with fuel for its rounds. The third
-- argument of `savewtnt` is `(int)stol(req->data + datai)`: the low bytes of the address.
module _ (frompid scope : ℕ) where
  unfoldable pub record_loop : ℕ → List ℕ → Chain → Chain
  record_loop zero rest c = c
  record_loop (suc f) [] c = c
  record_loop (suc f) (b ∷ bs) c =
      record_loop f (drop (ptr_bytes + int_bytes) (b ∷ bs))
        (savewtnt c (read_le ptr_bytes (b ∷ bs)) (read_le int_bytes (b ∷ bs)) frompid scope)

-- `locks[lock].wtntp` of the lock in the message, and its scope.
unfoldable pub recordwtnts : (ℕ → Chain) → (ℕ → ℕ) → JiaMsg → Chain
recordwtnts wtntp scope req =
    let lock = read_le int_bytes req.body in
    record_loop req.frompid (scope lock) (length req.body) (drop int_bytes req.body) (wtntp lock)
