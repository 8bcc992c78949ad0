-- ===== src/Mem/Diff/Save.antt =====
-- `savediff` and `senddiffs` of src/mem/memsyn.c, and the handlers `diffserver` and `diffgrantserver` of
-- src/mem/memserver.c: the DIFF messages of a host, from the cached pages to the homes. The write vectors
-- (W_VEC) are off; `diffserver` leaves the home page's protection as it was.
pub mod Fill
pub mod Send
pub mod Deliver
mod Tests
use jiajia.Prelude.{
  ℕ, zero, suc, ◌+◌, ◌-◌, Option, none, some, List, [], ◌∷◌, ◌++◌, if◌then◌else◌, ltb, ◌==◌, ◌&&◌,
  update, length,
}
use jiajia.Constants.{max_msg_size}
use jiajia.Msg.Types.{JiaMsg, diff, diffgrant, op_code, appendmsg}
use jiajia.Syn.Notices.Pack.{◌>>=◌}
use jiajia.Syn.Server.{is_for}
use jiajia.Mem.Diff.{Bytes, encodediff, apply_diffs}

-- A cached page that was written: its address, its bytes and its twin.
pub record Written : Type 0 where
  pub addr : ℕ
  pub page : Bytes
  pub twin : Bytes

-- `diffmsg`, with DIFFNULL as none and a message as its bytes; `diffwait`; and what has gone to the
-- outqueue.
pub record Diffs : Type 0 where
  pub diffmsg : ℕ → Option (List ℕ)
  pub diffwait : ℕ
  pub sent : List JiaMsg

abbrev pub diff_to : ℕ → ℕ → List ℕ → JiaMsg
diff_to jia_pid hosti body = record {
  op = diff;
  frompid = jia_pid;
  topid = hosti;
  temp = 0;
  seqno = 0;
  scope = 0;
  body = body;
}

-- The variable `slot` of `savediff` after its first test, by the host's entry of `diffmsg`: a new message
-- without bytes, or `none` where it is not set.
unfoldable pub slot_of : Option (List ℕ) → Option (List ℕ)
slot_of none = some []
slot_of (some body) = none

-- The bytes of the host's message then.
unfoldable pub msg_of : Option (List ℕ) → List ℕ
msg_of none = []
msg_of (some body) = body

-- `move_msg_to_outqueue(slot, &outqueue)`; a variable that is not set is undefined behaviour, `none`.
unfoldable pub move_slot : (jia_pid hosti : ℕ) → Option (List ℕ) → Diffs → Option Diffs
move_slot jia_pid hosti none s = none
move_slot jia_pid hosti (some body) s =
    some (record s { sent = s.sent ++ (diff_to jia_pid hosti body ∷ []) })

-- The diff goes into the message for hosti, or the message goes out first. After the wait for the grants
-- `diffwait` is 0.
unfoldable pub add_diff : (jia_pid hosti : ℕ) → List ℕ → Option (List ℕ) → Diffs → Option Diffs
add_diff jia_pid hosti bytes entry s =
    if ltb max_msg_size (length (msg_of entry) + length bytes)
    then (do
      moved ← move_slot jia_pid hosti (slot_of entry) s
      body ← appendmsg [] bytes
      some (record moved { diffmsg = update s.diffmsg hosti (some body); diffwait = 0 }))
    else (do
      body ← appendmsg (msg_of entry) bytes
      some (record s { diffmsg = update s.diffmsg hosti (some body) }))

module _ (jia_pid : ℕ) (homehost : ℕ → ℕ) where
  unfoldable pub savediff : Written → Diffs → Option Diffs
  savediff w s =
      let hosti = homehost w.addr in
      add_diff jia_pid hosti (encodediff w.page w.twin w.addr) (s.diffmsg hosti) s

  -- The loop of `endinterval` over the cached pages with a write notice, in the cache's order.
  unfoldable pub savediffs : List Written → Diffs → Option Diffs
  savediffs [] s = some s
  savediffs (w ∷ ws) s = savediff w s >>= savediffs ws

-- One round of `senddiffs`, by the host's entry of `diffmsg`.
unfoldable pub send_message : (jia_pid hosti : ℕ) → Option (List ℕ) → Diffs → Diffs
send_message jia_pid hosti none s = s
send_message jia_pid hosti (some body) s =
    let gone = update s.diffmsg hosti none in
    if ltb 0 (length body)
    then record {
      diffmsg = gone;
      diffwait = s.diffwait + 1;
      sent = s.sent ++ (diff_to jia_pid hosti body ∷ []);
    }
    else record s { diffmsg = gone }

-- Its loop, for the n hosts from hosti on.
unfoldable pub senddiff_loop : ℕ → ℕ → ℕ → Diffs → Diffs
senddiff_loop jia_pid zero hosti s = s
senddiff_loop jia_pid (suc n) hosti s =
    senddiff_loop jia_pid n (hosti + 1) (send_message jia_pid hosti (s.diffmsg hosti) s)

unfoldable pub senddiffs : ℕ → ℕ → Diffs → Diffs
senddiffs jia_pid hostc s = senddiff_loop jia_pid hostc 0 s

-- The memory of the home, and the DIFFGRANT. A page takes a byte at least, which bounds the rounds.
unfoldable pub diffserver : ℕ → JiaMsg → Bytes → Option (Bytes × JiaMsg)
diffserver jia_pid req mem =
    if is_for req diff jia_pid
    then some (
      apply_diffs (length req.body) mem req.body,
      record {
        op = diffgrant;
        frompid = jia_pid;
        topid = req.frompid;
        temp = 0;
        seqno = 0;
        scope = 0;
        body = [];
      },
    )
    else none

unfoldable pub diffgrantserver : JiaMsg → ℕ → Option ℕ
diffgrantserver rep diffwait =
    if op_code rep.op == op_code diffgrant && length rep.body == 0
    then some (diffwait - 1)
    else none

-- The homes serve the messages in turn, and the host their grants.
unfoldable pub serve_diffs : List JiaMsg → (ℕ → Bytes) → Option ((ℕ → Bytes) × List JiaMsg)
serve_diffs [] mems = some (mems, [])
serve_diffs (m ∷ ms) mems = do
  r ← diffserver m.topid m (mems m.topid)
  rest ← serve_diffs ms (update mems m.topid r.0)
  some (rest.0, r.1 ∷ rest.1)

unfoldable pub serve_grants : List JiaMsg → ℕ → Option ℕ
serve_grants [] diffwait = some diffwait
serve_grants (m ∷ ms) diffwait = diffgrantserver m diffwait >>= serve_grants ms
