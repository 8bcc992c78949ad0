-- ===== src/Msg/Bcast.antt =====
-- The broadcast tree: `bcastserver` of src/msg/msgserver.c, `bsendmsg` of src/msg/msg.c.
pub mod Places
pub mod Tree
mod Tests
use jiajia.Prelude.{
  ℕ, zero, suc, ◌+◌, ◌-◌, ◌*◌, ◌/◌, ◌%◌, ◌^◌, Bool, true, false, List, [], ◌∷◌, ◌++◌, if◌then◌else◌,
  ◌==◌, ltb, leb,
}
use jiajia.Msg.Types.{
  MsgOp, diff, diffgrant, getp, getpgrant, acq, acqgrant, invld, barr, barrgrant, rel, wtnt,
  jiaexit, wait, waitgrant, stat, statgrant, errmsg, setcv, resetcv, waitcv, cvgrant, msgbody,
  msgtail, loadreq, loadgrant, bcast_of, JiaMsg,
}

-- `op -= BCAST` on an operation that is at least BCAST
abbrev pub uncast : MsgOp → MsgOp
uncast (bcast_of op) = op
uncast op = op

abbrev pub is_bcast : MsgOp → Bool
is_bcast (bcast_of op) = true
is_bcast op = false

-- `((root & 0xffff) << 16) | (level & 0xffff)`
abbrev pub pack_level : ℕ → ℕ → ℕ
pack_level root level = root % 2 ^ 16 * 2 ^ 16 + level % 2 ^ 16

-- The host's place in the tree, where the root has place 0.
abbrev pub place : ℕ → ℕ → ℕ → ℕ
place hostc root jia_pid = if leb root jia_pid then jia_pid - root else jia_pid + hostc - root

module _ (hostc : ℕ) where
  -- Step 3 of `bcastserver`.
  abbrev pub child : ℕ → JiaMsg → (root level to : ℕ) → JiaMsg
  child jia_pid msg root level to = record msg {
    op = if level == 0 then uncast msg.op else msg.op;
    temp = pack_level root level;
    frompid = jia_pid;
    topid = (to + root) % hostc;
  }

  abbrev pub children : ℕ → JiaMsg → (root level mypid : ℕ) → List JiaMsg
  children jia_pid msg root level mypid =
      let child1 = mypid in
      let child2 = mypid + 2 ^ level in
      (if ltb child2 hostc then child jia_pid msg root level child2 ∷ [] else [])
      ++ (child jia_pid msg root level child1 ∷ [])

  -- The messages that the host puts into its outqueue.
  unfoldable pub bcastserver : ℕ → JiaMsg → List JiaMsg
  bcastserver jia_pid msg =
      let root = msg.temp / 2 ^ 16 % 2 ^ 16 in
      let level = msg.temp % 2 ^ 16 - 1 in
      children jia_pid msg root level (place hostc root jia_pid)

  -- `for (level = 0; (1 << level) < hostc; level++);` from level on, with fuel for the rounds.
  unfoldable pub tree_level : ℕ → ℕ → ℕ
  tree_level zero level = level
  tree_level (suc f) level =
      let rest = tree_level f (level + 1) in if ltb (2 ^ level) hostc then rest else level

  unfoldable pub bsendmsg : ℕ → JiaMsg → List JiaMsg
  bsendmsg jia_pid msg =
      let level = if hostc == 1 then 1 else tree_level hostc 0 in
      bcastserver jia_pid (record msg { op = bcast_of msg.op; temp = pack_level jia_pid level })

  -- The hosts that serve the message itself in the end, when each one that gets it with BCAST passes
  -- it on; with fuel for the depth of the tree.
  unfoldable pub served : ℕ → List JiaMsg → List ℕ
  served zero msgs = []
  served (suc f) [] = []
  served (suc f) (m ∷ ms) =
      (if is_bcast m.op then served f (bcastserver m.topid m) else m.topid ∷ [])
      ++ served (suc f) ms
