-- ===== src/Msg/Reduce.antt =====
-- The schedule of `jia_reduce` of src/msg/msguser.c: which host sends to which in a round. What it sends
-- and receives is left out, since its `jia_recv` does not wait for the message.
pub mod Actions
pub mod Powers
pub mod Schedule
mod Tests
use jiajia.Prelude.{ℕ, ◌+◌, ◌-◌, ◌%◌, ◌^◌, if◌then◌else◌, ◌==◌, ltb}

-- What a host does in a round.
pub data Action : Type 0 where
  idle : Action
  send_to : ℕ → Action
  recv_from : ℕ → Action

module _ (hostc root : ℕ) where
  abbrev pub tree_place : ℕ → ℕ
  tree_place jia_pid = (jia_pid + hostc - root) % hostc

  -- The body of the loop, for round j.
  unfoldable pub action : ℕ → ℕ → Action
  action j jia_pid =
      let mypid = tree_place jia_pid in
      if mypid % 2 ^ j == 0
      then (if mypid % 2 ^ (j + 1) == 0
          then (if ltb (mypid + 2 ^ j) hostc
              then recv_from ((mypid + 2 ^ j + root) % hostc)
              else idle)
          else send_to ((mypid - 2 ^ j + root) % hostc))
      else idle
