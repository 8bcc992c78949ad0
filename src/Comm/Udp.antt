-- ===== src/Comm/Udp.antt =====
-- The stop-and-wait link of src/udp: `client_thread` and `outsend` (udp_client.c), `listen_thread`
-- (udp_listen.c), and the sequence numbers of comm_manager_t.
pub mod Link
pub mod Stages
pub mod Keeps
pub mod Delivery
pub mod Wedge
mod Tests
use jiajia.Prelude.{
  ℕ, zero, suc, ◌+◌, ◌%◌, ◌^◌, Bool, true, false, ◌&&◌, List, [], ◌∷◌, ◌++◌, if◌then◌else◌, ◌==◌,
  ltb, update,
}

-- The header fields of jia_msg_t that the link reads, with everything else as the body.
pub record Packet {ℓ} (A : Type ℓ) : Type ℓ where
  pub seqno : ℕ
  pub frompid : ℕ
  pub topid : ℕ
  pub body : A

-- ack_t
pub record Ack : Type 0 where
  pub seqno : ℕ
  pub sid : ℕ

abbrev pub retrynum : ℕ
retrynum = 50

-- `unsigned` increment
abbrev pub inc32 : ℕ → ℕ
inc32 n = (n + 1) % 2 ^ 32

-- What the listener keeps: `rcv_seq`, and the messages that it has put into the inqueue.
pub record Listener {ℓ} (A : Type ℓ) : Type ℓ where
  pub rcv_seq : ℕ → ℕ
  pub inqueue : List A

-- What the client is at: waiting for the next message of the outqueue, or inside `outsend` for a
-- message, after `retries_num` failed attempts.
pub data Phase {ℓ} (A : Type ℓ) : Type ℓ where
  idle : Phase A
  waiting : Packet A → ℕ → Phase A

pub record Client {ℓ} (A : Type ℓ) : Type ℓ where
  pub snd_seq : ℕ → ℕ
  pub phase : Phase A

-- What ends a round of `epoll_wait` in `outsend`: the 300 ms pass, a datagram on the ack socket has
-- the wrong size, or it is an ack.
pub data Event : Type 0 where
  timeout short_read : Event
  ack_in : Ack → Event

-- What `outsend` and the retry loop around it do next: go on waiting, send the message again,
-- report a success, or log an error and go on without the message.
pub data Verdict : Type 0 where
  wait_on resend success gave_up : Verdict

-- A failed attempt, as number `n` from 0: the loop makes `retrynum` attempts.
unfoldable pub failed : ℕ → Verdict
failed n = if ltb (n + 1) retrynum then resend else gave_up

module _ {ℓ} {A : Type ℓ} where
  -- One datagram of `listen_thread`. It is acked in any case, and taken only in sequence.
  unfoldable pub listen : Listener A → Packet A → Listener A × Ack
  listen l msg = (
    if msg.seqno == l.rcv_seq msg.frompid
        then record {
          rcv_seq = update l.rcv_seq msg.frompid (inc32 (l.rcv_seq msg.frompid));
          inqueue = l.inqueue ++ (msg.body ∷ []);
        }
        else l,
    record { seqno = inc32 msg.seqno; sid = msg.topid },
  )

  -- "give seqno", and the first `outsend`.
  unfoldable pub start : Client A → ℕ → ℕ → A → Packet A × Client A
  start c frompid topid body =
      let msg : Packet A = record {
        seqno = c.snd_seq topid;
        frompid = frompid;
        topid = topid;
        body = body;
      } in
      (msg, record c { phase = waiting msg 0 })

  -- The test on an ack in `outsend`.
  abbrev pub matches : Packet A → Ack → Bool
  matches msg ack = (ack.sid == msg.topid) && (ack.seqno == inc32 msg.seqno)

  -- "update snd_seq", after a success and after a failure alike.
  unfoldable pub finish : Client A → Packet A → Client A
  finish c msg = record {
    snd_seq = update c.snd_seq msg.topid (inc32 (c.snd_seq msg.topid));
    phase = idle;
  }

  unfoldable pub verdict : Packet A → ℕ → Event → Verdict
  verdict msg n timeout = failed n
  verdict msg n short_read = failed n
  verdict msg n (ack_in ack) = if matches msg ack then success else wait_on

  unfoldable pub act : Client A → Packet A → ℕ → Verdict → Client A
  act c msg n wait_on = c
  act c msg n resend = record c { phase = waiting msg (n + 1) }
  act c msg n success = finish c msg
  act c msg n gave_up = finish c msg
