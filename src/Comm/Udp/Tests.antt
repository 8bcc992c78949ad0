-- ===== src/Comm/Udp/Tests.antt =====
-- Runs of the link, and the theorems at them.
use jiajia.Prelude.{ℕ, ◌≡◌, ◌≢◌, refl, ◌⊎◌, [], ◌∷◌, ◌++◌, arith}
use jiajia.Comm.Udp.{Packet, waiting, timeout, listen, start, verdict, act, failed, finish}
use jiajia.Comm.Udp.Link.{
  In, here, there, Link, settle, sends, arrives, gets_ack, Reach, start_here, after, init,
}
use jiajia.Comm.Udp.Delivery.{delivered_in_order}
use jiajia.Comm.Udp.Stages.{current}
use jiajia.Comm.Udp.Wedge.{lost_message_blocks}

-- Hosts 0 and 1; the first of two messages arrives twice and is acked.
abbrev first : Packet ℕ
first = record { seqno = 0; frompid = 0; topid = 1; body = 7 }

acked_once :
    (m : Link ℕ) × Reach 0 1 (init (7 ∷ 8 ∷ [])) m × (m.dropped ≡ 0) × (m.listener.inqueue ≡ 7 ∷ [])
unfolding init start listen settle act finish verdict
acked_once = (
  _,
  after
      (after (after (after start_here (sends 7 (8 ∷ []) refl refl)) (arrives first here))
        (arrives first here))
      (gets_ack first 0 (record { seqno = 1; sid = 1 }) refl here),
  refl,
  refl,
)

delivered_in_order_example :
    (acked_once.0.through ++ (current acked_once.0.client.phase ++ acked_once.0.todo) ≡ 7 ∷ 8 ∷ [])
    × ((acked_once.0.listener.inqueue ≡ acked_once.0.through)
        ⊎ (acked_once.0.listener.inqueue
            ≡ acked_once.0.through ++ current acked_once.0.client.phase))
delivered_in_order_example = delivered_in_order (omega arith) acked_once.0 acked_once.1 acked_once.2

-- The second message is lost, and the 50th attempt times out; a repetition of the first is still on the
-- network, and another message is to go.
abbrev second : Packet ℕ
second = record { seqno = 1; frompid = 0; topid = 1; body = 8 }

abbrev last_attempt : Link ℕ
last_attempt = record {
  client = record { snd_seq = λ _. 1; phase = waiting second 49 };
  listener = record { rcv_seq = λ _. 1; inqueue = 7 ∷ [] };
  todo = 9 ∷ [];
  data_net = first ∷ [];
  ack_net = [];
  through = 7 ∷ [];
  dropped = 0;
}

-- The message is given up, the next one is sent, and it and the repetition arrive.
gone_on : (m : Link ℕ) × Reach 0 1 (settle last_attempt second 49 (verdict second 49 timeout)) m
unfolding start listen settle act finish verdict failed
gone_on = (
  _,
  after
      (after (after start_here (sends 9 [] refl refl))
        (arrives (record { seqno = 2; frompid = 0; topid = 1; body = 9 }) here))
      (arrives first (there here)),
)

only_first : (p : Packet ℕ) → In p (first ∷ []) → (p.frompid ≡ 0) × (p.seqno ≢ 1)
only_first p here = (refl, λ z. absurd (omega (arith, z)))
only_first p (there h) = elim h [ ]

lost_message_blocks_example :
    (gone_on.0.listener.inqueue ≡ 7 ∷ [])
    × ((p : Packet ℕ)
        → In p gone_on.0.data_net
        → (listen gone_on.0.listener p).0 ≡ gone_on.0.listener)
lost_message_blocks_example =
    lost_message_blocks 0 1 49 last_attempt gone_on.0 second refl refl (refl, refl, refl) refl
      only_first (omega arith) gone_on.1
