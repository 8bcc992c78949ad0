-- ===== src/Msg/Passing/Tests.antt =====
-- A short message, an empty buffer, and a buffer with two packets, and the theorems at them.
use jiajia.Prelude.{
  ℕ, ◌<◌, ◌≤◌, ◌≡◌, ◌⊎◌, refl, arith, true, some, List, [], ◌∷◌, if◌then◌else◌, ◌==◌,
}
use jiajia.Constants.{max_msg_bufs}
use jiajia.Msg.Types.{msgtail, errmsg, JiaMsg}
use jiajia.Msg.Passing.{
  MsgBuf, Received, max_msg_no, msg_all, jia_send, receive_each, wanted_packet, packet_loop,
  nextpacket, jia_recv,
}
use jiajia.Msg.Slots.Counting.{sum_of}
use jiajia.Msg.Passing.Drain.{Drained, jia_recv_drains}
use jiajia.Msg.Passing.Exchange.{jia_send_recv}
use jiajia.Msg.Passing.Free.{free_count}
use jiajia.Msg.Passing.Fragments.{bodies, IsSplit, jia_send_fragments}
use jiajia.Msg.Passing.Oldest.{nextpacket_oldest}

one_fragment :
    (ms : List JiaMsg) × (jia_send 0 2 4 1 7 (5 ∷ 6 ∷ []) ≡ some ms)
    × IsSplit 0 1 7 ms
    × (bodies ms ≡ 5 ∷ 6 ∷ [])
one_fragment = jia_send_fragments 0 1 7 2 4 (5 ∷ 6 ∷ []) (omega arith) (omega arith)

-- The packets in entries 3 and 4 have the numbers 9 and 8.
abbrev two_packets : ℕ → JiaMsg
two_packets i = record {
  op = if i == 3 then msgtail else (if i == 4 then msgtail else errmsg);
  frompid = 1;
  topid = 0;
  temp = 0;
  seqno = if i == 3 then 9 else 8;
  scope = 7;
  body = [];
}

oldest : nextpacket 1 msg_all two_packets ≡ 4
unfolding nextpacket packet_loop
oldest = refl

oldest_of_two :
    (let r = nextpacket 1 7 two_packets in
      ((r ≡ max_msg_bufs)
        × ((j : ℕ)
            → j < max_msg_bufs
            → wanted_packet 1 7 (two_packets j) ≡ true
            → max_msg_no ≤ (two_packets j).seqno))
      ⊎ ((r < max_msg_bufs)
          × (wanted_packet 1 7 (two_packets r) ≡ true)
          × ((two_packets r).seqno < max_msg_no)
          × ((j : ℕ)
              → j < max_msg_bufs
              → wanted_packet 1 7 (two_packets j) ≡ true
              → (two_packets r).seqno ≤ (two_packets j).seqno)))
oldest_of_two = nextpacket_oldest 1 7 two_packets

jia_recv_drains_example :
    (r : Received) × (jia_recv 1 7 100 50 two_packets ≡ some r) × Drained 1 7 100 r
jia_recv_drains_example = jia_recv_drains 1 7 100 50 two_packets (omega arith)

-- After three packets that were taken.
abbrev no_packets : MsgBuf
no_packets = record {
  msgbuf = λ i. record {
    op = errmsg;
    frompid = 0;
    topid = 1;
    temp = 0;
    seqno = 3;
    scope = 7;
    body = 9 ∷ [];
  };
  msgseqno = 3;
}

no_packets-free_count : free_count no_packets.msgbuf ≡ max_msg_bufs
unfolding sum_of
no_packets-free_count = refl

jia_send_recv_example :
    (ms : List JiaMsg) × (s' : MsgBuf) × (r : Received) × (jia_send 0 2 4 1 7 (5 ∷ 6 ∷ [])
      ≡ some ms)
    × (receive_each ms no_packets ≡ some s')
    × (jia_recv 0 7 2 50 s'.msgbuf ≡ some r)
    × (r.buf ≡ 5 ∷ 6 ∷ [])
jia_send_recv_example =
    jia_send_recv 0 1 7 2 4 50 (5 ∷ 6 ∷ []) no_packets (omega arith) (omega arith)
      (omega (arith, no_packets-free_count)) (omega (arith, no_packets-free_count))
      (omega (arith, no_packets-free_count)) (λ j lt. refl)
