-- ===== src/Msg/Passing/Exchange.antt =====
-- A message that is sent by `jia_send` and received by `jia_recv`.
use jiajia.Prelude.{
  ℕ, zero, suc, ◌+◌, ◌-◌, ◌≤◌, ◌<◌, ◌≡◌, refl, ap, sym, ◌∙◌, arith, true, false, some, List, [],
  ◌∷◌, ◌++◌, ◌==◌, take, length, append_assoc, length-append, ◌*◌, All,
}
use jiajia.Constants.{max_msg_bufs, max_msg_size}
use jiajia.Msg.Types.{JiaMsg}
use jiajia.Msg.Passing.{
  MsgBuf, max_msg_no, receive_each, wanted_packet, nextpacket, Received, copy_packet, nextmsg,
  jia_recv, jia_send,
}
use jiajia.Msg.Passing.Fragments.{bodies, IsSplit, jia_send_fragments}
use jiajia.Msg.Passing.Pending.{IsPending, nextpacket-nil, nextpacket-first, clear_packet-IsPending}
use jiajia.Msg.Passing.Free.{free_count}
use jiajia.Msg.Passing.Contents.{
  contents, contents-clear_packet, copy_packet-take, copy_more, take_exact,
}
use jiajia.Msg.Passing.Arrive.{receive_each-Come}
use jiajia.Msg.Passing.Drain.{after_round, nextmsg_round, nextmsg_end}

module _ (fromproc tag len : ℕ) where
  below : (j : ℕ) → j < max_msg_bufs → (j == max_msg_bufs) ≡ false
  below j lt = ground arith

  -- The loop copies the packets in order, and then what lies behind the buffer's last entry.
  nextmsg-contents :
      (js : List ℕ) (low high f i : ℕ) (s : Received)
      → high ≤ max_msg_no
      → IsPending fromproc tag s.msgbuf low high js
      → s.endofmsg ≡ false
      → (i == max_msg_bufs) ≡ false
      → length js + 2 ≤ f
      → (r : Received) × (nextmsg fromproc tag len f i s ≡ some r)
        × (r.buf
            ≡ s.buf
              ++ take (len - length s.buf) (contents s.msgbuf js ++ (s.msgbuf max_msg_bufs).body))
  nextmsg-contents js low high zero i s top p open_ e enough = absurd (omega arith)
  nextmsg-contents js low high (suc zero) i s top p open_ e enough = absurd (omega arith)
  nextmsg-contents [] low high (suc (suc f)) i s top p open_ e enough =
      let none_ = nextpacket-nil fromproc tag s.msgbuf low high p in
      (
        after_round fromproc tag len s (nextpacket fromproc tag s.msgbuf),
        nextmsg_round fromproc tag len (suc f) i s open_ e
            ∙ nextmsg_end fromproc tag len f _ _ none_,
        ap (λ k. copy_packet len s.buf (s.msgbuf k).body) none_
            ∙ copy_packet-take len s.buf (s.msgbuf max_msg_bufs).body,
      )
  nextmsg-contents (j ∷ js) low high (suc (suc f)) i s top p open_ e enough =
      let found = nextpacket-first fromproc tag s.msgbuf low high j js top p in
      let (le, lt, w, rest) = p.ordered in
      let next = after_round fromproc tag len s j in
      let (r, run, bytes) =
        nextmsg-contents js ((s.msgbuf j).seqno + 1) high (suc f) j next top
          (clear_packet-IsPending fromproc tag s.msgbuf low high j js p) refl (below j lt)
          (omega arith) in
      (
        r,
        nextmsg_round fromproc tag len (suc f) i s open_ e ∙ rw found run,
        bytes
            ∙ ap (λ b. next.buf ++ take (len - length next.buf) b)
                (contents-clear_packet s.msgbuf j js)
            ∙ copy_more len s.buf (s.msgbuf j).body
                (contents s.msgbuf js ++ (s.msgbuf max_msg_bufs).body)
            ∙ ap (λ b. s.buf ++ take (len - length s.buf) b)
                (sym (
                  append_assoc (s.msgbuf j).body (contents s.msgbuf js)
                    (s.msgbuf max_msg_bufs).body)),
      )

IsSplit-wanted :
    (jia_pid toproc tag : ℕ) (ms : List JiaMsg)
    → IsSplit jia_pid toproc tag ms
    → All (λ m. wanted_packet jia_pid tag m ≡ true) ms
IsSplit-wanted jia_pid toproc tag [] h = tt
IsSplit-wanted jia_pid toproc tag (m ∷ []) (op, from, to, scope, fits) =
    (rw (op, from, scope) (ground arith), tt)
IsSplit-wanted jia_pid toproc tag (m ∷ q ∷ ms) (op, from, to, scope, fits, rest) =
    (rw (op, from, scope) (ground arith), IsSplit-wanted jia_pid toproc tag (q ∷ ms) rest)

IsSplit-count :
    (jia_pid toproc tag : ℕ) (ms : List JiaMsg)
    → IsSplit jia_pid toproc tag ms
    → length ms * max_msg_size ≤ length (bodies ms) + max_msg_size
unfolding bodies
IsSplit-count jia_pid toproc tag [] h = elim h [ ]
IsSplit-count jia_pid toproc tag (m ∷ []) h = omega arith
IsSplit-count jia_pid toproc tag (m ∷ q ∷ ms) (op, from, to, scope, full, rest) =
    let more = IsSplit-count jia_pid toproc tag (q ∷ ms) rest in
    let bytes = length-append m.body (bodies (q ∷ ms)) in omega arith

-- What a host sends is what the other receives: `jia_send` cuts the buffer into messages; when they come
-- in one after the other, and no other packet of the sender and with the tag waits, `jia_recv` for the
-- buffer's length returns the buffer. This with more room in the free entries than the buffer takes, and
-- while the packets' numbers stay below Maxmsgno. A round of `jia_send` for each byte and one more, and a
-- round of `nextmsg` for each free entry and two more, are enough fuel.
pub jia_send_recv :
    (jia_pid toproc tag hostc fuel rounds : ℕ) (buf : List ℕ) (s : MsgBuf)
    → toproc < hostc
    → length buf < fuel
    → free_count s.msgbuf + 2 ≤ rounds
    → length buf < free_count s.msgbuf * max_msg_size
    → s.msgseqno + free_count s.msgbuf < max_msg_no
    → ((j : ℕ) → j < max_msg_bufs → wanted_packet jia_pid tag (s.msgbuf j) ≡ false)
    → (ms : List JiaMsg) × (s' : MsgBuf) × (r : Received) × (jia_send jia_pid hostc fuel toproc tag
          buf
        ≡ some ms)
      × (receive_each ms s ≡ some s')
      × (jia_recv jia_pid tag (length buf) rounds s'.msgbuf ≡ some r)
      × (r.buf ≡ buf)
unfolding jia_recv
jia_send_recv jia_pid toproc tag hostc fuel rounds buf s lt sends recvs room numbers unwanted =
    let (ms, sent, split, all) = jia_send_fragments jia_pid toproc tag hostc fuel buf lt sends in
    let count = IsSplit-count jia_pid toproc tag ms split in
    let size = ap length all in
    let few : length ms ≤ free_count s.msgbuf = omega arith in
    let none_ : IsPending jia_pid tag s.msgbuf 0 (s.msgseqno + 1) [] = record {
      ordered = omega arith;
      all = λ j below w. absurd (grind (arith, w, unwanted j below));
    } in
    let (s', js, come, number, pending, many, bytes) =
      receive_each-Come jia_pid tag ms s 0 [] (IsSplit-wanted jia_pid toproc tag ms split) few
        (omega arith) none_ in
    let (r, run, got) =
      nextmsg-contents jia_pid tag (length buf) js 0 (s'.msgseqno + 1) rounds 0
        (record { endofmsg = false; msgbuf = s'.msgbuf; buf = [] }) (omega arith) pending refl refl
        (omega arith) in
    (ms, s', r, sent, come, run, got ∙ take_exact buf _ _ (bytes ∙ all))
