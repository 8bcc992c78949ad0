-- ===== src/Msg/Passing/Drain.antt =====
-- `jia_recv` of src/msg/msguser.c comes back.
use jiajia.Prelude.{
  ℕ, zero, suc, ◌+◌, ◌-◌, ◌≤◌, ◌<◌, ◌≡◌, refl, ap, [], ◌∙◌, arith, Bool, true, false, ◌&&◌, some,
  List, ◌==◌, ltb, update_self, update_ne, length, length-take, length-append, take, min,
  if◌then◌else◌, Bool-cases, inl, inr,
}
use jiajia.Constants.{max_msg_bufs}
use jiajia.Msg.Types.{JiaMsg, errmsg, msgtail}
use jiajia.Msg.Slots.Counting.{sum_of, sum_of-update}
use jiajia.Msg.Passing.{
  max_msg_no, same_op, wanted_packet, nextpacket, Received, clear_packet, copy_packet, nextmsg,
  jia_recv,
}
use jiajia.Msg.Passing.Oldest.{nextpacket_oldest}

cleared-same_op :
    (msgbuf : ℕ → JiaMsg) (i : ℕ) → same_op (clear_packet msgbuf i i).op msgtail ≡ false
cleared-same_op msgbuf i =
    ap (λ m. same_op m.op msgtail) (update_self msgbuf i (record (msgbuf i) { op = errmsg }))

module _ (fromproc tag : ℕ) where
  -- A packet that `nextpacket` may return.
  abbrev pub waits : JiaMsg → Bool
  waits m = wanted_packet fromproc tag m && ltb m.seqno max_msg_no

  abbrev pub weight : JiaMsg → ℕ
  weight m = if waits m then 1 else 0

  late_waits :
      (m : JiaMsg) → (wanted_packet fromproc tag m ≡ true → max_msg_no ≤ m.seqno) → waits m ≡ false
  late_waits m late = elim (Bool-cases (wanted_packet fromproc tag m)) [
    | inl w ↦ let e : ltb m.seqno max_msg_no ≡ false = ground (arith, late w) in rw (w, e)
    | inr w ↦ rw w
  ]

  weight-waits :
      (m : JiaMsg) → wanted_packet fromproc tag m ≡ true → m.seqno < max_msg_no → weight m ≡ 1
  weight-waits m w small = let e : ltb m.seqno max_msg_no ≡ true = ground arith in rw (w, e)

  module _ (len : ℕ) where
    -- A round that finds packet i.
    abbrev pub after_round : Received → ℕ → Received
    after_round s i = record {
      endofmsg = false;
      msgbuf = clear_packet s.msgbuf i;
      buf = copy_packet len s.buf (s.msgbuf i).body;
    }

    pub nextmsg_round :
        (f i : ℕ) (s : Received)
        → s.endofmsg ≡ false
        → (i == max_msg_bufs) ≡ false
        → nextmsg fromproc tag len (suc f) i s
          ≡ nextmsg fromproc tag len f
              (nextpacket fromproc tag s.msgbuf)
              (after_round s (nextpacket fromproc tag s.msgbuf))
    unfolding nextmsg
    nextmsg_round f i s open_ e =
        rw (open_, e, cleared-same_op s.msgbuf (nextpacket fromproc tag s.msgbuf))

    pub nextmsg_end :
        (f i : ℕ) (s : Received) → i ≡ max_msg_bufs → nextmsg fromproc tag len (suc f) i s ≡ some s
    unfolding nextmsg
    nextmsg_end f i s e =
        let full : i == max_msg_bufs ≡ true = ground arith in rw full (ground arith)

    pub copy_packet-fits :
        (buf body : List ℕ) → length buf ≤ len → length (copy_packet len buf body) ≤ len
    copy_packet-fits buf body fits = omega (
      arith,
      length-append buf (take (min (length body) (len - length buf)) body),
      length-take (min (length body) (len - length buf)) body,
    )

    -- What has come out when the loop ends.
    abbrev pub Drained : Received → Type 0
    Drained r =
        (r.endofmsg ≡ false)
        × (length r.buf ≤ len)
        × ((j : ℕ) → j < max_msg_bufs → waits (r.msgbuf j) ≡ false)

    nextmsg-Drained :
        (f i : ℕ) (s : Received)
        → s.endofmsg ≡ false
        → (i == max_msg_bufs) ≡ false
        → length s.buf ≤ len
        → sum_of weight max_msg_bufs s.msgbuf + 2 ≤ f
        → (r : Received) × (nextmsg fromproc tag len f i s ≡ some r) × Drained r
    nextmsg-Drained zero i s open_ e fits enough = absurd (omega arith)
    nextmsg-Drained (suc zero) i s open_ e fits enough = absurd (omega arith)
    nextmsg-Drained (suc (suc f)) i s open_ e fits enough =
        let found = nextpacket fromproc tag s.msgbuf in
        elim (nextpacket_oldest fromproc tag s.msgbuf) [
          | inl (none_, late) ↦ (
            after_round s found,
            nextmsg_round (suc f) i s open_ e ∙ nextmsg_end f found (after_round s found) none_,
            (
              refl,
              copy_packet-fits s.buf (s.msgbuf found).body fits,
              λ j lt.
                  rw (update_ne s.msgbuf found _ j (λ same. omega arith))
                    (late_waits (s.msgbuf j) (late j lt)),
            ),
          )
          | inr (lt, w, small, least) ↦
              let (r, run, d) =
                nextmsg-Drained (suc f) found (after_round s found) refl (ground arith)
                  (copy_packet-fits s.buf (s.msgbuf found).body fits)
                  (omega (
                    arith,
                    weight-waits (s.msgbuf found) w small,
                    sum_of-update weight max_msg_bufs s.msgbuf found
                        (record (s.msgbuf found) { op = errmsg }) lt,
                  )) in
              (r, nextmsg_round (suc f) i s open_ e ∙ run, d)
        ]

    sum_of-weight : (n : ℕ) (msgbuf : ℕ → JiaMsg) → sum_of weight n msgbuf ≤ n
    unfolding sum_of
    sum_of-weight zero msgbuf = omega arith
    sum_of-weight (suc n) msgbuf = ground (arith, sum_of-weight n msgbuf)

    -- `jia_recv` comes back after at most Maxmsgbufs + 2 rounds, whatever is in the buffer, with at most
    -- the bytes that were asked for. It never finds `endofmsg` set: it goes on until no packet from the host
    -- and with the tag, and with a number below Maxmsgno, is in the buffer, of whichever message.
    pub jia_recv_drains :
        (fuel : ℕ) (msgbuf : ℕ → JiaMsg)
        → max_msg_bufs + 2 ≤ fuel
        → (r : Received) × (jia_recv fromproc tag len fuel msgbuf ≡ some r) × Drained r
    unfolding jia_recv
    jia_recv_drains fuel msgbuf enough =
        nextmsg-Drained fuel 0 (record { endofmsg = false; msgbuf = msgbuf; buf = [] }) refl refl
          (omega arith) (omega (arith, sum_of-weight max_msg_bufs msgbuf))
