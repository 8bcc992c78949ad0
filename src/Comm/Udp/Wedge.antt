-- ===== src/Comm/Udp/Wedge.antt =====
-- What a given-up message does to the link: `client_thread` counts it in `snd_seq`, the receiver
-- does not count it in `rcv_seq`, and nothing brings the two together again.
use jiajia.Prelude.{
  ℕ, ◌+◌, ◌^◌, ◌<◌, ◌≡◌, ◌≢◌, refl, List, [], ◌∷◌, ◌++◌, length, arith, ◌==◌, update, update_self,
  false,
}
use native.Mathlib.Nat.{mod-eq_of_lt}
use jiajia.Comm.Udp.{
  Packet, Phase, idle, waiting, timeout, short_read, ack_in, Verdict, wait_on, resend, success,
  gave_up, listen, start, finish, failed, verdict, act, inc32, retrynum,
}
use jiajia.Comm.Udp.Link.{
  In, here, there, Link, settle, Step, sends, times_out, reads_short, gets_ack, gets_foreign_ack,
  arrives, loses_data, loses_ack, Reach, start_here, after,
}
use jiajia.Comm.Udp.Stages.{current, Fits, In-insert}

module _ {A : Type 0} (s r lo : ℕ) (q : List A) where
  record Blocked (l : Link A) : Type 0 where
    waits_for : l.listener.rcv_seq s ≡ lo
    queue : l.listener.inqueue ≡ q
    ahead : lo < l.client.snd_seq r
    small : l.client.snd_seq r + length (current l.client.phase) + length l.todo < 2 ^ 32
    fits : Fits s r (l.client.snd_seq r) l.client.phase
    later : (p : Packet A) → In p l.data_net → (p.frompid ≡ s) × (p.seqno ≢ lo)

  sends-Blocked :
      (l : Link A) (body : A) (rest : List A) (ph : Phase A)
      → l.client.phase ≡ ph
      → ph ≡ idle
      → l.todo ≡ body ∷ rest
      → Blocked l
      → Blocked (record l {
        client = (start l.client s r body).1;
        todo = rest;
        data_net = (start l.client s r body).0 ∷ l.data_net;
      })
  unfolding start
  sends-Blocked l body rest (waiting msg n) e i t b = cc
  sends-Blocked l body rest idle e i t b = record {
    waits_for = b.waits_for;
    queue = b.queue;
    ahead = b.ahead;
    small = omega (arith, rw (e, t) at b.small);
    fits = (refl, refl, refl);
    later = net;
  }
    where
      net :
          (p : Packet A)
          → In p ((start l.client s r body).0 ∷ l.data_net)
          → (p.frompid ≡ s) × (p.seqno ≢ lo)
      net p here = (refl, λ z. absurd (omega (arith, b.ahead)))
      net p (there h) = b.later p h

  finish-Blocked :
      (l : Link A) (msg : Packet A) (n : ℕ) (through : List A) (dropped : ℕ)
      → l.client.phase ≡ waiting msg n
      → Blocked l
      → Blocked (record l { client = finish l.client msg; through = through; dropped = dropped })
  unfolding finish
  finish-Blocked l msg n through dropped e b = record {
    waits_for = b.waits_for;
    queue = b.queue;
    ahead = rw next (omega (arith, b.ahead));
    small = rw next (omega (arith, rw e at b.small));
    fits = tt;
    later = b.later;
  }
    where
      next :
          update l.client.snd_seq msg.topid (inc32 (l.client.snd_seq msg.topid)) r
          ≡ l.client.snd_seq r + 1
      next =
          let (_, _, t) = rw e at b.fits in
          rw (t, update_self l.client.snd_seq r _) (mod-eq_of_lt (omega (arith, rw e at b.small)))

  settle-Blocked :
      (l : Link A) (msg : Packet A) (n : ℕ) (vd : Verdict)
      → l.client.phase ≡ waiting msg n
      → Blocked l
      → Blocked (settle l msg n vd)
  unfolding settle act
  settle-Blocked l msg n wait_on e b = b
  settle-Blocked l msg n resend e b = record {
    waits_for = b.waits_for;
    queue = b.queue;
    ahead = b.ahead;
    small = rw e at b.small;
    fits = rw e at b.fits;
    later = net;
  }
    where
      net : (p : Packet A) → In p (msg ∷ l.data_net) → (p.frompid ≡ s) × (p.seqno ≢ lo)
      net p here =
          let (num, f, _) = rw e at b.fits in (f, λ z. absurd (omega (arith, num, b.ahead)))
      net p (there h) = b.later p h
  settle-Blocked l msg n success e b =
      finish-Blocked l msg n (l.through ++ (msg.body ∷ [])) l.dropped e b
  settle-Blocked l msg n gave_up e b =
      finish-Blocked l msg n (l.through ++ (msg.body ∷ [])) (l.dropped + 1) e b

  skipped :
      (l : Link A) (msg : Packet A)
      → Blocked l
      → In msg l.data_net
      → (listen l.listener msg).0 ≡ l.listener
  unfolding listen
  skipped l msg b h =
      let (f, other) = b.later msg h in
      let skip : (msg.seqno == l.listener.rcv_seq msg.frompid) ≡ false =
        rw (f, b.waits_for) (ground (arith, other)) in
      rw skip

  Step-Blocked : (l m : Link A) → Step s r l m → Blocked l → Blocked m
  Step-Blocked l m (sends body rest e t) b = sends-Blocked l body rest l.client.phase refl e t b
  Step-Blocked l m (times_out msg n e) b = settle-Blocked l msg n (verdict msg n timeout) e b
  Step-Blocked l m (reads_short msg n e) b = settle-Blocked l msg n (verdict msg n short_read) e b
  Step-Blocked l m (gets_ack msg n ack e h) b =
      settle-Blocked l msg n (verdict msg n (ack_in ack)) e b
  Step-Blocked l m (gets_foreign_ack msg n ack e h) b =
      settle-Blocked l msg n (verdict msg n (ack_in ack)) e b
  Step-Blocked l m (arrives msg h) b = rw (skipped l msg b h) record {
    waits_for = b.waits_for;
    queue = b.queue;
    ahead = b.ahead;
    small = b.small;
    fits = b.fits;
    later = b.later;
  }
  Step-Blocked l m (loses_data msg xs ys e) b = record {
    waits_for = b.waits_for;
    queue = b.queue;
    ahead = b.ahead;
    small = b.small;
    fits = b.fits;
    later = λ p h. b.later p (rw e (In-insert p msg xs ys h));
  }
  Step-Blocked l m (loses_ack ack xs ys e) b = record {
    waits_for = b.waits_for;
    queue = b.queue;
    ahead = b.ahead;
    small = b.small;
    fits = b.fits;
    later = b.later;
  }

  Reach-Blocked : (l m : Link A) → Reach s r l m → Blocked l → Blocked m
  Reach-Blocked l m start_here b = b
  Reach-Blocked l n (after {m = m} run st) b = Step-Blocked m n st (Reach-Blocked l m run b)

-- Once the last of the `retrynum` attempts for a message that the receiver still expects has timed
-- out, and all that is on the network from the sender has other numbers, such as repetitions of what
-- it sent before, the receiver takes no message of this sender any more, whatever both do (as long as
-- fewer than 2 ^ 32 are sent): the queue stays, and a datagram that arrives changes nothing.
pub lost_message_blocks :
    {A : Type 0} (s r n : ℕ) (l m : Link A) (msg : Packet A)
    → l.client.phase ≡ waiting msg n
    → n + 1 ≡ retrynum
    → Fits s r (l.client.snd_seq r) l.client.phase
    → l.listener.rcv_seq s ≡ l.client.snd_seq r
    → ((p : Packet A) → In p l.data_net → (p.frompid ≡ s) × (p.seqno ≢ l.client.snd_seq r))
    → l.client.snd_seq r + 1 + length l.todo < 2 ^ 32
    → Reach s r (settle l msg n (verdict msg n timeout)) m
    → (m.listener.inqueue ≡ l.listener.inqueue)
      × ((p : Packet A) → In p m.data_net → (listen m.listener p).0 ≡ m.listener)
unfolding settle act finish verdict failed
lost_message_blocks s r n l m msg e last fit same gone small run =
    let b = Reach-Blocked s r (l.listener.rcv_seq s) l.listener.inqueue _ m run blocked in
    (b.queue, λ p h. skipped s r (l.listener.rcv_seq s) l.listener.inqueue m p b h)
  where
    up : verdict msg n timeout ≡ gave_up
    up = ground arith

    next :
        update l.client.snd_seq msg.topid (inc32 (l.client.snd_seq msg.topid)) r
        ≡ l.client.snd_seq r + 1
    next =
        let (_, _, t) = rw e at fit in
        rw (t, update_self l.client.snd_seq r _) (mod-eq_of_lt (omega arith))

    blocked :
        Blocked s r
          (l.listener.rcv_seq s)
          l.listener.inqueue
          (settle l msg n (verdict msg n timeout))
    blocked = rw up record {
      waits_for = refl;
      queue = refl;
      ahead = rw next (omega arith);
      small = rw next (omega arith);
      fits = tt;
      later = λ p h. rw same (gone p h);
    }
