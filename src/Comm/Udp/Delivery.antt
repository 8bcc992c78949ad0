-- ===== src/Comm/Udp/Delivery.antt =====
-- As long as no message is given up, the link delivers in order and exactly once.
use jiajia.Prelude.{ℕ, ◌+◌, ◌^◌, ◌≤◌, ◌<◌, ◌≡◌, refl, ◌⊎◌, ◌≢◌, List, ◌++◌, length, arith}
use native.Mathlib.Nat.{mod-eq_of_lt}
use jiajia.Comm.Udp.{Packet, Ack, waiting, timeout, short_read, ack_in, success, verdict}
use jiajia.Comm.Udp.Link.{
  In, Link, Step, sends, times_out, reads_short, gets_ack, gets_foreign_ack, arrives, loses_data,
  loses_ack, Reach, start_here, after, init,
}
use jiajia.Comm.Udp.Stages.{
  In-insert, current, Inv, Stage-inqueue, timeout-ne-success, short_read-ne-success,
  foreign-ne-success, Step-dropped,
}
use jiajia.Comm.Udp.Keeps.{sends-Inv, no_wrap, settle-Inv, listen-Inv}

module _ {A : Type 0} where
  module _ {s r : ℕ} {input : List A} (short : length input < 2 ^ 32) where
    matched :
        (l : Link A) (msg : Packet A) (n : ℕ) (ack : Ack)
        → l.client.phase ≡ waiting msg n
        → In ack l.ack_net
        → Inv s r input l
        → verdict msg n (ack_in ack) ≡ success
        → l.client.snd_seq r + 1 ≤ l.listener.rcv_seq s
    unfolding verdict
    matched l msg n ack e h v ok =
        let (num, _, _) = rw e at v.fits in
        ground (arith, v.acked ack h, mod-eq_of_lt (no_wrap short l msg n e v))

    away :
        (l : Link A) (msg : Packet A) (n : ℕ) (ack : Ack)
        → l.client.phase ≡ waiting msg n
        → ack.sid ≢ r
        → Inv s r input l
        → ack.sid ≢ msg.topid
    away l msg n ack e h v = let (_, _, t) = rw e at v.fits in rw t h

    Step-Inv : (l m : Link A) → Step s r l m → m.dropped ≡ 0 → Inv s r input l → Inv s r input m
    Step-Inv l m (sends body rest e t) z v = sends-Inv short l body rest l.client.phase refl e t v
    Step-Inv l m (times_out msg n e) z v =
        settle-Inv short l msg n (verdict msg n timeout) e v
          (λ q. absurd (timeout-ne-success msg n q)) z
    Step-Inv l m (reads_short msg n e) z v =
        settle-Inv short l msg n (verdict msg n short_read) e v
          (λ q. absurd (short_read-ne-success msg n q)) z
    Step-Inv l m (gets_ack msg n ack e h) z v =
        settle-Inv short l msg n (verdict msg n (ack_in ack)) e v (matched l msg n ack e h v) z
    Step-Inv l m (gets_foreign_ack msg n ack e h) z v =
        settle-Inv short l msg n (verdict msg n (ack_in ack)) e v
          (λ q. absurd (foreign-ne-success msg n ack (away l msg n ack e h v) q)) z
    Step-Inv l m (arrives msg h) z v = listen-Inv short l msg l.client.phase refl h v
    Step-Inv l m (loses_data msg xs ys e) z v = record {
      split = v.split;
      numbered = v.numbered;
      fits = v.fits;
      travels = λ p h. v.travels p (rw e (In-insert p msg xs ys h));
      acked = v.acked;
      stage = v.stage;
    }
    Step-Inv l m (loses_ack ack xs ys e) z v = record {
      split = v.split;
      numbered = v.numbered;
      fits = v.fits;
      travels = v.travels;
      acked = λ a h. v.acked a (rw e (In-insert a ack xs ys h));
      stage = v.stage;
    }

    Reach-Inv : (m : Link A) → Reach s r (init input) m → m.dropped ≡ 0 → Inv s r input m
    unfolding init
    Reach-Inv m start_here z = record {
      split = refl;
      numbered = refl;
      fits = tt;
      travels = λ p h. elim h [ ];
      acked = λ a h. elim h [ ];
      stage = (refl, refl);
    }
    Reach-Inv n (after {m = m} run st) z =
        Step-Inv m n st z (Reach-Inv m run (omega (arith, Step-dropped s r m n st)))

    -- Until a message is given up, the receiver has, in order and once each, exactly the messages
    -- whose `outsend` came back with success, and at most the one inside `outsend` besides; this
    -- for fewer than 2 ^ 32 messages, whatever the network loses, repeats or reorders.
    pub delivered_in_order :
        (m : Link A)
        → Reach s r (init input) m
        → m.dropped ≡ 0
        → (m.through ++ (current m.client.phase ++ m.todo) ≡ input)
          × ((m.listener.inqueue ≡ m.through)
              ⊎ (m.listener.inqueue ≡ m.through ++ current m.client.phase))
    delivered_in_order m run z =
        let v = Reach-Inv m run z in
        (v.split, Stage-inqueue _ _ m.through m.listener.inqueue m.client.phase v.stage)
