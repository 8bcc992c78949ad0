-- ===== src/Comm/Udp/Keeps.antt =====
-- What the steps of the link of Comm.Udp.Link keep, as long as no message is given up.
use jiajia.Prelude.{
  ℕ, ◌+◌, ◌^◌, ◌≤◌, ◌<◌, ◌≡◌, refl, ap, sym, ◌∙◌, inl, inr, List, [], ◌∷◌, ◌++◌, append_assoc,
  length, length-append, arith, update_self, ◌==◌, update, true, false,
}
use native.Mathlib.Nat.{mod-eq_of_lt, mod-le}
use jiajia.Comm.Udp.{
  Packet, Ack, Phase, idle, waiting, Verdict, wait_on, resend, success, gave_up, listen, start,
  finish, act, inc32,
}
use jiajia.Comm.Udp.Link.{In, here, there, Link, settle}
use jiajia.Comm.Udp.Stages.{Travels, Stage, Inv}

module _ {A : Type 0} where
  module _ {s r : ℕ} {input : List A} (short : length input < 2 ^ 32) where
    pub sends-Inv :
        (l : Link A) (body : A) (rest : List A) (ph : Phase A)
        → l.client.phase ≡ ph
        → ph ≡ idle
        → l.todo ≡ body ∷ rest
        → Inv s r input l
        → Inv s r input (record l {
          client = (start l.client s r body).1;
          todo = rest;
          data_net = (start l.client s r body).0 ∷ l.data_net;
        })
    unfolding start
    sends-Inv l body rest (waiting msg n) e i t v = cc
    sends-Inv l body rest idle e i t v = record {
      split = ap (λ k. l.through ++ k) (sym t) ∙ (rw e at v.split);
      numbered = v.numbered;
      fits = (refl, refl, refl);
      travels = net;
      acked = v.acked;
      stage = inl (rw e at v.stage);
    }
      where
        net :
            (p : Packet A)
            → In p ((start l.client s r body).0 ∷ l.data_net)
            → Travels s r (l.client.snd_seq r) (waiting ((start l.client s r body).0) 0) p
        net p here = (refl, refl, inr refl)
        net p (there h) = let (f, g, k) = rw e at (v.travels p h) in (f, g, inl k)

    pub no_wrap :
        (l : Link A) (msg : Packet A) (n : ℕ)
        → l.client.phase ≡ waiting msg n
        → Inv s r input l
        → l.client.snd_seq r + 1 < 2 ^ 32
    no_wrap l msg n e v = omega (
      arith,
      v.numbered,
      ap length (rw e at v.split),
      length-append l.through (msg.body ∷ l.todo),
    )

    pub settle-Inv :
        (l : Link A) (msg : Packet A) (n : ℕ) (vd : Verdict)
        → l.client.phase ≡ waiting msg n
        → Inv s r input l
        → (vd ≡ success → l.client.snd_seq r + 1 ≤ l.listener.rcv_seq s)
        → (settle l msg n vd).dropped ≡ 0
        → Inv s r input (settle l msg n vd)
    unfolding settle act finish
    settle-Inv l msg n wait_on e v arrived none_lost = v
    settle-Inv l msg n resend e v arrived none_lost = record {
      split = rw e at v.split;
      numbered = v.numbered;
      fits = rw e at v.fits;
      travels = net;
      acked = v.acked;
      stage = rw e at v.stage;
    }
      where
        net :
            (p : Packet A)
            → In p (msg ∷ l.data_net)
            → Travels s r (l.client.snd_seq r) (waiting msg (n + 1)) p
        net p here = let (_, f, t) = rw e at v.fits in (f, t, inr refl)
        net p (there h) = rw e at (v.travels p h)
    settle-Inv l msg n success e v arrived none_lost = record {
      split = append_assoc l.through (msg.body ∷ []) l.todo ∙ (rw e at v.split);
      numbered = next ∙ omega (arith, v.numbered, length-append l.through (msg.body ∷ []));
      fits = tt;
      travels = net;
      acked = v.acked;
      stage = rw next (delivered (rw e at v.stage));
    }
      where
        here_fits : (msg.seqno ≡ l.client.snd_seq r) × (msg.frompid ≡ s) × (msg.topid ≡ r)
        here_fits = rw e at v.fits

        next :
            update l.client.snd_seq msg.topid (inc32 (l.client.snd_seq msg.topid)) r
            ≡ l.client.snd_seq r + 1
        next =
            rw (here_fits.2, update_self l.client.snd_seq r _) (mod-eq_of_lt (no_wrap l msg n e v))

        delivered :
            Stage
              (l.client.snd_seq r)
              (l.listener.rcv_seq s)
              l.through
              l.listener.inqueue
              (waiting msg n)
            → (l.listener.rcv_seq s ≡ l.client.snd_seq r + 1)
              × (l.listener.inqueue ≡ l.through ++ (msg.body ∷ []))
        delivered (inl (same, _)) = absurd (omega (arith, arrived refl))
        delivered (inr d) = d

        old :
            (p : Packet A)
            → Travels s r (l.client.snd_seq r) (waiting msg n) p
            → Travels s r (l.client.snd_seq r + 1) idle p
        old p (f, t, inl lt) = (f, t, omega arith)
        old p (f, t, inr same) = (f, t, rw (same, here_fits.0) (omega arith))

        net :
            (p : Packet A)
            → In p l.data_net
            → Travels s r
                (update l.client.snd_seq msg.topid (inc32 (l.client.snd_seq msg.topid)) r)
                idle
                p
        net p h = rw next (old p (rw e at (v.travels p h)))
    settle-Inv l msg n gave_up e v arrived none_lost = absurd (omega arith)

    -- An ack of a message that is not taken.
    pub ack-Inv :
        (l : Link A) (a : Ack)
        → a.seqno ≤ l.listener.rcv_seq s
        → Inv s r input l
        → Inv s r input (record l { ack_net = a ∷ l.ack_net })
    ack-Inv l a le v = record {
      split = v.split;
      numbered = v.numbered;
      fits = v.fits;
      travels = v.travels;
      acked = acks;
      stage = v.stage;
    }
      where
        acks : (b : Ack) → In b (a ∷ l.ack_net) → b.seqno ≤ l.listener.rcv_seq s
        acks b here = le
        acks b (there h) = v.acked b h

    pub ignored-Inv :
        (l : Link A) (msg : Packet A)
        → msg.frompid ≡ s
        → msg.seqno < l.listener.rcv_seq s
        → Inv s r input l
        → Inv s r input (record l {
          listener = (listen l.listener msg).0;
          ack_net = (listen l.listener msg).1 ∷ l.ack_net;
        })
    unfolding listen
    ignored-Inv l msg f lt v =
        let skip : (msg.seqno == l.listener.rcv_seq msg.frompid) ≡ false = rw f (ground arith) in
        rw skip
          (ack-Inv l (listen l.listener msg).1 (omega (arith, mod-le (msg.seqno + 1) (2 ^ 32))) v)

    pub taken-Inv :
        (l : Link A) (msg : Packet A) (n : ℕ)
        → l.client.phase ≡ waiting msg n
        → l.listener.rcv_seq s ≡ l.client.snd_seq r
        → l.listener.inqueue ≡ l.through
        → Inv s r input l
        → Inv s r input (record l {
          listener = (listen l.listener msg).0;
          ack_net = (listen l.listener msg).1 ∷ l.ack_net;
        })
    unfolding listen
    taken-Inv l msg n e same queue v = rw take record {
      split = v.split;
      numbered = v.numbered;
      fits = v.fits;
      travels = v.travels;
      acked = acks;
      stage = rw e (inr (rw (f, next) (omega arith), ap (λ q. q ++ (msg.body ∷ [])) queue));
    }
      where
        fit : (msg.seqno ≡ l.client.snd_seq r) × (msg.frompid ≡ s) × (msg.topid ≡ r)
        fit = rw e at v.fits

        f : msg.frompid ≡ s
        f = fit.1

        take : (msg.seqno == l.listener.rcv_seq msg.frompid) ≡ true
        take = rw f (ground (arith, fit.0))

        next : update l.listener.rcv_seq s (inc32 (l.listener.rcv_seq s)) s ≡ l.client.snd_seq r + 1
        next = rw (update_self l.listener.rcv_seq s _, same) (mod-eq_of_lt (no_wrap l msg n e v))

        acks :
            (b : Ack)
            → In b ((listen l.listener msg).1 ∷ l.ack_net)
            → b.seqno
              ≤ update l.listener.rcv_seq msg.frompid (inc32 (l.listener.rcv_seq msg.frompid)) s
        acks b here = rw (f, next) (omega (arith, fit.0, mod-le (msg.seqno + 1) (2 ^ 32)))
        acks b (there h) = rw (f, next) (omega (arith, v.acked b h, same))

    pub listen-Inv :
        (l : Link A) (msg : Packet A) (ph : Phase A)
        → l.client.phase ≡ ph
        → In msg l.data_net
        → Inv s r input l
        → Inv s r input (record l {
          listener = (listen l.listener msg).0;
          ack_net = (listen l.listener msg).1 ∷ l.ack_net;
        })
    listen-Inv l msg idle e h v =
        let (f, _, lt) = rw e at (v.travels msg h) in
        let (same, _) = rw e at v.stage in ignored-Inv l msg f (omega arith) v
    listen-Inv l msg (waiting cur n) e h v = go (rw e at (v.travels msg h)) (rw e at v.stage)
      where
        go :
            Travels s r (l.client.snd_seq r) (waiting cur n) msg
            → Stage
                (l.client.snd_seq r)
                (l.listener.rcv_seq s)
                l.through
                l.listener.inqueue
                (waiting cur n)
            → Inv s r input (record l {
              listener = (listen l.listener msg).0;
              ack_net = (listen l.listener msg).1 ∷ l.ack_net;
            })
        go (f, _, inl lt) (inl (same, _)) = ignored-Inv l msg f (omega arith) v
        go (f, _, inl lt) (inr (more, _)) = ignored-Inv l msg f (omega arith) v
        go (f, _, inr is) (inl (same, queue)) =
            taken-Inv l msg n (e ∙ ap (λ p. waiting p n) (sym is)) same queue v
        go (f, _, inr is) (inr (more, _)) =
            let (num, _, _) = rw e at v.fits in ignored-Inv l msg f (rw is (omega arith)) v
