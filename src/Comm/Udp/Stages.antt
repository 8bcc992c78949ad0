-- ===== src/Comm/Udp/Stages.antt =====
-- What holds of the link of Comm.Udp.Link at any time, and what gives a message up.
use jiajia.Prelude.{ℕ, ◌+◌, ◌≤◌, ◌<◌, ◌≡◌, ◌⊎◌, inl, inr, ◌≢◌, List, [], ◌∷◌, ◌++◌, length, arith}
use jiajia.Comm.Udp.{
  Packet, Ack, Phase, idle, waiting, timeout, short_read, ack_in, Verdict, wait_on, resend, success,
  gave_up, failed, verdict,
}
use jiajia.Comm.Udp.Link.{
  In, here, there, Link, settle, Step, times_out, reads_short, gets_ack, gets_foreign_ack,
}

pub In-insert {ℓ} : {A : Type ℓ} (x y : A) (xs ys : List A) → In x (xs ++ ys) → In x (xs ++ y ∷ ys)
In-insert x y [] ys h = there h
In-insert x y (z ∷ xs) ys here = here
In-insert x y (z ∷ xs) ys (there h) = there (In-insert x y xs ys h)

module _ {A : Type 0} where
  -- The body that is inside `outsend`.
  abbrev pub current : Phase A → List A
  current idle = []
  current (waiting msg n) = msg.body ∷ []

  -- The message inside `outsend` carries the next number.
  abbrev pub Fits : ℕ → ℕ → ℕ → Phase A → Type 0
  Fits s r snd idle = Unit
  Fits s r snd (waiting msg n) = (msg.seqno ≡ snd) × (msg.frompid ≡ s) × (msg.topid ≡ r)

  -- A datagram on the network is an old one, or the one inside `outsend`.
  abbrev pub Travels : ℕ → ℕ → ℕ → Phase A → Packet A → Type 0
  Travels s r snd idle p = (p.frompid ≡ s) × (p.topid ≡ r) × (p.seqno < snd)
  Travels s r snd (waiting msg n) p =
      (p.frompid ≡ s) × (p.topid ≡ r) × ((p.seqno < snd) ⊎ (p ≡ msg))

  -- Either the receiver has exactly what came through, or also the message inside `outsend`.
  abbrev pub Stage : ℕ → ℕ → List A → List A → Phase A → Type 0
  Stage snd rcv through inqueue idle = (rcv ≡ snd) × (inqueue ≡ through)
  Stage snd rcv through inqueue (waiting msg n) =
      ((rcv ≡ snd) × (inqueue ≡ through))
      ⊎ ((rcv ≡ snd + 1) × (inqueue ≡ through ++ (msg.body ∷ [])))

  pub record Inv (s r : ℕ) (input : List A) (l : Link A) : Type 0 where
    pub split : l.through ++ (current l.client.phase ++ l.todo) ≡ input
    pub numbered : l.client.snd_seq r ≡ length l.through
    pub fits : Fits s r (l.client.snd_seq r) l.client.phase
    pub travels :
        (p : Packet A) → In p l.data_net → Travels s r (l.client.snd_seq r) l.client.phase p
    pub acked : (a : Ack) → In a l.ack_net → a.seqno ≤ l.listener.rcv_seq s
    pub stage :
        Stage
          (l.client.snd_seq r)
          (l.listener.rcv_seq s)
          l.through
          l.listener.inqueue
          l.client.phase

  pub Stage-inqueue :
      (snd rcv : ℕ) (through inqueue : List A) (ph : Phase A)
      → Stage snd rcv through inqueue ph
      → (inqueue ≡ through) ⊎ (inqueue ≡ through ++ current ph)
  Stage-inqueue snd rcv through inqueue idle st = inl st.1
  Stage-inqueue snd rcv through inqueue (waiting msg n) (inl st) = inl st.1
  Stage-inqueue snd rcv through inqueue (waiting msg n) (inr st) = inr st.1

  pub timeout-ne-success : (msg : Packet A) (n : ℕ) → verdict msg n timeout ≢ success
  unfolding verdict failed
  timeout-ne-success msg n = ground arith

  pub short_read-ne-success : (msg : Packet A) (n : ℕ) → verdict msg n short_read ≢ success
  unfolding verdict failed
  short_read-ne-success msg n = ground arith

  pub foreign-ne-success :
      (msg : Packet A) (n : ℕ) (a : Ack) → a.sid ≢ msg.topid → verdict msg n (ack_in a) ≢ success
  unfolding verdict
  foreign-ne-success msg n a = ground arith

  pub settle-dropped :
      (l : Link A) (msg : Packet A) (n : ℕ) (vd : Verdict) → l.dropped ≤ (settle l msg n vd).dropped
  unfolding settle
  settle-dropped l msg n wait_on = omega arith
  settle-dropped l msg n resend = omega arith
  settle-dropped l msg n success = omega arith
  settle-dropped l msg n gave_up = omega arith

  pub Step-dropped : (s r : ℕ) (l m : Link A) → Step s r l m → l.dropped ≤ m.dropped
  Step-dropped s r l m (times_out msg n e) = settle-dropped l msg n (verdict msg n timeout)
  Step-dropped s r l m (reads_short msg n e) = settle-dropped l msg n (verdict msg n short_read)
  Step-dropped s r l m (gets_ack msg n ack e h) =
      settle-dropped l msg n (verdict msg n (ack_in ack))
  Step-dropped s r l m (gets_foreign_ack msg n ack e h) =
      settle-dropped l msg n (verdict msg n (ack_in ack))
  Step-dropped s r l m other = omega arith
