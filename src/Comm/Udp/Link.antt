-- ===== src/Comm/Udp/Link.antt =====
-- One sender, one receiver, and a network between them that loses, repeats and reorders datagrams.
use jiajia.Prelude.{ℕ, ◌+◌, ◌≡◌, List, [], ◌∷◌, ◌++◌, ◌≢◌}
use jiajia.Comm.Udp.{
  Packet, Ack, Listener, Client, idle, waiting, timeout, short_read, ack_in, Verdict, wait_on,
  resend, success, gave_up, listen, start, verdict, act,
}

-- `x` stands in the list.
pub data In {ℓ} {A : Type ℓ} (x : A) : List A → Type ℓ where
  here : {xs : List A} → In x (x ∷ xs)
  there : {y : A} {xs : List A} → In x xs → In x (y ∷ xs)

-- `todo` are the bodies that the sender's outqueue still holds for the receiver. `through` and
-- `dropped` record the bodies whose `outsend` has come back, and how many of those were given up.
pub record Link {ℓ} (A : Type ℓ) : Type ℓ where
  pub client : Client A
  pub listener : Listener A
  pub todo : List A
  pub data_net : List (Packet A)
  pub ack_net : List Ack
  pub through : List A
  pub dropped : ℕ

module _ {ℓ} {A : Type ℓ} where
  -- The client acts on a verdict about `msg`; a resend puts the same datagram on the network again.
  unfoldable pub settle : Link A → Packet A → ℕ → Verdict → Link A
  unfolding act
  settle l msg n wait_on = l
  settle l msg n resend = record l {
    client = act l.client msg n resend;
    data_net = msg ∷ l.data_net;
  }
  settle l msg n success = record l {
    client = act l.client msg n success;
    through = l.through ++ (msg.body ∷ []);
  }
  settle l msg n gave_up = record l {
    client = act l.client msg n gave_up;
    through = l.through ++ (msg.body ∷ []);
    dropped = l.dropped + 1;
  }

  -- `s` is the sender's pid and `r` the receiver's.
  pub data Step (s r : ℕ) (l : Link A) : Link A → Type ℓ where
    sends :
        (body : A) (rest : List A)
        → l.client.phase ≡ idle
        → l.todo ≡ body ∷ rest
        → Step s r l (record l {
          client = (start l.client s r body).1;
          todo = rest;
          data_net = (start l.client s r body).0 ∷ l.data_net;
        })
    times_out :
        (msg : Packet A) (n : ℕ)
        → l.client.phase ≡ waiting msg n
        → Step s r l (settle l msg n (verdict msg n timeout))
    reads_short :
        (msg : Packet A) (n : ℕ)
        → l.client.phase ≡ waiting msg n
        → Step s r l (settle l msg n (verdict msg n short_read))
    gets_ack :
        (msg : Packet A) (n : ℕ) (ack : Ack)
        → l.client.phase ≡ waiting msg n
        → In ack l.ack_net
        → Step s r l (settle l msg n (verdict msg n (ack_in ack)))
    -- An ack of another host, for a message that `outsend` has left.
    gets_foreign_ack :
        (msg : Packet A) (n : ℕ) (ack : Ack)
        → l.client.phase ≡ waiting msg n
        → ack.sid ≢ r
        → Step s r l (settle l msg n (verdict msg n (ack_in ack)))
    arrives :
        (msg : Packet A)
        → In msg l.data_net
        → Step s r l (record l {
          listener = (listen l.listener msg).0;
          ack_net = (listen l.listener msg).1 ∷ l.ack_net;
        })
    loses_data :
        (msg : Packet A) (xs ys : List (Packet A))
        → l.data_net ≡ xs ++ msg ∷ ys
        → Step s r l (record l { data_net = xs ++ ys })
    loses_ack :
        (ack : Ack) (xs ys : List Ack)
        → l.ack_net ≡ xs ++ ack ∷ ys
        → Step s r l (record l { ack_net = xs ++ ys })

  pub data Reach (s r : ℕ) (l : Link A) : Link A → Type ℓ where
    start_here : Reach s r l l
    after : {m n : Link A} → Reach s r l m → Step s r m n → Reach s r l n

  -- `init_comm_manager`: all sequence numbers are 0.
  unfoldable pub init : List A → Link A
  init bodies = record {
    client = record { snd_seq = λ _. 0; phase = idle };
    listener = record { rcv_seq = λ _. 0; inqueue = [] };
    todo = bodies;
    data_net = [];
    ack_net = [];
    through = [];
    dropped = 0;
  }
