-- ===== src/Syn/Notices/Send/Stream.antt =====
-- A stream carries every notice once and in order, in messages that fit, and ends.
use jiajia.Prelude.{
  ℕ, zero, suc, ◌*◌, ◌≤◌, ◌<◌, ◌≡◌, refl, ap, sym, subst, ◌∙◌, true, Option, some, List, [], ◌∷◌,
  ◌++◌, append_assoc, length, length-append, arith, take, drop,
}
use jiajia.Prelude.Bytes.{le_bytes, length-le_bytes}
use jiajia.Constants.{max_msg_size}
use jiajia.Msg.Types.{MsgOp, invld, barrgrant, wtnt, appendmsg-some}
use jiajia.Syn.Notices.{Notice, Node, Chain, notices}
use jiajia.Syn.Notices.Pack.{append_nodes, put_stack, appendstackwtnts, put_barr, appendbarrwtnts}
use jiajia.Syn.Notices.Pack.Uniform.{
  SmallNodes, encode, encode-append, IsPut, append_nodes-Appended, fits, starts, pair, triple,
  put_stack-IsPut, put_barr-IsPut,
}
use jiajia.Syn.Notices.Send.{Packet, packets, stream}

-- What the receivers read from the messages behind the lock ids.
unfoldable pub payload : List Packet → List ℕ
payload [] = []
payload (p ∷ ps) = drop 4 p.1 ++ payload ps

-- Every message starts with the lock id and fits; all but the last have the operation `part`.
abbrev pub IsStream : MsgOp → MsgOp → List ℕ → List Packet → Type 0
IsStream part last head [] = ⊥
IsStream part last head (p ∷ []) = (p.0 ≡ last) × (take 4 p.1 ≡ head) × (length p.1 ≤ max_msg_size)
IsStream part last head (p ∷ q ∷ ps) =
    (p.0 ≡ part)
    × (take 4 p.1 ≡ head)
    × (length p.1 ≤ max_msg_size)
    × IsStream part last head (q ∷ ps)

notices-append : (a b : Chain) → notices (a ++ b) ≡ notices a ++ notices b
unfolding notices
notices-append [] b = refl
notices-append (node ∷ a) b =
    rw (notices-append a b) (sym (append_assoc node (notices a) (notices b)))

SmallNodes-left : (a b : Chain) → SmallNodes (a ++ b) → SmallNodes b
SmallNodes-left [] b h = h
SmallNodes-left (node ∷ a) b h = SmallNodes-left a b h.1

take-head : (head more : List ℕ) → length head ≡ 4 → take 4 (head ++ more) ≡ head
take-head [] more h = absurd (omega arith)
take-head (a ∷ []) more h = absurd (omega arith)
take-head (a ∷ b ∷ []) more h = absurd (omega arith)
take-head (a ∷ b ∷ c ∷ []) more h = absurd (omega arith)
take-head (a ∷ b ∷ c ∷ d ∷ []) more h = refl
take-head (a ∷ b ∷ c ∷ d ∷ e ∷ r) more h = absurd (omega arith)

drop-head : (head more : List ℕ) → length head ≡ 4 → drop 4 (head ++ more) ≡ more
drop-head [] more h = absurd (omega arith)
drop-head (a ∷ []) more h = absurd (omega arith)
drop-head (a ∷ b ∷ []) more h = absurd (omega arith)
drop-head (a ∷ b ∷ c ∷ []) more h = absurd (omega arith)
drop-head (a ∷ b ∷ c ∷ d ∷ []) more h = refl
drop-head (a ∷ b ∷ c ∷ d ∷ e ∷ r) more h = absurd (omega arith)

product : (a b : ℕ) → a ≤ 511 → b ≤ 16 → a * b ≤ 8176
product a b h k = grind arith

module _ (width : ℕ) (enc : Notice → List ℕ) (put : List ℕ → Notice → Option (List ℕ))
    (p : IsPut width enc put) (part last : MsgOp) (head : List ℕ) (four : length head ≡ 4) where
  abbrev append : List ℕ → Chain → Option (List ℕ × Chain)
  append = append_nodes (fits width enc put p) put

  record Streamed (msg : List ℕ) (c : Chain) (r : Option (List Packet)) : Type 0 where
    out : List Packet
    result : r ≡ some out
    shape : IsStream part last head out
    all : payload out ≡ drop 4 msg ++ encode enc (notices c)

  cons-IsStream :
      (msg : List ℕ) (ps : List Packet)
      → take 4 msg ≡ head
      → length msg ≤ max_msg_size
      → IsStream part last head ps
      → IsStream part last head ((part, msg) ∷ ps)
  cons-IsStream msg [] t l s = elim s [ ]
  cons-IsStream msg (q ∷ ps) t l s = (refl, t, l, s)

  starts-head :
      (node : Node) (more : Chain)
      → SmallNodes (node ∷ more)
      → starts width enc put p head (node ∷ more) ≡ true
  starts-head node more s = ground (arith, product (length node) width s.0 p.narrow)

  regroup :
      {c : Chain} (taken left : Chain)
      → c ≡ taken ++ left
      → (ps : List Packet)
      → payload ps ≡ drop 4 (head ++ encode enc (notices taken)) ++ encode enc (notices left)
      → payload ps ≡ encode enc (notices c)
  regroup taken left e ps h =
      h
      ∙ ap (λ k. k ++ encode enc (notices left)) (drop-head head (encode enc (notices taken)) four)
      ∙ sym (encode-append enc (notices taken) (notices left))
      ∙ ap (encode enc) (sym (notices-append taken left))
      ∙ ap (λ k. encode enc (notices k)) (sym e)

  packets-Streamed :
      (f : ℕ) (msg : List ℕ) (c : Chain)
      → length c < f
      → take 4 msg ≡ head
      → length msg ≤ max_msg_size
      → SmallNodes c
      → Streamed msg c (packets append part last f msg c)
  unfolding packets payload notices encode
  packets-Streamed zero msg c h t l s = absurd (omega arith)
  packets-Streamed (suc f) msg [] h t l s = record {
    out = (last, msg) ∷ [];
    result = refl;
    shape = (refl, t, l);
    all = refl;
  }
  packets-Streamed (suc f) msg (node ∷ more) h t l s =
      let a = append_nodes-Appended width enc put p head (node ∷ more) (omega arith) in
      let ih =
        packets-Streamed f (head ++ encode enc (notices a.taken)) a.left
          (omega (arith, a.moves (starts-head node more s)))
          (take-head head (encode enc (notices a.taken)) four) a.bounded
          (SmallNodes-left a.taken a.left (subst SmallNodes a.split s)) in
      record {
        out = (part, msg) ∷ ih.out;
        result = rw (t, a.result, ih.result);
        shape = cons-IsStream msg ih.out t l ih.shape;
        all = ap (λ k. drop 4 msg ++ k) (regroup a.taken a.left a.split ih.out ih.all);
      }

-- The stream of a chain, built by one of the two exact packers.
module _ (width : ℕ) (enc : Notice → List ℕ) (put : List ℕ → Notice → Option (List ℕ))
    (p : IsPut width enc put) where
  stream-Streamed :
      (part last : MsgOp) (fuel lock : ℕ) (c : Chain)
      → length c < fuel
      → SmallNodes c
      → (ps : List Packet) × (stream (append_nodes (fits width enc put p) put) part last fuel lock c
          ≡ some ps)
        × IsStream part last (le_bytes 4 lock) ps
        × (payload ps ≡ encode enc (notices c))
  unfolding stream
  stream-Streamed part last fuel lock c h s =
      let four = length-le_bytes 4 lock in
      let a = append_nodes-Appended width enc put p (le_bytes 4 lock) c (omega arith) in
      let r =
        packets-Streamed width enc put p part last (le_bytes 4 lock) four fuel
          (le_bytes 4 lock ++ encode enc (notices a.taken)) a.left
          (omega (arith, ap length a.split, length-append a.taken a.left))
          (take-head (le_bytes 4 lock) (encode enc (notices a.taken)) four) a.bounded
          (SmallNodes-left a.taken a.left (subst SmallNodes a.split s)) in
      (
        r.out,
        rw (appendmsg-some [] (le_bytes 4 lock) (omega arith), a.result, r.result),
        r.shape,
        regroup width enc put p part last (le_bytes 4 lock) four a.taken a.left a.split r.out r.all,
      )

-- `sendwtnts` puts every notice of the lock's stack into its messages, once and in order; each
-- message begins with the lock id and fits; all but the last are WTNT. With nodes of at most
-- Maxwtnts notices a round for each node is enough.
pub stream_stack :
    (operation : MsgOp) (fuel lock : ℕ) (c : Chain)
    → length c < fuel
    → SmallNodes c
    → (ps : List Packet) × (stream appendstackwtnts wtnt operation fuel lock c ≡ some ps)
      × IsStream wtnt operation (le_bytes 4 lock) ps
      × (payload ps ≡ encode pair (notices c))
unfolding appendstackwtnts
stream_stack operation fuel lock c h s =
    stream-Streamed 12 pair put_stack put_stack-IsPut wtnt operation fuel lock c h s

-- `grantbarr` puts every notice of the barrier, addr, from and mig, into its messages, once and in
-- order; each message begins with the lock id and fits; all but the last are INVLD. With nodes of
-- at most Maxwtnts notices a round for each node is enough.
pub stream_barr :
    (fuel lock : ℕ) (c : Chain)
    → length c < fuel
    → SmallNodes c
    → (ps : List Packet) × (stream appendbarrwtnts invld barrgrant fuel lock c ≡ some ps)
      × IsStream invld barrgrant (le_bytes 4 lock) ps
      × (payload ps ≡ encode triple (notices c))
unfolding appendbarrwtnts
stream_barr fuel lock c h s =
    stream-Streamed 16 triple put_barr put_barr-IsPut invld barrgrant fuel lock c h s
