-- ===== src/Msg/Passing/Arrive.antt =====
-- What `msgrecvserver` of src/msg/msgserver.c makes of the messages of one host that come in.
use jiajia.Prelude.{
  ℕ, ◌+◌, ◌%◌, ◌^◌, ◌≤◌, ◌<◌, ◌≡◌, refl, ap, ap₂, sym, ℕ_discrete, length-append, inl, inr, ◌∙◌,
  arith, true, false, some, List, [], ◌∷◌, ◌++◌, append-nil, append_assoc, update, update_self,
  update_ne, length, All, Bool-cases,
}
use jiajia.Constants.{max_msg_bufs}
use jiajia.Msg.Types.{JiaMsg}
use jiajia.Msg.Slots.Counting.{sum_of-update}
use jiajia.Syn.Notices.Pack.{◌>>=◌}
use jiajia.Msg.Passing.{MsgBuf, msgrecvserver, receive_each, wanted_packet}
use jiajia.Msg.Passing.Fragments.{bodies}
use jiajia.Msg.Passing.Pending.{Among, IsPending, Ordered, put-IsPending, Ordered-wanted}
use jiajia.Msg.Passing.Free.{is_free, free_weight, free_count, msgrecvserver-free}
use jiajia.Msg.Passing.Contents.{contents, contents_snoc, contents_ext}

module _ (fromproc tag : ℕ) where
  free-unwanted : (m : JiaMsg) → is_free m ≡ true → wanted_packet fromproc tag m ≡ false
  free-unwanted m e = ground arith

  wanted-taken : (m : JiaMsg) → wanted_packet fromproc tag m ≡ true → is_free m ≡ false
  wanted-taken m w = elim (Bool-cases (is_free m)) [
    | inl e ↦ absurd (grind (arith, w, free-unwanted m e))
    | inr e ↦ e
  ]

  module _ (msgbuf : ℕ → JiaMsg) (i : ℕ) (m : JiaMsg) (lt : i < max_msg_bufs)
      (free : is_free (msgbuf i) ≡ true) (w : wanted_packet fromproc tag m ≡ true) where
    free_count-update : free_count (update msgbuf i m) + 1 ≡ free_count msgbuf
    free_count-update =
        let was : free_weight (msgbuf i) ≡ 1 = rw free refl in
        let is : free_weight m ≡ 0 = rw (wanted-taken m w) refl in
        omega (arith, was, is, sum_of-update free_weight max_msg_bufs msgbuf i m lt)

    contents-update :
        (low high : ℕ) (js : List ℕ)
        → Ordered fromproc tag msgbuf low high js
        → contents (update msgbuf i m) (js ++ (i ∷ [])) ≡ contents msgbuf js ++ m.body
    contents-update low high js o =
        let unwanted = free-unwanted (msgbuf i) free in
        let others : (j : ℕ) → Among j js → (update msgbuf i m j).body ≡ (msgbuf j).body = λ j h.
          elim (ℕ_discrete j i) [
            | yes e ↦ absurd (
                grind
                  (arith, unwanted, rw e at (Ordered-wanted fromproc tag msgbuf low high js j o h)))
            | no ne ↦ rw (update_ne msgbuf i m j ne) refl
          ] in
        contents_snoc (update msgbuf i m) js i
        ∙ ap₂ (λ a b. a ++ b) (contents_ext (update msgbuf i m) msgbuf js others)
            (ap (λ q. q.body) (update_self msgbuf i m))

  -- A packet comes in.
  msgrecvserver-IsPending :
      (m : JiaMsg) (s : MsgBuf) (low : ℕ) (js : List ℕ)
      → wanted_packet fromproc tag m ≡ true
      → 0 < free_count s.msgbuf
      → s.msgseqno + 1 < 2 ^ 32
      → IsPending fromproc tag s.msgbuf low (s.msgseqno + 1) js
      → (next : MsgBuf) × (i : ℕ) × (msgrecvserver m s ≡ some next)
        × (next.msgseqno ≡ s.msgseqno + 1)
        × (free_count next.msgbuf + 1 ≡ free_count s.msgbuf)
        × IsPending fromproc tag next.msgbuf low (next.msgseqno + 1) (js ++ (i ∷ []))
        × (contents next.msgbuf (js ++ (i ∷ [])) ≡ contents s.msgbuf js ++ m.body)
  msgrecvserver-IsPending m s low js w room small p =
      let (i, lt, free, run) = msgrecvserver-free m s room in
      let long : (s.msgseqno + 1) % 2 ^ 64 ≡ s.msgseqno + 1 = omega arith in
      let short : (s.msgseqno + 1) % 2 ^ 64 % 2 ^ 32 ≡ s.msgseqno + 1 = omega arith in
      let packet : JiaMsg = record m { temp = (s.msgbuf i).temp; seqno = s.msgseqno + 1 } in
      (
        record { msgbuf = update s.msgbuf i packet; msgseqno = s.msgseqno + 1 },
        i,
        run
            ∙ ap₂
                (λ a b. some (record {
                  msgbuf = update s.msgbuf i (record m { temp = (s.msgbuf i).temp; seqno = a });
                  msgseqno = b;
                }))
                short long,
        refl,
        free_count-update s.msgbuf i packet lt free w,
        put-IsPending fromproc tag s.msgbuf low (s.msgseqno + 1) i js packet lt
            (free-unwanted (s.msgbuf i) free) w refl p,
        contents-update s.msgbuf i packet lt free w low (s.msgseqno + 1) js p.ordered,
      )

  -- What the packets are after some more have come in.
  abbrev pub Come : (ms : List JiaMsg) (s : MsgBuf) (low : ℕ) (js : List ℕ) → Type 0
  Come ms s low js =
      (s' : MsgBuf) × (js' : List ℕ) × (receive_each ms s ≡ some s')
      × (s'.msgseqno ≡ s.msgseqno + length ms)
      × IsPending fromproc tag s'.msgbuf low (s'.msgseqno + 1) js'
      × (length js' ≡ length js + length ms)
      × (contents s'.msgbuf js' ≡ contents s.msgbuf js ++ bodies ms)

  pub receive_each-Come :
      (ms : List JiaMsg) (s : MsgBuf) (low : ℕ) (js : List ℕ)
      → All (λ m. wanted_packet fromproc tag m ≡ true) ms
      → length ms ≤ free_count s.msgbuf
      → s.msgseqno + length ms < 2 ^ 32
      → IsPending fromproc tag s.msgbuf low (s.msgseqno + 1) js
      → Come ms s low js
  unfolding receive_each bodies
  receive_each-Come [] s low js w room small p =
      (s, js, refl, omega arith, p, omega arith, sym (append-nil (contents s.msgbuf js)))
  receive_each-Come (m ∷ ms) s low js (w, ws) room small p =
      let (next, i, run, number, taken, more, has) =
        msgrecvserver-IsPending m s low js w (omega arith) (omega arith) p in
      let (s', js', runs, numbers, p', count, bytes) =
        receive_each-Come ms next low (js ++ (i ∷ [])) ws (omega arith) (omega arith) more in
      (
        s',
        js',
        ap (λ o. o >>= receive_each ms) run ∙ runs,
        omega arith,
        p',
        omega (arith, length-append js (i ∷ []), count),
        bytes
            ∙ ap (λ b. b ++ bodies ms) has
            ∙ append_assoc (contents s.msgbuf js) m.body (bodies ms),
      )
