-- ===== src/Msg/Passing/Fragments.antt =====
-- `jia_send` of src/msg/msguser.c cuts a buffer into messages.
use jiajia.Prelude.{
  ℕ, zero, suc, ◌≤◌, ◌<◌, ◌≡◌, refl, ap, ◌∙◌, arith, true, false, Option, some, List, [], ◌∷◌, ◌++◌,
  append-nil, ltb, ltb→lt, lt→ltb, take, drop, length, length-take, length-drop, take-append-drop,
  Bool-cases, inl, inr,
}
use jiajia.Constants.{max_msg_size}
use jiajia.Msg.Types.{msgbody, msgtail, JiaMsg, appendmsg, appendmsg-some}
use jiajia.Syn.Notices.Pack.{◌>>=◌}
use jiajia.Msg.Passing.{fragment, send_loop, jia_send}

-- The bytes of the messages, one behind the other.
unfoldable pub bodies : List JiaMsg → List ℕ
bodies [] = []
bodies (m ∷ ms) = m.body ++ bodies ms

-- Full MSGBODY messages, and a MSGTAIL message at the end, all from one host to one host with one tag.
abbrev pub IsSplit : (jia_pid toproc tag : ℕ) → List JiaMsg → Type 0
IsSplit jia_pid toproc tag [] = ⊥
IsSplit jia_pid toproc tag (m ∷ []) =
    (m.op ≡ msgtail)
    × (m.frompid ≡ jia_pid)
    × (m.topid ≡ toproc)
    × (m.scope ≡ tag)
    × (length m.body ≤ max_msg_size)
IsSplit jia_pid toproc tag (m ∷ q ∷ ms) =
    (m.op ≡ msgbody)
    × (m.frompid ≡ jia_pid)
    × (m.topid ≡ toproc)
    × (m.scope ≡ tag)
    × (length m.body ≡ max_msg_size)
    × IsSplit jia_pid toproc tag (q ∷ ms)

module _ (jia_pid toproc tag : ℕ) where
  cons-IsSplit :
      (body : List ℕ) (ms : List JiaMsg)
      → length body ≡ max_msg_size
      → IsSplit jia_pid toproc tag ms
      → IsSplit jia_pid toproc tag (fragment jia_pid msgbody toproc tag body ∷ ms)
  cons-IsSplit body [] e h = elim h [ ]
  cons-IsSplit body (q ∷ ms) e h = (refl, refl, refl, refl, e, h)

  send_more :
      (f : ℕ) (buf : List ℕ) (rest : List JiaMsg)
      → ltb max_msg_size (length buf) ≡ true
      → send_loop jia_pid f toproc tag (drop max_msg_size buf) ≡ some rest
      → send_loop jia_pid (suc f) toproc tag buf
        ≡ some (fragment jia_pid msgbody toproc tag (take max_msg_size buf) ∷ rest)
  unfolding send_loop
  send_more f buf rest more e =
      let body = take max_msg_size buf in
      let full : List ℕ → Option (List JiaMsg) = λ b.
        send_loop jia_pid f toproc tag (drop max_msg_size buf)
        >>= (λ r. some (fragment jia_pid msgbody toproc tag b ∷ r)) in
      let part : List ℕ → Option (List JiaMsg) =
        λ b. some (fragment jia_pid msgtail toproc tag b ∷ []) in
      ap (λ c. elim c [ true ↦ appendmsg [] body >>= full | false ↦ appendmsg [] buf >>= part ])
        more
      ∙ ap (λ o. o >>= full) (appendmsg-some [] body (omega (arith, length-take max_msg_size buf)))
      ∙ ap (λ o. o >>= (λ r. some (fragment jia_pid msgbody toproc tag body ∷ r))) e

  send_last :
      (f : ℕ) (buf : List ℕ)
      → ltb max_msg_size (length buf) ≡ false
      → send_loop jia_pid (suc f) toproc tag buf
        ≡ some (fragment jia_pid msgtail toproc tag buf ∷ [])
  unfolding send_loop
  send_last f buf last =
      let body = take max_msg_size buf in
      let full : List ℕ → Option (List JiaMsg) = λ b.
        send_loop jia_pid f toproc tag (drop max_msg_size buf)
        >>= (λ r. some (fragment jia_pid msgbody toproc tag b ∷ r)) in
      let part : List ℕ → Option (List JiaMsg) =
        λ b. some (fragment jia_pid msgtail toproc tag b ∷ []) in
      ap (λ c. elim c [ true ↦ appendmsg [] body >>= full | false ↦ appendmsg [] buf >>= part ])
        last
      ∙ ap (λ o. o >>= part) (appendmsg-some [] buf (ground arith))

  send_loop-IsSplit :
      (f : ℕ) (buf : List ℕ)
      → length buf < f
      → (ms : List JiaMsg) × (send_loop jia_pid f toproc tag buf ≡ some ms)
        × IsSplit jia_pid toproc tag ms
        × (bodies ms ≡ buf)
  unfolding bodies
  send_loop-IsSplit zero buf h = let bad : ⊥ = omega arith in elim bad [ ]
  send_loop-IsSplit (suc f) buf h = elim (Bool-cases (ltb max_msg_size (length buf))) [
    | inl e ↦
        let long = ltb→lt max_msg_size (length buf) e in
        let (ms, run, shape, all) =
          send_loop-IsSplit f (drop max_msg_size buf)
            (omega (arith, length-drop max_msg_size buf, long)) in
        (
          fragment jia_pid msgbody toproc tag (take max_msg_size buf) ∷ ms,
          send_more f buf ms e run,
          cons-IsSplit (take max_msg_size buf) ms
              (omega (arith, length-take max_msg_size buf, long)) shape,
          ap (λ b. take max_msg_size buf ++ b) all ∙ take-append-drop max_msg_size buf,
        )
    | inr e ↦ (
      fragment jia_pid msgtail toproc tag buf ∷ [],
      send_last f buf e,
      (refl, refl, refl, refl, ground arith),
      append-nil buf,
    )
  ]

  -- `jia_send` to a host cuts the buffer into messages that have all its bytes in order: full MSGBODY
  -- messages and a MSGTAIL message. A round for each byte and one more is enough fuel.
  pub jia_send_fragments :
      (hostc fuel : ℕ) (buf : List ℕ)
      → toproc < hostc
      → length buf < fuel
      → (ms : List JiaMsg) × (jia_send jia_pid hostc fuel toproc tag buf ≡ some ms)
        × IsSplit jia_pid toproc tag ms
        × (bodies ms ≡ buf)
  unfolding jia_send
  jia_send_fragments hostc fuel buf lt h =
      let (ms, run, shape, all) = send_loop-IsSplit fuel buf h in
      (ms, rw (lt→ltb toproc hostc lt) run, shape, all)
