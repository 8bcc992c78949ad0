-- ===== src/Mem/Diff/Save/Send.antt =====
-- The DIFF messages that `senddiffs` sends.
use jiajia.Prelude.{
  ℕ, zero, suc, ◌+◌, ◌≤◌, ◌<◌, ◌≡◌, refl, ap, ap₂, ◌∙◌, subst, Option, none, some, List, [], ◌∷◌,
  ◌++◌, append-nil, append_assoc, if◌then◌else◌, ◌==◌, ltb, length, length-append, arith,
  Bool-cases, inl, inr,
}
use jiajia.Msg.Types.{JiaMsg}
use jiajia.Mem.Diff.Save.{Diffs, diff_to, send_message, senddiff_loop}
use jiajia.Mem.Diff.Save.Fill.{bytes_of}

module _ (jia_pid : ℕ) where
  -- The messages of `senddiffs` to the n hosts from i on.
  abbrev pub one_message : ℕ → List ℕ → List JiaMsg
  one_message i body = if ltb 0 (length body) then diff_to jia_pid i body ∷ [] else []

  abbrev pub messages : ℕ → ℕ → (ℕ → Option (List ℕ)) → List JiaMsg
  messages zero i d = []
  messages (suc n) i d = one_message i (bytes_of (d i)) ++ messages n (i + 1) d

  pub messages_ext :
      (n i : ℕ) (d e : ℕ → Option (List ℕ))
      → ((h : ℕ) → i ≤ h → d h ≡ e h)
      → messages n i d ≡ messages n i e
  messages_ext zero i d e same = refl
  messages_ext (suc n) i d e same =
      ap₂ (λ o ms. one_message i (bytes_of o) ++ ms) (same i (omega arith))
        (messages_ext n (i + 1) d e (λ h le. same h (omega arith)))

  -- What sending does to the state, from the entries d on.
  pub record Sent (msgs : List JiaMsg) (s s' : Diffs) : Type 0 where
    pub queued : s'.sent ≡ s.sent ++ msgs
    pub counted : s'.diffwait ≡ s.diffwait + length msgs

  send_message-Sent :
      (i : ℕ) (o : Option (List ℕ)) (s : Diffs)
      → Sent (one_message i (bytes_of o)) s (send_message jia_pid i o s)
  unfolding send_message
  send_message-Sent i none s = record { queued = rw append-nil; counted = omega arith }
  send_message-Sent i (some body) s = elim (Bool-cases (ltb 0 (length body))) [
    | inl e ↦ rw e record { queued = refl; counted = omega arith }
    | inr e ↦ rw e record { queued = rw append-nil; counted = omega arith }
  ]

  send_message-gone :
      (i : ℕ) (s : Diffs) (o : Option (List ℕ)) (h : ℕ)
      → s.diffmsg i ≡ o
      → (send_message jia_pid i o s).diffmsg h ≡ (if h == i then none else s.diffmsg h)
  unfolding send_message
  send_message-gone i s none h e = ground (arith, λ (p : h ≡ i). ap s.diffmsg p)
  send_message-gone i s (some body) h e = ground arith

  Sent-append : {a b : List JiaMsg} {s t u : Diffs} → Sent a s t → Sent b t u → Sent (a ++ b) s u
  Sent-append {a} {b} {s} p q = record {
    queued = q.queued ∙ rw p.queued (append_assoc s.sent a b);
    counted = omega (arith, p.counted, q.counted, length-append a b);
  }

  messages-send_message :
      (n i : ℕ) (s : Diffs)
      → messages n (i + 1) (send_message jia_pid i (s.diffmsg i) s).diffmsg
        ≡ messages n (i + 1) s.diffmsg
  messages-send_message n i s =
      messages_ext n (i + 1) _ s.diffmsg
        (λ h le. ground (arith, send_message-gone i s (s.diffmsg i) h refl))

  pub senddiff_loop-Sent :
      (n i : ℕ) (s : Diffs) → Sent (messages n i s.diffmsg) s (senddiff_loop jia_pid n i s)
  unfolding senddiff_loop
  senddiff_loop-Sent zero i s = record { queued = rw append-nil; counted = omega arith }
  senddiff_loop-Sent (suc n) i s =
      let next = send_message jia_pid i (s.diffmsg i) s in
      Sent-append (send_message-Sent i (s.diffmsg i) s) (
        subst (λ ms. Sent ms next (senddiff_loop jia_pid n (i + 1) next))
          (messages-send_message n i s) (senddiff_loop-Sent n (i + 1) next))

  pub senddiff_loop-gone :
      (n i : ℕ) (s : Diffs) (h : ℕ)
      → h < i + n
      → (h < i → s.diffmsg h ≡ none)
      → (senddiff_loop jia_pid n i s).diffmsg h ≡ none
  unfolding senddiff_loop
  senddiff_loop-gone zero i s h lt before = before (omega arith)
  senddiff_loop-gone (suc n) i s h lt before =
      senddiff_loop-gone n (i + 1) (send_message jia_pid i (s.diffmsg i) s) h (omega arith)
        (λ le. ground (arith, send_message-gone i s (s.diffmsg i) h refl, before))
