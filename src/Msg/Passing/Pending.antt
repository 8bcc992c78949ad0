-- ===== src/Msg/Passing/Pending.antt =====
-- The packets that wait in `msgbuf`, as a list in the order of their numbers: what `msgrecvserver` of
-- src/msg/msgserver.c adds to it and `nextpacket` of src/msg/msg.c takes from it.
use jiajia.Prelude.{
  ℕ, ◌+◌, ◌≤◌, ◌<◌, ◌≡◌, ◌⊎◌, inl, inr, refl, ap, sym, arith, true, false, List, [], ◌∷◌, ◌++◌,
  update, update_self, update_ne, ℕ_discrete,
}
use jiajia.Constants.{max_msg_bufs}
use jiajia.Msg.Types.{JiaMsg, errmsg}
use jiajia.Msg.Passing.{max_msg_no, wanted_packet, nextpacket, clear_packet}
use jiajia.Msg.Passing.Oldest.{nextpacket_oldest}

abbrev pub Among : ℕ → List ℕ → Type 0
Among x [] = ⊥
Among x (y ∷ ys) = (x ≡ y) ⊎ Among x ys

pub Among-left : (x : ℕ) (xs ys : List ℕ) → Among x xs → Among x (xs ++ ys)
Among-left x [] ys h = elim h [ ]
Among-left x (y ∷ xs) ys (inl e) = inl e
Among-left x (y ∷ xs) ys (inr h) = inr (Among-left x xs ys h)

pub Among-last : (x : ℕ) (xs : List ℕ) → Among x (xs ++ (x ∷ []))
Among-last x [] = inl refl
Among-last x (y ∷ xs) = inr (Among-last x xs)

module _ (fromproc tag : ℕ) where
  -- Entries with wanted packets, whose numbers grow from `low` on and stay below `high`.
  abbrev pub Ordered : (ℕ → JiaMsg) → (low high : ℕ) → List ℕ → Type 0
  Ordered msgbuf low high [] = low ≤ high
  Ordered msgbuf low high (j ∷ js) =
      (low ≤ (msgbuf j).seqno)
      × (j < max_msg_bufs)
      × (wanted_packet fromproc tag (msgbuf j) ≡ true)
      × Ordered msgbuf ((msgbuf j).seqno + 1) high js

  -- The wanted packets are those of the list.
  pub record IsPending (msgbuf : ℕ → JiaMsg) (low high : ℕ) (js : List ℕ) : Type 0 where
    pub ordered : Ordered msgbuf low high js
    pub all : (j : ℕ) → j < max_msg_bufs → wanted_packet fromproc tag (msgbuf j) ≡ true → Among j js

  Ordered-le :
      (msgbuf : ℕ → JiaMsg) (low high : ℕ) (js : List ℕ) → Ordered msgbuf low high js → low ≤ high
  Ordered-le msgbuf low high [] le = le
  Ordered-le msgbuf low high (j ∷ js) (le, lt, w, rest) =
      omega (arith, Ordered-le msgbuf ((msgbuf j).seqno + 1) high js rest)

  Ordered-Among :
      (msgbuf : ℕ → JiaMsg) (low high : ℕ) (js : List ℕ) (x : ℕ)
      → Ordered msgbuf low high js
      → Among x js
      → low ≤ (msgbuf x).seqno
  Ordered-Among msgbuf low high [] x o h = elim h [ ]
  Ordered-Among msgbuf low high (j ∷ js) x (le, lt, w, rest) (inl e) = rw e le
  Ordered-Among msgbuf low high (j ∷ js) x (le, lt, w, rest) (inr h) =
      omega (arith, Ordered-Among msgbuf ((msgbuf j).seqno + 1) high js x rest h)

  -- Writing an entry that the list does not have.
  Ordered-update :
      (msgbuf : ℕ → JiaMsg) (i : ℕ) (m : JiaMsg) (low high : ℕ) (js : List ℕ)
      → (Among i js → ⊥)
      → Ordered msgbuf low high js
      → Ordered (update msgbuf i m) low high js
  Ordered-update msgbuf i m low high [] other o = o
  Ordered-update msgbuf i m low high (j ∷ js) other (le, lt, w, rest) =
      let same = update_ne msgbuf i m j (λ e. other (inl (sym e))) in
      rw same (
        le,
        lt,
        w,
        Ordered-update msgbuf i m ((msgbuf j).seqno + 1) high js (λ h. other (inr h)) rest,
      )

  pub nextpacket-nil :
      (msgbuf : ℕ → JiaMsg) (low high : ℕ)
      → IsPending msgbuf low high []
      → nextpacket fromproc tag msgbuf ≡ max_msg_bufs
  nextpacket-nil msgbuf low high p = elim (nextpacket_oldest fromproc tag msgbuf) [
    | inl (e, late) ↦ e
    | inr (lt, w, small, least) ↦ absurd (p.all _ lt w)
  ]

  pub nextpacket-first :
      (msgbuf : ℕ → JiaMsg) (low high j : ℕ) (js : List ℕ)
      → high ≤ max_msg_no
      → IsPending msgbuf low high (j ∷ js)
      → nextpacket fromproc tag msgbuf ≡ j
  nextpacket-first msgbuf low high j js top p =
      let (le, lt, w, rest) = p.ordered in
      let below = Ordered-le msgbuf ((msgbuf j).seqno + 1) high js rest in
      elim (nextpacket_oldest fromproc tag msgbuf) [
        | inl (e, late) ↦ absurd (omega (arith, late j lt w, below))
        | inr (lt', w', small, least) ↦ elim (p.all _ lt' w') [
          | inl e ↦ e
          | inr h ↦ absurd (
              omega
                (arith, least j lt w, Ordered-Among msgbuf ((msgbuf j).seqno + 1) high js _ rest h))
        ]
      ]

  pub Ordered-wanted :
      (msgbuf : ℕ → JiaMsg) (low high : ℕ) (js : List ℕ) (x : ℕ)
      → Ordered msgbuf low high js
      → Among x js
      → wanted_packet fromproc tag (msgbuf x) ≡ true
  Ordered-wanted msgbuf low high [] x o h = elim h [ ]
  Ordered-wanted msgbuf low high (j ∷ js) x (le, lt, w, rest) (inl e) = rw e w
  Ordered-wanted msgbuf low high (j ∷ js) x (le, lt, w, rest) (inr h) =
      Ordered-wanted msgbuf ((msgbuf j).seqno + 1) high js x rest h

  Ordered-put :
      (msgbuf : ℕ → JiaMsg) (low high i : ℕ) (js : List ℕ)
      → i < max_msg_bufs
      → wanted_packet fromproc tag (msgbuf i) ≡ true
      → (msgbuf i).seqno ≡ high
      → Ordered msgbuf low high js
      → Ordered msgbuf low (high + 1) (js ++ (i ∷ []))
  Ordered-put msgbuf low high i [] lt w e o = (omega arith, lt, w, omega arith)
  Ordered-put msgbuf low high i (j ∷ js) lt w e (le, lt', w', rest) =
      (le, lt', w', Ordered-put msgbuf ((msgbuf j).seqno + 1) high i js lt w e rest)

  cleared :
      (msgbuf : ℕ → JiaMsg) (x j : ℕ)
      → x ≡ j
      → wanted_packet fromproc tag (clear_packet msgbuf j x) ≡ false
  cleared msgbuf x j e =
      rw e
        (ap (wanted_packet fromproc tag) (update_self msgbuf j (record (msgbuf j) { op = errmsg })))

  pub clear_packet-IsPending :
      (msgbuf : ℕ → JiaMsg) (low high j : ℕ) (js : List ℕ)
      → IsPending msgbuf low high (j ∷ js)
      → IsPending (clear_packet msgbuf j) ((msgbuf j).seqno + 1) high js
  clear_packet-IsPending msgbuf low high j js p =
      let (le, lt, w, rest) = p.ordered in
      record {
        ordered =
            Ordered-update msgbuf j _ ((msgbuf j).seqno + 1) high js
              (λ h.
                let late = Ordered-Among msgbuf ((msgbuf j).seqno + 1) high js j rest h in
                omega arith)
              rest;
        all = λ x lt' w'. elim (ℕ_discrete x j) [
          | yes e ↦ absurd (grind (arith, cleared msgbuf x j e, w'))
          | no ne ↦ elim (p.all x lt' (rw (update_ne msgbuf j _ x ne) at w')) [
            | inl e ↦ absurd (ne e)
            | inr h ↦ h
          ]
        ];
      }

  -- A packet that comes in at a free entry, with the next number.
  pub put-IsPending :
      (msgbuf : ℕ → JiaMsg) (low high i : ℕ) (js : List ℕ) (m : JiaMsg)
      → i < max_msg_bufs
      → wanted_packet fromproc tag (msgbuf i) ≡ false
      → wanted_packet fromproc tag m ≡ true
      → m.seqno ≡ high
      → IsPending msgbuf low high js
      → IsPending (update msgbuf i m) low (high + 1) (js ++ (i ∷ []))
  put-IsPending msgbuf low high i js m lt free w e p =
      let here = update_self msgbuf i m in
      record {
        ordered = Ordered-put (update msgbuf i m) low high i js lt (rw here w) (rw here e) (
            Ordered-update msgbuf i m low high js
              (λ h. absurd (grind (arith, free, Ordered-wanted msgbuf low high js i p.ordered h)))
              p.ordered);
        all = λ x lt' w'. elim (ℕ_discrete x i) [
          | yes same ↦ rw same (Among-last i js)
          | no ne ↦ Among-left x js (i ∷ []) (p.all x lt' (rw (update_ne msgbuf i m x ne) at w'))
        ];
      }
