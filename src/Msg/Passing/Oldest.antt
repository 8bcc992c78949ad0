-- ===== src/Msg/Passing/Oldest.antt =====
-- `nextpacket` of src/msg/msg.c finds the oldest packet.
use jiajia.Prelude.{
  subst, sym, ◌==◌, ℕ, zero, suc, ◌+◌, ◌≤◌, ◌<◌, ◌≡◌, refl, arith, Bool, true, false, ◌&&◌, ltb,
  Bool-cases, inl, inr, ◌⊎◌, ltb→lt,
}
use jiajia.Constants.{max_msg_bufs}
use jiajia.Msg.Types.{JiaMsg}
use jiajia.Msg.Passing.{max_msg_no, wanted_packet, packet_loop, nextpacket}

both : (a b : Bool) → (a && b) ≡ true → (a ≡ true) × (b ≡ true)
both true b e = (refl, e)
both false b e = ground arith

not_older : (a : Bool) (seqno next : ℕ) → (a && ltb seqno next) ≡ false → a ≡ true → next ≤ seqno
not_older true seqno next e w = ground arith
not_older false seqno next e w = ground arith

module _ (fromproc tag : ℕ) (msgbuf : ℕ → JiaMsg) where
  -- The result of the loop over the n entries from i on, which starts with `index` of number `next`.
  abbrev Best : (n i next index r : ℕ) → Type 0
  Best n i next index r =
      ((r ≡ index)
        × ((j : ℕ)
            → i ≤ j
            → j < i + n
            → wanted_packet fromproc tag (msgbuf j) ≡ true
            → next ≤ (msgbuf j).seqno))
      ⊎ ((i ≤ r)
          × (r < i + n)
          × (wanted_packet fromproc tag (msgbuf r) ≡ true)
          × ((msgbuf r).seqno < next)
          × ((j : ℕ)
              → i ≤ j
              → j < i + n
              → wanted_packet fromproc tag (msgbuf j) ≡ true
              → (msgbuf r).seqno ≤ (msgbuf j).seqno))

  from_first :
      (P : ℕ → Type 0) (n i : ℕ)
      → P i
      → ((j : ℕ) → i + 1 ≤ j → j < i + 1 + n → P j)
      → (j : ℕ) → i ≤ j
      → j < i + suc n
      → P j
  from_first P n i here rest j low high = elim (Bool-cases (j == i)) [
    | inl e ↦ subst P (ground arith) here
    | inr e ↦ rest j (ground arith) (omega arith)
  ]

  taken :
      (n i next index r : ℕ)
      → (wanted_packet fromproc tag (msgbuf i) && ltb (msgbuf i).seqno next) ≡ true
      → Best n (i + 1) (msgbuf i).seqno i r
      → Best (suc n) i next index r
  taken n i next index r e (inl (same, none_)) =
      let (w, lt) = both (wanted_packet fromproc tag (msgbuf i)) (ltb (msgbuf i).seqno next) e in
      subst (Best (suc n) i next index) (sym same) (
        inr (
          omega arith,
          omega arith,
          w,
          ltb→lt (msgbuf i).seqno next lt,
          from_first
              (λ j.
                wanted_packet fromproc tag (msgbuf j) ≡ true → (msgbuf i).seqno ≤ (msgbuf j).seqno)
              n i (λ _. omega arith) none_,
        ))
  taken n i next index r e (inr (low, high, w, small, least)) =
      let (w', lt) = both (wanted_packet fromproc tag (msgbuf i)) (ltb (msgbuf i).seqno next) e in
      inr (
        omega arith,
        omega arith,
        w,
        omega (arith, ltb→lt (msgbuf i).seqno next lt, small),
        from_first
            (λ j.
              wanted_packet fromproc tag (msgbuf j) ≡ true → (msgbuf r).seqno ≤ (msgbuf j).seqno)
            n i (λ _. omega arith) least,
      )

  passed :
      (n i next index r : ℕ)
      → (wanted_packet fromproc tag (msgbuf i) && ltb (msgbuf i).seqno next) ≡ false
      → Best n (i + 1) next index r
      → Best (suc n) i next index r
  passed n i next index r e (inl (same, none_)) = inl (
    same,
    from_first (λ j. wanted_packet fromproc tag (msgbuf j) ≡ true → next ≤ (msgbuf j).seqno) n i
        (λ w. not_older (wanted_packet fromproc tag (msgbuf i)) (msgbuf i).seqno next e w) none_,
  )
  passed n i next index r e (inr (low, high, w, small, least)) = inr (
    omega arith,
    omega arith,
    w,
    small,
    from_first
        (λ j. wanted_packet fromproc tag (msgbuf j) ≡ true → (msgbuf r).seqno ≤ (msgbuf j).seqno) n
        i
        (λ w'.
          let later : next ≤ (msgbuf i).seqno =
            not_older (wanted_packet fromproc tag (msgbuf i)) (msgbuf i).seqno next e w' in
          omega arith)
        least,
  )

  packet_loop-Best :
      (n i next index : ℕ) → Best n i next index (packet_loop fromproc tag msgbuf n i next index)
  unfolding packet_loop
  packet_loop-Best zero i next index = inl (refl, λ j low high w. omega arith)
  packet_loop-Best (suc n) i next index =
      elim (Bool-cases (wanted_packet fromproc tag (msgbuf i) && ltb (msgbuf i).seqno next)) [
        | inl e ↦ rw e (taken n i next index _ e (packet_loop-Best n (i + 1) (msgbuf i).seqno i))
        | inr e ↦ rw e (passed n i next index _ e (packet_loop-Best n (i + 1) next index))
      ]

  -- The packet that is returned has the least number of those from the host and with the tag that are
  -- in the buffer, and a number below Maxmsgno; the result is Maxmsgbufs only if there is none such.
  pub nextpacket_oldest :
      (let r = nextpacket fromproc tag msgbuf in
        ((r ≡ max_msg_bufs)
          × ((j : ℕ)
              → j < max_msg_bufs
              → wanted_packet fromproc tag (msgbuf j) ≡ true
              → max_msg_no ≤ (msgbuf j).seqno))
        ⊎ ((r < max_msg_bufs)
            × (wanted_packet fromproc tag (msgbuf r) ≡ true)
            × ((msgbuf r).seqno < max_msg_no)
            × ((j : ℕ)
                → j < max_msg_bufs
                → wanted_packet fromproc tag (msgbuf j) ≡ true
                → (msgbuf r).seqno ≤ (msgbuf j).seqno)))
  unfolding nextpacket
  nextpacket_oldest = elim (packet_loop-Best max_msg_bufs 0 max_msg_no max_msg_bufs) [
    | inl (e, none_) ↦ inl (e, λ j lt w. none_ j (omega arith) (omega arith) w)
    | inr (low, high, w, small, least) ↦
        inr (omega arith, w, small, λ j lt w'. least j (omega arith) (omega arith) w')
  ]
