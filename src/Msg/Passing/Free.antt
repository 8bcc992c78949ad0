-- ===== src/Msg/Passing/Free.antt =====
-- The free entries of `msgbuf`, one of which `msgrecvserver` of src/msg/msgserver.c takes.
use jiajia.Prelude.{
  ℕ, zero, suc, ◌+◌, ◌%◌, ◌^◌, ◌≤◌, ◌<◌, ◌≡◌, ◌⊎◌, inl, inr, refl, arith, Bool, true, false, some,
  if◌then◌else◌, lt→ltb, update, Bool-cases, ℕ_discrete,
}
use jiajia.Constants.{max_msg_bufs}
use jiajia.Msg.Types.{JiaMsg, errmsg}
use jiajia.Msg.Slots.Counting.{sum_of}
use jiajia.Msg.Passing.{MsgBuf, same_op, free_entry, msgrecvserver}

abbrev pub is_free : JiaMsg → Bool
is_free m = same_op m.op errmsg

abbrev pub free_weight : JiaMsg → ℕ
free_weight m = if is_free m then 1 else 0

-- How many entries are free.
abbrev pub free_count : (ℕ → JiaMsg) → ℕ
free_count msgbuf = sum_of free_weight max_msg_bufs msgbuf

free_entry-finds :
    (msgbuf : ℕ → JiaMsg) (n i : ℕ)
    → ((free_entry msgbuf n i < i + n) × (is_free (msgbuf (free_entry msgbuf n i)) ≡ true))
      ⊎ ((j : ℕ) → i ≤ j → j < i + n → is_free (msgbuf j) ≡ false)
unfolding free_entry
free_entry-finds msgbuf zero i = inr (λ j low high. absurd (omega arith))
free_entry-finds msgbuf (suc n) i = elim (Bool-cases (is_free (msgbuf i))) [
  | inl e ↦ inl (rw e (omega arith, e))
  | inr e ↦ elim (free_entry-finds msgbuf n (i + 1)) [
    | inl (lt, free) ↦ inl (rw e (omega arith, free))
    | inr taken ↦ inr (λ j low high. elim (ℕ_discrete j i) [
      | yes same ↦ rw same e
      | no ne ↦ taken j (omega arith) (omega arith)
    ])
  ]
]

sum_of-taken :
    (msgbuf : ℕ → JiaMsg) (n : ℕ)
    → ((j : ℕ) → j < n → is_free (msgbuf j) ≡ false)
    → sum_of free_weight n msgbuf ≡ 0
unfolding sum_of
sum_of-taken msgbuf zero taken = refl
sum_of-taken msgbuf (suc n) taken =
    let rest = sum_of-taken msgbuf n (λ j lt. taken j (omega arith)) in
    rw (taken n (omega arith)) (omega (arith, rest))

-- A packet goes into a free entry if there is one.
pub msgrecvserver-free :
    (req : JiaMsg) (s : MsgBuf)
    → 0 < free_count s.msgbuf
    → (i : ℕ) × (i < max_msg_bufs)
      × (is_free (s.msgbuf i) ≡ true)
      × (msgrecvserver req s
          ≡ some (record {
            msgbuf = update s.msgbuf i (record req {
              temp = (s.msgbuf i).temp;
              seqno = (s.msgseqno + 1) % 2 ^ 64 % 2 ^ 32;
            });
            msgseqno = (s.msgseqno + 1) % 2 ^ 64;
          }))
unfolding msgrecvserver
msgrecvserver-free req s some_ = elim (free_entry-finds s.msgbuf max_msg_bufs 0) [
  | inl (lt, free) ↦
      (free_entry s.msgbuf max_msg_bufs 0, lt, free, rw (lt→ltb _ max_msg_bufs lt) refl)
  | inr taken ↦
      absurd (omega (arith, sum_of-taken s.msgbuf max_msg_bufs (λ j lt. taken j (omega arith) lt)))
]
