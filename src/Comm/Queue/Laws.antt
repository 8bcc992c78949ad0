-- ===== src/Comm/Queue/Laws.antt =====
-- A queue of 2 ^ k slots is a bounded FIFO, and a slot is not overwritten while its reader has it.
use native.Mathlib.Nat.{mod-eq_of_lt, mod-add-mod}
use jiajia.Prelude.{
  ℕ, suc, ◌+◌, ◌-◌, ◌%◌, ◌^◌, ◌<◌, ◌≡◌, refl, ap, sym, ◌∙◌, ◌≢◌, ◌⊎◌, Option, none, some, List, [],
  ◌∷◌, ◌++◌, arith, if◌then◌else◌, ◌==◌, update_ne, Bool-cases, Option-cases, subst, inl, inr,
}
use native.Mathlib.Numerals.{add-one}
use jiajia.Prelude.Bits.{pow_pos}
use jiajia.Comm.Queue.{MsgQueue, enqueue, receive, done, init_msg_queue}
use jiajia.Comm.Queue.Windows.{
  IsValid, add-mod-ne, window, contents, window_empty, window_pos, next_index_lem, window-update,
  enqueued, received, enqueue_inv, receive_inv, enqueued-IsValid, received-IsValid,
}

module _ {ℓ} {A : Type ℓ} where
  -- `enqueue` on a valid queue blocks if it is full only; otherwise it appends the message behind
  -- the others and keeps the queue valid.
  pub enqueue_appends :
      {k held : ℕ} (q : MsgQueue A) (m : A)
      → IsValid k held q
      → ((enqueue q m ≡ none) × (q.free_count ≡ 0))
        ⊎ ((r : MsgQueue A) × (enqueue q m ≡ some r)
            × IsValid k held r
            × (contents r ≡ contents q ++ (m ∷ [])))
  unfolding enqueue
  enqueue_appends {k} {held} q m v = elim (Bool-cases (q.free_count == 0)) [
    | inl full ↦ inl (rw full, ground arith)
    | inr room ↦ inr (
      enqueued q m,
      rw room,
      enqueued-IsValid v m (ground arith),
      rw add-one (
          window-update q.queue q.size q.head q.busy_count q.tail m v.head_in (ground arith)
            v.tail_lem),
    )
  ]

  -- What a consumer receives of a valid queue is the oldest message; the rest keeps its order,
  -- and the queue is valid. It blocks if the queue is empty only.
  pub receive_oldest :
      {k held : ℕ} (q : MsgQueue A)
      → IsValid k held q
      → ((receive q ≡ none) × (contents q ≡ []))
        ⊎ ((i : ℕ) × (r : MsgQueue A) × (receive q ≡ some (i, r))
            × IsValid k (suc held) r
            × (contents q ≡ r.queue i ∷ contents r))
  unfolding receive
  receive_oldest {k} {held} q v = elim (Bool-cases (q.busy_count == 0)) [
    | inl empty ↦ inl (rw empty, window_empty q.queue q.size q.head q.busy_count (ground arith))
    | inr left ↦ inr (
      q.head,
      received q,
      rw left,
      received-IsValid v (ground arith),
      window_pos q.queue q.size q.head q.busy_count (ground arith)
          ∙ ap (λ j. q.queue q.head ∷ window q.queue q.size j (q.busy_count - 1))
              (sym (next_index_lem v q.head v.head_in)),
    )
  ]

  pub done-IsValid :
      {k held : ℕ} (q : MsgQueue A) → IsValid k (suc held) q → IsValid k held (done q)
  unfolding done
  done-IsValid q v = omega arith

  -- A queue of 2 ^ k slots, below 2 ^ 32, starts valid and empty, whether its size is the
  -- argument or the default.
  pub init_msg_queue-IsValid :
      (memory : ℕ → A) (msg_queue_size size k : ℕ)
      → 2 ^ k < 2 ^ 32
      → (if size == 0 then msg_queue_size else size) ≡ 2 ^ k
      → IsValid k 0 (init_msg_queue memory msg_queue_size size)
        × (contents (init_msg_queue memory msg_queue_size size) ≡ [])
  unfolding init_msg_queue
  init_msg_queue-IsValid memory msg_queue_size size k few e = (
    record {
      few = few;
      power = e;
      head_in = rw e (pow_pos k);
      tail_lem = rw e (sym (mod-eq_of_lt {n = 0 + 0} {m = 2 ^ k} (pow_pos k)));
      counted = omega arith;
    },
    refl,
  )

  -- The producers' messages, one after the other; `none` when one of them would block.
  unfoldable pub enqueue_all : MsgQueue A → List A → Option (MsgQueue A)
  enqueue_all q [] = some q
  enqueue_all q (m ∷ ms) = elim (enqueue q m) [ none ↦ none | some r ↦ enqueue_all r ms ]

  -- The one reader of the queue has slot i.
  record Reading (k i : ℕ) (q : MsgQueue A) : Type ℓ where
    valid : IsValid k 1 q
    slot_in : i < q.size
    head_lem : q.head ≡ (i + 1) % q.size

  enqueue-Reading :
      {k i : ℕ} (q r : MsgQueue A) (m : A)
      → Reading k i q
      → enqueue q m ≡ some r
      → Reading k i r × (r.queue i ≡ q.queue i)
  enqueue-Reading {k} {i} q r m p e =
      let (room, same) = enqueue_inv q r m e in
      subst (λ t. Reading k i t × (t.queue i ≡ q.queue i)) same
        (
          record {
            valid = enqueued-IsValid p.valid m room;
            slot_in = p.slot_in;
            head_lem = p.head_lem;
          },
          update_ne q.queue q.tail m i (apart room),
        )
    where
      apart : 0 < q.free_count → i ≢ q.tail
      apart room e =
          add-mod-ne q.size i (suc q.busy_count) p.slot_in (omega arith)
            (omega (arith, p.valid.counted)) (shift ∙ sym p.valid.tail_lem ∙ sym e)
        where
          shift : (i + suc q.busy_count) % q.size ≡ (q.head + q.busy_count) % q.size
          shift = rw (p.head_lem, mod-add-mod) (ap (λ t. t % q.size) (omega arith))

  enqueue_all-Reading :
      {k i : ℕ} (q r : MsgQueue A) (ms : List A)
      → Reading k i q
      → enqueue_all q ms ≡ some r
      → r.queue i ≡ q.queue i
  unfolding enqueue_all
  enqueue_all-Reading q r [] p e = ground arith
  enqueue_all-Reading {k} {i} q r (m ∷ ms) p e = elim (Option-cases (enqueue q m)) [
    | inl stuck ↦ cc (rw (stuck, enqueue_all) at e)
    | inr (s, h) ↦
        let (p', same) = enqueue-Reading q s m p h in
        enqueue_all-Reading s r ms p' (rw (h, enqueue_all) at e) ∙ same
  ]

  receive-Reading :
      {k i : ℕ} (q r : MsgQueue A)
      → IsValid k 0 q
      → receive q ≡ some (i, r)
      → Reading k i r × (r.queue ≡ q.queue)
  receive-Reading {k} {i} q r v e =
      let (left, here, same) = receive_inv q r i e in
      subst (λ t. Reading k i t × (t.queue ≡ q.queue)) same
        (
          record {
            valid = received-IsValid v left;
            slot_in = rw (← here) v.head_in;
            head_lem = rw (← here) (next_index_lem v q.head v.head_in);
          },
          refl,
        )

  -- Whatever the producers enqueue into a valid queue while the reader works on its slot, the
  -- message in it stays.
  pub reader_slot_kept :
      {k i : ℕ} (q r s : MsgQueue A) (ms : List A)
      → IsValid k 0 q
      → receive q ≡ some (i, r)
      → enqueue_all r ms ≡ some s
      → s.queue i ≡ q.queue i
  reader_slot_kept {i} q r s ms v e f =
      let (p, same) = receive-Reading q r v e in enqueue_all-Reading r s ms p f ∙ ap (λ g. g i) same
