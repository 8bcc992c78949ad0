-- ===== src/Comm/Queue/Tests.antt =====
-- Runs of a queue of four slots, and the theorems at them.
use jiajia.Prelude.{ℕ, zero, suc, ◌≡◌, refl, none, some, [], ◌∷◌, ◌++◌, ◌⊎◌, arith}
use jiajia.Comm.Queue.{MsgQueue, enqueue, receive, init_msg_queue}
use jiajia.Comm.Queue.Windows.{IsValid, contents}
use jiajia.Comm.Queue.Laws.{
  enqueue_appends, receive_oldest, init_msg_queue-IsValid, enqueue_all, reader_slot_kept,
}

-- Two messages, 8 and 9, round the end of the slots.
abbrev wrapped : MsgQueue ℕ
wrapped = record {
  queue = λ i. elim i [ zero ↦ 9 | suc j ↦ 8 ];
  size = 4;
  head = 3;
  tail = 1;
  busy_count = 2;
  free_count = 2;
}

wrapped-IsValid : IsValid 2 0 wrapped
wrapped-IsValid = omega arith

contents-wrapped : contents wrapped ≡ 8 ∷ 9 ∷ []
contents-wrapped = refl

queue_of_32-IsValid :
    IsValid 5 0 (init_msg_queue (λ i. i) 32 0) × (contents (init_msg_queue (λ i. i) 32 0) ≡ [])
queue_of_32-IsValid = init_msg_queue-IsValid (λ i. i) 32 0 5 (omega arith) refl

enqueue_appends_example :
    ((enqueue wrapped 7 ≡ none) × (wrapped.free_count ≡ 0))
    ⊎ ((r : MsgQueue ℕ) × (enqueue wrapped 7 ≡ some r)
        × IsValid 2 0 r
        × (contents r ≡ contents wrapped ++ (7 ∷ [])))
enqueue_appends_example = enqueue_appends wrapped 7 wrapped-IsValid

receive_oldest_example :
    ((receive wrapped ≡ none) × (contents wrapped ≡ []))
    ⊎ ((i : ℕ) × (r : MsgQueue ℕ) × (receive wrapped ≡ some (i, r))
        × IsValid 2 1 r
        × (contents wrapped ≡ r.queue i ∷ contents r))
receive_oldest_example = receive_oldest wrapped wrapped-IsValid

-- The reader has slot 3 while two more messages come in.
reader_slot_kept_example : wrapped.queue 3 ≡ 8
unfolding receive enqueue_all enqueue
reader_slot_kept_example = reader_slot_kept wrapped _ _ (1 ∷ 2 ∷ []) wrapped-IsValid refl refl
