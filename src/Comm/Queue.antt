-- ===== src/Comm/Queue.antt =====
-- msg_queue_t of src/include/msg.h and `enqueue`, `dequeue` of src/comm/comm.c, with the semaphore
-- calls that the client and server threads of src/udp make around `dequeue`.
pub mod Windows
pub mod Laws
mod Tests
use jiajia.Prelude.{
  ℕ, zero, suc, ◌+◌, ◌-◌, ◌%◌, ◌^◌, Option, none, some, if◌then◌else◌, ◌==◌, update, bit_and,
}

-- A slot holds a message of type `A`. The three mutexes serialise the steps below, so a step is
-- atomic; `post` and the `_value` counters are used by the RDMA stack alone.
pub record MsgQueue {ℓ} (A : Type ℓ) : Type ℓ where
  pub queue : ℕ → A
  pub size : ℕ
  pub head : ℕ
  pub tail : ℕ
  pub busy_count : ℕ
  pub free_count : ℕ

module _ {ℓ} {A : Type ℓ} where
  -- The queue that `init_msg_queue` sets up over the memory that it allocates; a size of 0 or less
  -- is replaced by `system_setting.msg_queue_size`.
  pub init_msg_queue : (ℕ → A) → ℕ → ℕ → MsgQueue A
  init_msg_queue memory msg_queue_size size =
      let n = if size == 0 then msg_queue_size else size in
      record { queue = memory; size = n; head = 0; tail = 0; busy_count = 0; free_count = n }

  -- The next index, `(i + 1) & (size - 1)` in unsigned arithmetic.
  abbrev pub next_index : MsgQueue A → ℕ → ℕ
  next_index q i = bit_and ((i + 1) % 2 ^ 32) (q.size - 1)

  -- `none`: the caller blocks in `sem_wait(&free_count)`.
  pub enqueue : MsgQueue A → A → Option (MsgQueue A)
  enqueue q msg =
      if q.free_count == 0
      then none
      else some (record q {
        queue = update q.queue q.tail msg;
        tail = next_index q q.tail;
        busy_count = q.busy_count + 1;
        free_count = q.free_count - 1;
      })

  -- The slot index that `dequeue` hands out: the caller reads the message in place.
  pub dequeue : MsgQueue A → ℕ × MsgQueue A
  dequeue q = (q.head, record q { head = next_index q q.head })

  -- A consumer thread: `sem_wait(&busy_count)`, then `dequeue`. `none`: it blocks.
  pub receive : MsgQueue A → Option (ℕ × MsgQueue A)
  unfolding dequeue
  receive q =
      if q.busy_count == 0
      then none
      else some (dequeue (record q { busy_count = q.busy_count - 1 }))

  -- `sem_post(&free_count)`, when the consumer is done with the slot.
  pub done : MsgQueue A → MsgQueue A
  done q = record q { free_count = q.free_count + 1 }
