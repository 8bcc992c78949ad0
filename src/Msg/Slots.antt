-- ===== src/Msg/Slots.antt =====
-- `freemsg_lock` and `freemsg_unlock` of src/msg/msg.c: the threads of a host that take message slots of
-- `msg_buffer` and give them back, in any interleaving of their atomic steps. Both
-- ways to NULL are there: a `sem_wait` that fails, and the weak compare-and-exchange, which may also fail
-- on a free slot.
pub mod Counting
pub mod Found
mod Tests
use jiajia.Prelude.{ℕ, suc, ◌+◌, ◌-◌, ◌<◌, ◌≡◌, Bool, true, false, update}

-- Where a thread is: outside, in the loop of `freemsg_lock` at an index, with the slot, between the two
-- steps of `freemsg_unlock`, or with NULL.
pub data Pc : Type 0 where
  idle : Pc
  scanning : ℕ → Pc
  holding : ℕ → Pc
  posting : Pc
  failed : Pc

-- `state` of the slots, SLOT_BUSY as true; the semaphore `count`; the threads.
pub record Buffer : Type 0 where
  pub busy : ℕ → Bool
  pub count : ℕ
  pub pc : ℕ → Pc
  -- how often `sem_wait` has failed, or the compare-and-exchange on a free slot
  pub faults : ℕ

-- A thread's step; `size` is that of `init_msg_buffer`.
pub data Step (size : ℕ) (s : Buffer) (t : ℕ) : Buffer → Type 0 where
  -- `sem_wait(&msg_buffer.count)`
  wait :
      s.pc t ≡ idle
      → 0 < s.count
      → Step size s t (record s { count = s.count - 1; pc = update s.pc t (scanning 0) })
  -- it fails, as a signal makes it: `return NULL`
  wait_fails :
      s.pc t ≡ idle → Step size s t (record s { pc = update s.pc t failed; faults = s.faults + 1 })
  -- `atomic_compare_exchange_weak` succeeds
  take :
      (i : ℕ)
      → s.pc t ≡ scanning i
      → i < size
      → s.busy i ≡ false
      → Step size s t (record s { busy = update s.busy i true; pc = update s.pc t (holding i) })
  -- it fails on a slot that another thread has: the next slot
  skip :
      (i : ℕ)
      → s.pc t ≡ scanning i
      → i < size
      → s.busy i ≡ true
      → Step size s t (record s { pc = update s.pc t (scanning (suc i)) })
  -- it fails on a free slot
  skip_free :
      (i : ℕ)
      → s.pc t ≡ scanning i
      → i < size
      → s.busy i ≡ false
      → Step size s t (record s { pc = update s.pc t (scanning (suc i)); faults = s.faults + 1 })
  -- the loop is over: `return NULL`
  give_up : s.pc t ≡ scanning size → Step size s t (record s { pc = update s.pc t failed })
  -- `atomic_store(&slot->state, SLOT_FREE)`
  free :
      (i : ℕ)
      → s.pc t ≡ holding i
      → Step size s t (record s { busy = update s.busy i false; pc = update s.pc t posting })
  -- `sem_post(&msg_buffer.count)`
  post :
      s.pc t ≡ posting → Step size s t (record s { count = s.count + 1; pc = update s.pc t idle })

-- `init_msg_buffer`
abbrev pub init_msg_buffer : ℕ → Buffer
init_msg_buffer size = record { busy = λ i. false; count = size; pc = λ t. idle; faults = 0 }

-- The states that n threads reach.
pub data Reach (size n : ℕ) : Buffer → Type 0 where
  start : Reach size n (init_msg_buffer size)
  next : {s s' : Buffer} → Reach size n s → (t : ℕ) → t < n → Step size s t s' → Reach size n s'
