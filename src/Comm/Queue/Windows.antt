-- ===== src/Comm/Queue/Windows.antt =====
-- The messages of a queue of 2 ^ k slots as a window that goes round, and what `enqueue` and `receive` do to it.
use native.Mathlib.Nat.{mod-eq_of_lt, mod-eq-sub-mod, mod-add-mod, mod-lt}
use jiajia.Prelude.{
  ℕ, zero, suc, ◌+◌, ◌-◌, ◌%◌, ◌^◌, ◌<◌, ◌≡◌, refl, ap, ap₂, ◌∙◌, ◌≢◌, some, List, [], ◌∷◌, ◌++◌,
  arith, update, update_self, update_ne, dec_lt, bit_and,
}
use jiajia.Prelude.Bits.{bit_and_mask}
use jiajia.Comm.Queue.{MsgQueue, next_index, enqueue, receive}

-- `held` slots are with their readers, between `receive` and `done`.
pub record IsValid {ℓ} {A : Type ℓ} (k held : ℕ) (q : MsgQueue A) : Type ℓ where
  pub few : 2 ^ k < 2 ^ 32
  pub power : q.size ≡ 2 ^ k
  pub head_in : q.head < q.size
  pub tail_lem : q.tail ≡ (q.head + q.busy_count) % q.size
  pub counted : q.busy_count + q.free_count + held ≡ q.size

-- One step from inside a window of `n` slots does not come back to its start.
pub add-mod-ne : (size h n : ℕ) → h < size → 0 < n → n < size → (h + n) % size ≢ h
add-mod-ne size h n hh pos hn = elim (dec_lt (h + n) size) [
  | yes p ↦ omega (arith, mod-eq_of_lt p)
  | no p ↦ omega (
    arith,
    mod-eq-sub-mod {n = h + n} {m = size} (omega arith),
    mod-eq_of_lt {n = h + n - size} {m = size} (omega arith),
  )
]

pub mask_step :
    (k i : ℕ)
    → 2 ^ k < 2 ^ 32
    → i < 2 ^ k
    → bit_and ((i + 1) % 2 ^ 32) (2 ^ k - 1) ≡ (i + 1) % 2 ^ k
mask_step k i few h =
    ap (λ t. bit_and t (2 ^ k - 1)) (mod-eq_of_lt {n = i + 1} {m = 2 ^ 32} (omega arith))
    ∙ bit_and_mask k (i + 1)

module _ {ℓ} {A : Type ℓ} where
  -- The n messages from index h on, going round at `size`.
  abbrev pub window : (ℕ → A) → ℕ → ℕ → ℕ → List A
  window f size h zero = []
  window f size h (suc n) = f h ∷ window f size ((h + 1) % size) n

  abbrev pub contents : MsgQueue A → List A
  contents q = window q.queue q.size q.head q.busy_count

  pub window_empty : (f : ℕ → A) (size h n : ℕ) → n ≡ 0 → window f size h n ≡ []
  window_empty f size h zero e = refl
  window_empty f size h (suc n) e = absurd (omega arith)

  pub window_pos :
      (f : ℕ → A) (size h n : ℕ)
      → n ≢ 0
      → window f size h n ≡ f h ∷ window f size ((h + 1) % size) (n - 1)
  window_pos f size h zero e = absurd (e refl)
  window_pos f size h (suc n) e = ap (λ j. f h ∷ window f size ((h + 1) % size) j) (omega arith)

  pub next_index_lem :
      {k held : ℕ} {q : MsgQueue A}
      → IsValid k held q
      → (i : ℕ) → i < q.size
      → next_index q i ≡ (i + 1) % q.size
  next_index_lem {k} v i h = rw v.power (mask_step k i v.few (rw v.power at h))

  pub window-update :
      (f : ℕ → A) (size h n i : ℕ) (m : A)
      → h < size
      → n < size
      → i ≡ (h + n) % size
      → window (update f i m) size h (suc n) ≡ window f size h n ++ (m ∷ [])
  window-update f size h zero i m hh hn e =
      let here : i ≡ h = omega (arith, e, mod-eq_of_lt {n = h + 0} {m = size} (omega arith)) in
      ap (λ x. x ∷ []) (rw here (update_self f h m))
  window-update f size h (suc n) i m hh hn e =
      ap₂ ◌∷◌ (update_ne f i m h (λ q. add-mod-ne size h (suc n) hh (omega arith) hn (omega arith)))
        (window-update f size ((h + 1) % size) n i m (mod-lt (h + 1) (omega arith)) (omega arith)
          (e ∙ shift))
    where
      shift : (h + suc n) % size ≡ ((h + 1) % size + n) % size
      shift = rw mod-add-mod (ap (λ t. t % size) (omega arith))

  -- The queue after an `enqueue` that does not block, and after a `receive`.
  abbrev pub enqueued : MsgQueue A → A → MsgQueue A
  enqueued q m = record q {
    queue = update q.queue q.tail m;
    tail = next_index q q.tail;
    busy_count = q.busy_count + 1;
    free_count = q.free_count - 1;
  }

  abbrev pub received : MsgQueue A → MsgQueue A
  received q = record q { head = next_index q q.head; busy_count = q.busy_count - 1 }

  pub enqueue_inv :
      (q r : MsgQueue A) (m : A) → enqueue q m ≡ some r → (0 < q.free_count) × (enqueued q m ≡ r)
  unfolding enqueue
  enqueue_inv q r m e = ground arith

  pub receive_inv :
      (q r : MsgQueue A) (i : ℕ)
      → receive q ≡ some (i, r)
      → (0 < q.busy_count) × (q.head ≡ i) × (received q ≡ r)
  unfolding receive
  receive_inv q r i e = ground arith

  module _ {k held : ℕ} {q : MsgQueue A} (v : IsValid k held q) where
    pub tail_in : q.tail < q.size
    tail_in = omega (arith, v.tail_lem, mod-lt (q.head + q.busy_count) {m = q.size} (omega arith))

    pub enqueued-IsValid : (m : A) → 0 < q.free_count → IsValid k held (enqueued q m)
    enqueued-IsValid m room = record {
      few = v.few;
      power = v.power;
      head_in = v.head_in;
      tail_lem = next_index_lem v q.tail tail_in ∙ shift;
      counted = omega arith;
    }
      where
        shift : (q.tail + 1) % q.size ≡ (q.head + (q.busy_count + 1)) % q.size
        shift = rw (v.tail_lem, mod-add-mod) (ap (λ t. t % q.size) (omega arith))

    pub received-IsValid : 0 < q.busy_count → IsValid k (suc held) (received q)
    received-IsValid left = record {
      few = v.few;
      power = v.power;
      head_in =
          rw (next_index_lem v q.head v.head_in) (mod-lt (q.head + 1) {m = q.size} (omega arith));
      tail_lem = v.tail_lem ∙ shift;
      counted = omega arith;
    }
      where
        shift :
            (q.head + q.busy_count) % q.size ≡ (next_index q q.head + (q.busy_count - 1)) % q.size
        shift =
            rw (next_index_lem v q.head v.head_in, mod-add-mod) (ap (λ t. t % q.size) (omega arith))
