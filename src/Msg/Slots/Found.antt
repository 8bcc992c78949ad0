-- ===== src/Msg/Slots/Found.antt =====
-- No two threads have the same slot, and `freemsg_lock` finds one unless a call has failed: the
-- invariants over the threads.
use jiajia.Prelude.{
  ℕ, zero, suc, ◌+◌, ◌-◌, ◌≤◌, ◌<◌, ◌≡◌, ◌≢◌, refl, sym, ap, ◌∙◌, true, false, arith, if◌then◌else◌,
  ◌==◌, leb, update, Bool-cases, inl, inr, ℕ_discrete,
}
use jiajia.Msg.Slots.{
  Pc, idle, scanning, holding, posting, failed, Buffer, Step, wait, wait_fails, take, skip,
  skip_free, give_up, free, post, init_msg_buffer, Reach, start, next,
}
use jiajia.Msg.Slots.Counting.{sum_of, sum_of-zero, sum_of-update, sum_of-le, sum_of-lt_two}

-- A thread that has taken the semaphore's count, and one that is at slot k or behind it.
abbrev token : Pc → ℕ
token idle = 0
token (scanning i) = 1
token (holding i) = 1
token posting = 1
token failed = 1

abbrev from : ℕ → Pc → ℕ
from k idle = 0
from k (scanning i) = if leb k i then 1 else 0
from k (holding i) = if leb k i then 1 else 0
from k posting = 0
from k failed = 1

from-le-token : (k : ℕ) (p : Pc) → from k p ≤ token p
from-le-token k idle = omega arith
from-le-token k (scanning i) = ground arith
from-le-token k (holding i) = ground arith
from-le-token k posting = omega arith
from-le-token k failed = omega arith

from_suc-le : (k : ℕ) (p : Pc) → from (suc k) p ≤ from k p
from_suc-le k idle = omega arith
from_suc-le k (scanning i) = ground arith
from_suc-le k (holding i) = ground arith
from_suc-le k posting = omega arith
from_suc-le k failed = omega arith

-- Behind slot k there are no more threads than slots.
record Inv (size n : ℕ) (s : Buffer) : Type 0 where
  tokens : s.count + sum_of token n s.pc ≡ size
  room : (k : ℕ) → k ≤ size → sum_of (from k) n s.pc + k ≤ size
  held : (t i : ℕ) → s.pc t ≡ holding i → s.busy i ≡ true
  owner : (i : ℕ) → s.busy i ≡ true → (t : ℕ) × (t < n) × (s.pc t ≡ holding i)
  unique : (t u i : ℕ) → s.pc t ≡ holding i → s.pc u ≡ holding i → t ≡ u
  found : (t : ℕ) → s.pc t ≢ failed

module _ (size n : ℕ) {s : Buffer} (inv : Inv size n s) (t : ℕ) (lt : t < n) where
  -- The count after a move of thread t.
  moves :
      (w : Pc → ℕ) (p q : Pc)
      → s.pc t ≡ p
      → sum_of w n (update s.pc t q) + w p ≡ sum_of w n s.pc + w q
  moves w p q e =
      ap (λ r. sum_of w n (update s.pc t q) + w r) (sym e) ∙ sum_of-update w n s.pc t q lt

  -- A move that counts no more anywhere needs no room.
  moves-room :
      (p q : Pc)
      → s.pc t ≡ p
      → ((k : ℕ) → from k q ≤ from k p)
      → (k : ℕ) → k ≤ size
      → sum_of (from k) n (update s.pc t q) + k ≤ size
  moves-room p q e less k le = omega (arith, moves (from k) p q e, less k, inv.room k le)

  wait-room :
      s.pc t ≡ idle
      → 0 < s.count
      → (k : ℕ) → k ≤ size
      → sum_of (from k) n (update s.pc t (scanning 0)) + k ≤ size
  wait-room e pos zero le = omega (
    arith,
    moves (from 0) idle (scanning 0) e,
    sum_of-le (from 0) token n s.pc (from-le-token 0),
    inv.tokens,
  )
  wait-room e pos (suc k) le =
      ground (arith, moves (from (suc k)) idle (scanning 0) e, inv.room (suc k) le)

  skip-room :
      (i : ℕ)
      → s.pc t ≡ scanning i
      → i < size
      → s.busy i ≡ true
      → (k : ℕ) → k ≤ size
      → sum_of (from k) n (update s.pc t (scanning (suc i))) + k ≤ size
  skip-room i e lt' full k le = elim (ℕ_discrete k (suc i)) [
    | no other ↦ ground (arith, moves (from k) (scanning i) (scanning (suc i)) e, inv.room k le)
    | yes here ↦
        let (u, lu, eu) = inv.owner i full in
        let apart : t ≢ u = λ same. cc in
        let two =
          sum_of-lt_two (from (suc i)) (from i) n s.pc t u (from_suc-le i) lt lu apart
            (rw e (ground arith)) (rw eu (ground arith)) in
        rw here (
          ground (
            arith,
            moves (from (suc i)) (scanning i) (scanning (suc i)) e,
            two,
            inv.room i (omega arith),
          ))
  ]

  give_up-absurd : s.pc t ≡ scanning size → ⊥
  give_up-absurd e =
      absurd (ground (arith, moves (from size) (scanning size) idle e, inv.room size (omega arith)))

  counted :
      (p q : Pc) (c : ℕ)
      → s.pc t ≡ p
      → c + token q ≡ s.count + token p
      → c + sum_of token n (update s.pc t q) ≡ size
  counted p q c e balance = omega (arith, moves token p q e, inv.tokens)

  -- A move between states without a slot.
  plain :
      (p q : Pc) (c : ℕ)
      → s.pc t ≡ p
      → ((i : ℕ) → p ≢ holding i)
      → ((i : ℕ) → q ≢ holding i)
      → q ≢ failed
      → c + token q ≡ s.count + token p
      → ((k : ℕ) → k ≤ size → sum_of (from k) n (update s.pc t q) + k ≤ size)
      → Inv size n (record s { count = c; pc = update s.pc t q })
  plain p q c e was away fine balance room = record {
    tokens = counted p q c e balance;
    room = room;
    held = λ u i h. ground (arith, inv.held u i, away i);
    owner = λ i full. let (u, lu, eu) = inv.owner i full in (u, lu, ground (arith, was i));
    unique = λ u v i h h'. ground (arith, inv.unique u v i, away i);
    found = λ u h. ground (arith, inv.found u);
  }

  taken :
      (i : ℕ)
      → s.pc t ≡ scanning i
      → s.busy i ≡ false
      → Inv size n (record s { busy = update s.busy i true; pc = update s.pc t (holding i) })
  taken i e clear = record {
    tokens = counted (scanning i) (holding i) s.count e refl;
    room = moves-room (scanning i) (holding i) e (λ k. omega arith);
    held = λ u j h. ground (arith, inv.held u j);
    owner = λ j full. elim (Bool-cases (j == i)) [
      | inl same ↦ (t, lt, ground arith)
      | inr other ↦ let (u, lu, eu) = inv.owner j (ground arith) in (u, lu, ground arith)
    ];
    unique = λ u v j h h'. ground (arith, inv.unique u v j, inv.held u j, inv.held v j);
    found = λ u h. ground (arith, inv.found u);
  }

  freed :
      (i : ℕ)
      → s.pc t ≡ holding i
      → Inv size n (record s { busy = update s.busy i false; pc = update s.pc t posting })
  freed i e = record {
    tokens = counted (holding i) posting s.count e refl;
    room = moves-room (holding i) posting e (λ k. omega arith);
    held = λ u j h. ground (arith, inv.held u j, inv.unique u t i);
    owner = λ j full. let (u, lu, eu) = inv.owner j (ground arith) in (u, lu, ground arith);
    unique = λ u v j h h'. ground (arith, inv.unique u v j);
    found = λ u h. ground (arith, inv.found u);
  }

  Step-Inv : {s' : Buffer} → Step size s t s' → s'.faults ≡ 0 → Inv size n s'
  Step-Inv (wait e pos) none_ =
      plain idle (scanning 0) (s.count - 1) e (λ i. cc) (λ i. cc) (cc) (omega arith)
        (wait-room e pos)
  Step-Inv (wait_fails e) none_ = absurd (omega arith)
  Step-Inv (skip_free i e inside clear) none_ = absurd (omega arith)
  Step-Inv (take i e inside clear) none_ = taken i e clear
  Step-Inv (skip i e inside full) none_ =
      plain (scanning i) (scanning (suc i)) s.count e (λ j. cc) (λ j. cc) (cc) refl
        (skip-room i e inside full)
  Step-Inv (give_up e) none_ = absurd (give_up-absurd e)
  Step-Inv (free i e) none_ = freed i e
  Step-Inv (post e) none_ =
      plain posting idle (s.count + 1) e (λ i. cc) (λ i. cc) (cc) (omega arith)
        (moves-room posting idle e (λ k. omega arith))

init-Inv : (size n : ℕ) → Inv size n (init_msg_buffer size)
init-Inv size n = record {
  tokens = omega (arith, sum_of-zero token n idle refl);
  room = λ k le. omega (arith, sum_of-zero (from k) n idle refl);
  held = λ t i h. cc;
  owner = λ i h. cc;
  unique = λ t u i h h'. cc;
  found = λ t h. cc;
}

Step-faults :
    {size : ℕ} {s : Buffer} {t : ℕ} {s' : Buffer} → Step size s t s' → s'.faults ≡ 0 → s.faults ≡ 0
Step-faults (wait e pos) none_ = none_
Step-faults (wait_fails e) none_ = absurd (omega arith)
Step-faults (take i e inside clear) none_ = none_
Step-faults (skip i e inside full) none_ = none_
Step-faults (skip_free i e inside clear) none_ = absurd (omega arith)
Step-faults (give_up e) none_ = none_
Step-faults (free i e) none_ = none_
Step-faults (post e) none_ = none_

Reach-Inv : {size n : ℕ} {s : Buffer} → Reach size n s → s.faults ≡ 0 → Inv size n s
Reach-Inv {size} {n} start none_ = init-Inv size n
Reach-Inv {size} {n} (next r t lt st) none_ =
    Step-Inv size n (Reach-Inv r (Step-faults st none_)) t lt st none_

-- What holds of the slots whatever fails.
record Owned (s : Buffer) : Type 0 where
  held : (t i : ℕ) → s.pc t ≡ holding i → s.busy i ≡ true
  unique : (t u i : ℕ) → s.pc t ≡ holding i → s.pc u ≡ holding i → t ≡ u

-- A thread moves to a place without a slot.
plain-Owned :
    (s : Buffer) (t : ℕ) (q : Pc) (count faults : ℕ)
    → ((i : ℕ) → q ≢ holding i)
    → Owned s
    → Owned (record s { count = count; pc = update s.pc t q; faults = faults })
plain-Owned s t q count faults away o = record {
  held = λ u i h. ground (arith, o.held u i, away i);
  unique = λ u v i h h'. ground (arith, o.unique u v i, away i);
}

Step-Owned : {size : ℕ} {s : Buffer} {t : ℕ} {s' : Buffer} → Step size s t s' → Owned s → Owned s'
Step-Owned {s = s} {t = t} (wait e pos) o = plain-Owned s t (scanning 0) _ s.faults (λ i. cc) o
Step-Owned {s = s} {t = t} (wait_fails e) o = plain-Owned s t failed s.count _ (λ i. cc) o
Step-Owned {s = s} {t = t} (take i e inside clear) o = record {
  held = λ u j h. ground (arith, o.held u j);
  unique = λ u v j h h'. ground (arith, o.unique u v j, o.held u j, o.held v j);
}
Step-Owned {s = s} {t = t} (skip i e inside full) o =
    plain-Owned s t (scanning (suc i)) s.count s.faults (λ j. cc) o
Step-Owned {s = s} {t = t} (skip_free i e inside clear) o =
    plain-Owned s t (scanning (suc i)) s.count _ (λ j. cc) o
Step-Owned {s = s} {t = t} (give_up e) o = plain-Owned s t failed s.count s.faults (λ i. cc) o
Step-Owned {s = s} {t = t} (free i e) o = record {
  held = λ u j h. ground (arith, o.held u j, o.unique u t i);
  unique = λ u v j h h'. ground (arith, o.unique u v j);
}
Step-Owned {s = s} {t = t} (post e) o = plain-Owned s t idle _ s.faults (λ i. cc) o

Reach-Owned : {size n : ℕ} {s : Buffer} → Reach size n s → Owned s
Reach-Owned start = record { held = λ t i h. cc; unique = λ t u i h h'. cc }
Reach-Owned (next r t lt st) = Step-Owned st (Reach-Owned r)

-- Whatever the threads do in turn, and whatever fails, no two of them hold the same slot. And as long as
-- no `sem_wait` and no compare-and-exchange on a free slot has failed, of any thread, none comes out of
-- `freemsg_lock` with NULL: the loop finds a free slot, though it looks at each once and others take and
-- free slots meanwhile.
pub freemsg_lock_safe :
    {size n : ℕ} {s : Buffer}
    → Reach size n s
    → ((t u i : ℕ) → s.pc t ≡ holding i → s.pc u ≡ holding i → t ≡ u)
      × (s.faults ≡ 0 → (t : ℕ) → s.pc t ≢ failed)
freemsg_lock_safe r = ((Reach-Owned r).unique, λ none_. (Reach-Inv r none_).found)
