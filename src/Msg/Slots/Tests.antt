-- ===== src/Msg/Slots/Tests.antt =====
-- Two threads and two slots: the second thread passes the first one's slot.
use jiajia.Prelude.{ℕ, ◌≡◌, ◌≢◌, refl, true, false, arith, update}
use jiajia.Msg.Slots.{
  idle, scanning, holding, failed, Buffer, wait, take, skip, skip_free, give_up, Reach, start, next,
}
use jiajia.Msg.Slots.Found.{freemsg_lock_safe}

abbrev waiting_0 : Buffer
waiting_0 = record {
  busy = λ i. false;
  count = 1;
  pc = update (λ t. idle) 0 (scanning 0);
  faults = 0;
}

abbrev one_slot : Buffer
one_slot = record waiting_0 {
  busy = update (λ i. false) 0 true;
  pc = update waiting_0.pc 0 (holding 0);
}

abbrev waiting_1 : Buffer
waiting_1 = record one_slot { count = 0; pc = update one_slot.pc 1 (scanning 0) }

abbrev passing : Buffer
passing = record waiting_1 { pc = update waiting_1.pc 1 (scanning 1) }

abbrev both : Buffer
both = record passing { busy = update passing.busy 1 true; pc = update passing.pc 1 (holding 1) }

both-Reach : Reach 2 2 both
both-Reach =
    next
      (next
        (next
          (next (next start 0 (omega arith) (wait refl (omega arith))) 0 (omega arith)
            (take 0 refl (omega arith) refl))
          1 (omega arith) (wait refl (omega arith)))
        1 (omega arith) (skip 0 refl (omega arith) refl))
      1 (omega arith) (take 1 refl (omega arith) refl)

freemsg_lock_safe_example :
    ((t u i : ℕ) → both.pc t ≡ holding i → both.pc u ≡ holding i → t ≡ u)
    × (both.faults ≡ 0 → (t : ℕ) → both.pc t ≢ failed)
freemsg_lock_safe_example = freemsg_lock_safe both-Reach

-- The exchange on the only slot fails, and the thread gets NULL.
one_fault : (s : Buffer) × Reach 1 1 s × (s.pc 0 ≡ failed)
one_fault = (
  _,
  next
      (next (next start 0 (omega arith) (wait refl (omega arith))) 0 (omega arith)
        (skip_free 0 refl (omega arith) refl))
      0 (omega arith) (give_up refl),
  refl,
)
