-- ===== src/Syn/Mutex/Safety.antt =====
-- What the lock of src/syn promises to the hosts.
use jiajia.Prelude.{
  ℕ, ◌<◌, ◌≡◌, ◌≢◌, refl, ap, ◌∙◌, sym, arith, subst, true, Option, none, some, List, [], ◌∷◌, ◌%◌,
  ◌==◌, update, length-first, Bool-cases, inl, inr, ltb, ltb→lt,
}
use jiajia.Msg.Types.{rel, acq, JiaMsg}
use jiajia.Syn.Server.{SynState, Call, Outcome, is_for, subject, relserver, acqserver}
use jiajia.Syn.Server.Queue.{requests, queue_of, acqserver_queues, relserver_queues}
use jiajia.Syn.Mutex.{
  Pc, out, asked, queued, inside, leaving, granting, System, Step, ask, queue, enter, leave,
  release, elsewhere, Reach, start, next,
}
use jiajia.Syn.Mutex.Invariant.{Inv, holds, waits, Inv-move, Inv-queue, Inv-release, Inv-length}

-- A holder is the first of the queue.
first_of :
    (hostc : ℕ) (q : List (ℕ × ℕ)) (pc : ℕ → Pc) (p : ℕ)
    → Inv hostc q pc
    → holds (pc p) ≡ true
    → (sc : ℕ) × (rest : List (ℕ × ℕ)) × (q ≡ (p, sc) ∷ rest)
first_of hostc [] pc p inv h = ground (arith, h, inv.holder p)
first_of hostc ((p', sc) ∷ rest) pc p inv h =
    let e : p' ≡ p = ground (arith, h, inv.holder p) in (sc, rest, ap (λ k. (k, sc) ∷ rest) e)

Inv-below :
    (hostc : ℕ) (q : List (ℕ × ℕ)) (pc : ℕ → Pc) (p : ℕ) → Inv hostc q pc → pc p ≢ out → p < hostc
Inv-below hostc q pc p inv e = elim (Bool-cases (ltb p hostc)) [
  | inl lt ↦ ltb→lt p hostc lt
  | inr ge ↦ elim (e (inv.known p (ground arith))) [ ]
]

-- The invariant of a handler's queue and grants.
Served : ℕ → (ℕ → Pc) → Option (List (ℕ × ℕ) × List Call) → Type 0
Served hostc pc none = Unit
Served hostc pc (some o) = Inv hostc o.0 (granting o.1 pc)

queue_keeps :
    (home hostc : ℕ) (s s' : SynState) (pc : ℕ → Pc) (req : JiaMsg) (calls : List Call)
    → (subject req % hostc == home) ≡ true
    → is_for req acq home ≡ true
    → pc req.frompid ≡ asked
    → acqserver home hostc s req ≡ some (s', calls)
    → Inv hostc (requests (s.locks (subject req))) pc
    → Inv hostc (requests (s'.locks (subject req))) (granting calls (update pc req.frompid queued))
unfolding Served
queue_keeps home hostc s s' pc req calls at_home mine e run inv =
    subst (Served hostc (update pc req.frompid queued))
      (sym (acqserver_queues home hostc s req mine at_home) ∙ ap (queue_of (subject req)) run)
      (Inv-queue hostc (subject req) (requests (s.locks (subject req))) pc req.frompid req.scope inv
        (Inv-below hostc _ pc req.frompid inv (λ o. ground (arith, e, o))) e)

release_keeps :
    (home hostc : ℕ) (s s' : SynState) (pc : ℕ → Pc) (req : JiaMsg) (calls : List Call)
    → (subject req % hostc == home) ≡ true
    → is_for req rel home ≡ true
    → pc req.frompid ≡ leaving
    → relserver home hostc s req ≡ some (s', calls)
    → Inv hostc (requests (s.locks (subject req))) pc
    → Inv hostc (requests (s'.locks (subject req))) (granting calls (update pc req.frompid out))
unfolding Served
release_keeps home hostc s s' pc req calls at_home mine e run inv =
    let (sc, rest, held) = first_of hostc _ pc req.frompid inv (ap holds e) in
    subst (Served hostc (update pc req.frompid out))
      (sym (relserver_queues home hostc s req sc rest mine at_home held)
        ∙ ap (queue_of (subject req)) run)
      (Inv-release hostc (subject req) rest pc req.frompid sc
        (subst (λ q. Inv hostc q pc) held inv))

head_host : List (ℕ × ℕ) → ℕ
head_host [] = 0
head_host (p ∷ _) = p.0

accepted :
    (o : Outcome) (lock : ℕ) {v : List (ℕ × ℕ) × List Call}
    → queue_of lock o ≡ some v
    → (s' : SynState) × (calls : List Call) × (o ≡ some (s', calls))
accepted none lock e = ground arith
accepted (some (s', calls)) lock e = (s', calls, refl)

some_holder :
    (hostc : ℕ) (q : List (ℕ × ℕ)) (pc : ℕ → Pc) (p : ℕ)
    → Inv hostc q pc
    → pc p ≡ queued
    → (h : ℕ) × (holds (pc h) ≡ true)
some_holder hostc [] pc p inv e = ground (arith, ap waits e, inv.once p)
some_holder hostc (h ∷ q) pc p inv e = (h.0, inv.holder h.0 ∙ ground arith)

module _ (home hostc lock : ℕ) (at_home : (lock % hostc == home) ≡ true) where
  Holds : System → Type 0
  Holds x = Inv hostc (requests (x.0.locks lock)) x.1

  step_keeps : (x y : System) → Holds x → Step home hostc lock x y → Holds y
  unfolding Holds
  step_keeps x y inv (ask s pc p lt e) =
      Inv-move hostc _ pc inv p asked lt (sym (ap waits e)) (sym (ap holds e))
  step_keeps x y inv (queue s s' pc req calls mine on e run) =
      subst
        (λ k.
          Inv hostc (requests (s.locks k)) pc
          → Inv hostc (requests (s'.locks k)) (granting calls (update pc req.frompid queued)))
        on
        (queue_keeps home hostc s s' pc req calls
          (subst (λ k. (k % hostc == home) ≡ true) (sym on) at_home) mine e run)
        inv
  step_keeps x y inv (enter s pc p e) =
      Inv-move hostc _ pc inv p inside (Inv-below hostc _ pc p inv (λ o. ground (arith, e, o)))
        (sym (ap waits e)) (sym (ap holds e))
  step_keeps x y inv (leave s pc p e) =
      Inv-move hostc _ pc inv p leaving (Inv-below hostc _ pc p inv (λ o. ground (arith, e, o)))
        (sym (ap waits e)) (sym (ap holds e))
  step_keeps x y inv (release s s' pc req calls mine on e run) =
      subst
        (λ k.
          Inv hostc (requests (s.locks k)) pc
          → Inv hostc (requests (s'.locks k)) (granting calls (update pc req.frompid out)))
        on
        (release_keeps home hostc s s' pc req calls
          (subst (λ k. (k % hostc == home) ≡ true) (sym on) at_home) mine e run)
        inv
  step_keeps x y inv (elsewhere s s' pc e) = subst (λ q. Inv hostc q pc) (sym e) inv

  reach_keeps : (x : System) → Reach home hostc lock x → Holds x
  unfolding Holds
  reach_keeps x (start s e) =
      subst (λ q. Inv hostc q (λ p. out)) (sym e)
        (record { once = λ p. refl; holder = λ p. refl; known = λ p le. refl })
  reach_keeps y (next x _ r st) = step_keeps x y (reach_keeps x r) st

  -- Two hosts that are between the return of `jia_lock` and the REL of `jia_unlock` are the same, in
  -- every state that the hosts and the lock's home reach.
  pub lock_excludes :
      (x : System) (p q : ℕ) → Reach home hostc lock x → x.1 p ≡ inside → x.1 q ≡ inside → p ≡ q
  unfolding Holds head_host
  lock_excludes x p q r hp hq =
      let inv = reach_keeps x r in
      let (_, _, e) = first_of hostc _ x.1 p inv (ap holds hp) in
      let (_, _, e') = first_of hostc _ x.1 q inv (ap holds hq) in ap head_host (sym e ∙ e')

  -- The REL of a host that has left is accepted: the assertion that it is the first of the queue holds.
  pub release_accepted :
      (x : System) (req : JiaMsg)
      → Reach home hostc lock x
      → is_for req rel home ≡ true
      → subject req ≡ lock
      → x.1 req.frompid ≡ leaving
      → (s' : SynState) × (calls : List Call) × (relserver home hostc x.0 req ≡ some (s', calls))
  unfolding Holds
  release_accepted x req r mine on e =
      let (sc, rest, held) = first_of hostc _ x.1 req.frompid (reach_keeps x r) (ap holds e) in
      accepted _ _ (
        relserver_queues home hostc x.0 req sc rest mine
          (subst (λ k. (k % hostc == home) ≡ true) (sym on) at_home)
          (subst (λ k. requests (x.0.locks k) ≡ (req.frompid, sc) ∷ rest) (sym on) held))

  -- When an ACQ of a host reaches the home, fewer than hostc requests are in the lock's arrays, so
  -- that the entry it writes is inside them, if hostc is at most Maxhosts.
  pub queue_fits :
      (x : System) (p : ℕ) → Reach home hostc lock x → x.1 p ≡ asked → (x.0.locks lock).acqc < hostc
  unfolding Holds
  queue_fits x p r e =
      let inv = reach_keeps x r in
      subst (λ n. n < hostc) (length-first _ (x.0.locks lock).acqc)
        (Inv-length hostc _ x.1 p inv (Inv-below hostc _ x.1 p inv (λ o. ground (arith, e, o))) e)

  -- While a host waits in the queue, some host has the lock, or its grant is on the way: the lock is
  -- not idle, and no request is lost.
  pub queue_served :
      (x : System) (p : ℕ)
      → Reach home hostc lock x
      → x.1 p ≡ queued
      → (h : ℕ) × (holds (x.1 h) ≡ true)
  unfolding Holds
  queue_served x p r e = let inv = reach_keeps x r in some_holder hostc _ x.1 p inv e
