-- ===== src/Syn/Server/Queue.antt =====
-- The queue of a lock: `acqserver` and `relserver` of src/syn/synserver.c against a list of requests.
use jiajia.Prelude.{
  ℕ, zero, suc, ◌+◌, ◌-◌, ◌<◌, ◌%◌, ◌^◌, ◌≡◌, refl, ap, ap₂, ◌∙◌, arith, true, false, Option, none,
  some, List, [], ◌∷◌, ◌++◌, if◌then◌else◌, ◌==◌, ltb, lt→ltb, update, update_self, update_ne,
  first, first_snoc, first_ext,
}
use jiajia.Msg.Types.{acq, rel, JiaMsg}
use jiajia.Constants.{hidelock}
use jiajia.Syn.Server.{
  JiaLock, SynState, Call, grantlock, Outcome, set_lock, is_for, subject, shift, grant_first,
  record_notices, acqserver, relserver,
}

-- What a lock promises: the hosts that asked for it, with their scopes, are served in their order,
-- and the first one holds it.
abbrev pub requests : JiaLock → List (ℕ × ℕ)
requests l = first (λ i. (l.acqs i, l.acqscope i)) l.acqc

abbrev pub grant_head : ℕ → List (ℕ × ℕ) → List Call
grant_head lock [] = []
grant_head lock (p ∷ ps) = grantlock lock p.0 p.1 ∷ []

abbrev pub grant_alone : ℕ → List (ℕ × ℕ) → ℕ × ℕ → List Call
grant_alone lock [] p = grantlock lock p.0 p.1 ∷ []
grant_alone lock (_ ∷ _) p = []

-- An outcome seen as the queue and the calls.
abbrev pub queue_of : ℕ → Outcome → Option (List (ℕ × ℕ) × List Call)
queue_of lock none = none
queue_of lock (some o) = some (requests (o.0.locks lock), o.1)

queue_of-set :
    (s : SynState) (lock : ℕ) (l : JiaLock) (calls : List Call)
    → queue_of lock (some (set_lock s lock l, calls)) ≡ some (requests l, calls)
queue_of-set s lock l calls = ap (λ v. some (requests v, calls)) (update_self s.locks lock l)

requests-update :
    (a b : ℕ → ℕ) (n x y : ℕ)
    → first {A = ℕ × ℕ} (λ i. (update a n x i, update b n y i)) (n + 1)
      ≡ first (λ i. (a i, b i)) n ++ ((x, y) ∷ [])
requests-update a b n x y =
    let e : n + 1 ≡ suc n = omega arith in
    let f : ℕ → ℕ × ℕ = λ i. (update a n x i, update b n y i) in
    let g : ℕ → ℕ × ℕ = λ i. (a i, b i) in
    ap (first f) e
    ∙ first_snoc f n
    ∙ ap₂ (λ xs p. xs ++ (p ∷ []))
        (first_ext f g n (λ i lt.
          ap₂ (λ v w. (v, w)) (update_ne a n x i (omega arith)) (update_ne b n y i (omega arith))))
        (ap₂ (λ v w. (v, w)) (update_self a n x) (update_self b n y))

grants_alone :
    (lock n x y : ℕ) (a b : ℕ → ℕ) (l : JiaLock)
    → (n ≡ 0 → l.acqs 0 ≡ x)
    → (n ≡ 0 → l.acqscope 0 ≡ y)
    → grant_first lock l (n + 1 == 1) ≡ grant_alone lock (first (λ i. (a i, b i)) n) (x, y)
unfolding grant_first
grants_alone lock zero x y a b l hx hy = ap₂ (λ v w. grantlock lock v w ∷ []) (hx refl) (hy refl)
grants_alone lock (suc n) x y a b l hx hy =
    let e : (suc n + 1 == 1) ≡ false = ground arith in ap (grant_first lock l) e

at_front : (f : ℕ → ℕ) (n x : ℕ) → n ≡ 0 → update f n x 0 ≡ x
at_front f n x e = ground arith

-- At the lock's home, `acqserver` puts the request of an ACQ behind the others, and grants it if
-- there are none.
pub acqserver_queues :
    (jia_pid hostc : ℕ) (s : SynState) (req : JiaMsg)
    → is_for req acq jia_pid ≡ true
    → (subject req % hostc == jia_pid) ≡ true
    → (let waiting = requests (s.locks (subject req)) in
        queue_of (subject req) (acqserver jia_pid hostc s req)
        ≡ some (
          waiting ++ ((req.frompid, req.scope) ∷ []),
          grant_alone (subject req) waiting (req.frompid, req.scope),
        ))
unfolding acqserver
acqserver_queues jia_pid hostc s req mine home =
    let l = s.locks (subject req) in
    let new : JiaLock = record l {
      acqs = update l.acqs l.acqc req.frompid;
      acqscope = update l.acqscope l.acqc req.scope;
      acqc = l.acqc + 1;
    } in
    rw (mine, home)
      (queue_of-set s (subject req) _ _
        ∙ ap₂ (λ q cs. some (q, cs))
            (requests-update l.acqs l.acqscope l.acqc req.frompid req.scope)
            (grants_alone (subject req) l.acqc req.frompid req.scope l.acqs l.acqscope new
              (at_front l.acqs l.acqc req.frompid) (at_front l.acqscope l.acqc req.scope)))

first-shift :
    (a b : ℕ → ℕ) (n m : ℕ) (rest : List (ℕ × ℕ))
    → n ≡ suc m
    → first (λ i. (a (suc i), b (suc i))) m ≡ rest
    → first {A = ℕ × ℕ} (λ i. (shift n a i, shift n b i)) (n - 1) ≡ rest
first-shift a b n m rest count e =
    let f : ℕ → ℕ × ℕ = λ i. (shift n a i, shift n b i) in
    let g : ℕ → ℕ × ℕ = λ i. (a (suc i), b (suc i)) in
    let short : n - 1 ≡ m = omega arith in
    ap (first f) short
    ∙ first_ext f g m (λ i lt. ap₂ (λ v w. (v, w)) (moved a i lt) (moved b i lt))
    ∙ e
  where
    moved : (h : ℕ → ℕ) (i : ℕ) → i < m → shift n h i ≡ h (suc i)
    moved h i lt =
        let e : ltb i (n - 1) ≡ true = ground arith in
        let e' : i + 1 ≡ suc i = omega arith in rw e (ap h e')

head_host : List (ℕ × ℕ) → ℕ
head_host [] = 0
head_host (p ∷ _) = p.0

tail : List (ℕ × ℕ) → List (ℕ × ℕ)
tail [] = []
tail (_ ∷ ps) = ps

popped :
    (a b : ℕ → ℕ) (n p sc : ℕ) (rest : List (ℕ × ℕ))
    → first (λ i. (a i, b i)) n ≡ (p, sc) ∷ rest
    → (m : ℕ) × (n ≡ suc m) × (a 0 ≡ p) × (first (λ i. (a (suc i), b (suc i))) m ≡ rest)
unfolding head_host tail
popped a b zero p sc rest e = ground arith
popped a b (suc n) p sc rest e = (n, refl, ap head_host e, ap tail e)

grants_next :
    (lock n : ℕ) (l : JiaLock)
    → grant_first lock l (ltb 0 n) ≡ grant_head lock (first (λ i. (l.acqs i, l.acqscope i)) n)
unfolding grant_first
grants_next lock zero l = refl
grants_next lock (suc n) l = ap (grant_first lock l) (lt→ltb 0 (suc n) (omega arith))

-- At the lock's home, `relserver` takes the host that holds the lock off the queue on its REL, and
-- grants the lock to the next.
pub relserver_queues :
    (jia_pid hostc : ℕ) (s : SynState) (req : JiaMsg) (scope : ℕ) (waiting : List (ℕ × ℕ))
    → is_for req rel jia_pid ≡ true
    → (subject req % hostc == jia_pid) ≡ true
    → requests (s.locks (subject req)) ≡ (req.frompid, scope) ∷ waiting
    → queue_of (subject req) (relserver jia_pid hostc s req)
      ≡ some (waiting, grant_head (subject req) waiting)
unfolding relserver
relserver_queues jia_pid hostc s req scope waiting mine home held =
    let l = s.locks (subject req) in
    let (m, count, front, rest) = popped l.acqs l.acqscope l.acqc req.frompid scope waiting held in
    let owner : (req.frompid == l.acqs 0) ≡ true = ground arith in
    let new : JiaLock = record l {
      wtntp = record_notices s req;
      scope = (l.scope + 1) % 2 ^ 32;
      acqs = shift l.acqc l.acqs;
      acqscope = shift l.acqc l.acqscope;
      acqc = l.acqc - 1;
    } in
    let s' : SynState = record s {
      noclearlocks = if ltb (s.locks hidelock).myscope req.scope then 1 else s.noclearlocks;
    } in
    let left : requests new ≡ waiting = first-shift l.acqs l.acqscope l.acqc m waiting count rest in
    rw (mine, home, owner)
      (queue_of-set s' (subject req) new _
        ∙ ap₂ (λ q cs. some (q, cs)) left
            (grants_next (subject req) new.acqc new ∙ ap (grant_head (subject req)) left))
