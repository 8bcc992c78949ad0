-- ===== src/Load/Divide.antt =====
-- The parts of the hosts cover every iteration, once.
use native.Mathlib.Nat.{div-add-mod'}
use jiajia.Prelude.{
  ℕ, zero, suc, ◌+◌, ◌-◌, ◌*◌, ◌/◌, ◌≤◌, ◌<◌, ◌≡◌, ◌↔◌, refl, Bool, true, false, if◌then◌else◌,
  ◌==◌, arith, dec_lt, Bool-cases, inl, inr,
}
use jiajia.Load.{Range, Shares, balanced, jia_divtask}

abbrev pub Has : Range → ℕ → Type 0
Has r x = (r.first ≤ x) × (x < r.stop)

-- The hosts' parts are the steps between bounds that grow from the first iteration to the last.
record Bounds (n : ℕ) (part : ℕ → Range) (whole : Range) : Type 0 where
  bound : ℕ → ℕ
  starts : bound 0 ≡ whole.first
  ends : bound n ≡ whole.stop
  grows : (i : ℕ) → i < n → bound i ≤ bound (suc i)
  cut_first : (i : ℕ) → i < n → (part i).first ≡ bound i
  cut_stop : (i : ℕ) → i < n → (part i).stop ≡ bound (suc i)

module _ (bound : ℕ → ℕ) (n : ℕ) (grows : (i : ℕ) → i < n → bound i ≤ bound (suc i)) where
  bound-le : (k i : ℕ) → i + k ≤ n → bound i ≤ bound (i + k)
  bound-le zero i le = let e : i + 0 ≡ i = omega arith in rw e (omega arith)
  bound-le (suc k) i le =
      let e : i + suc k ≡ suc (i + k) = omega arith in
      rw e (omega (arith, bound-le k i (omega arith), grows (i + k) (omega arith)))

  bound_mono : (i j : ℕ) → i ≤ j → j ≤ n → bound i ≤ bound j
  bound_mono i j le top =
      let e : i + (j - i) ≡ j = omega arith in rw e at (bound-le (j - i) i (omega arith))

  -- The step that x falls into.
  step_of :
      (m x : ℕ)
      → m ≤ n
      → bound 0 ≤ x
      → x < bound m
      → (i : ℕ) × (i < m) × (bound i ≤ x) × (x < bound (suc i))
  step_of zero x le lo hi = absurd (omega arith)
  step_of (suc m) x le lo hi = elim (dec_lt x (bound m)) [
    | yes below ↦ let (i, lt, a, b) = step_of m x (omega arith) lo below in (i, omega arith, a, b)
    | no above ↦ (m, omega arith, omega arith, hi)
  ]

  same_step :
      (x i j : ℕ)
      → i < n
      → j < n
      → bound i ≤ x
      → x < bound (suc i)
      → bound j ≤ x
      → x < bound (suc j)
      → i ≡ j
  same_step x i j hi hj a b c d = elim (dec_lt i j) [
    | yes lt ↦ absurd (omega (arith, bound_mono (suc i) j (omega arith) (omega arith)))
    | no ge ↦ elim (dec_lt j i) [
      | yes lt ↦ absurd (omega (arith, bound_mono (suc j) i (omega arith) (omega arith)))
      | no ge' ↦ omega arith
    ]
  ]

-- Every iteration of the whole in one part, and nothing else in any.
abbrev pub Partitions : ℕ → (ℕ → Range) → Range → ℕ → Type 0
Partitions n part whole x =
    (Has whole x ↔ ((i : ℕ) × (i < n) × Has (part i) x))
    × ((i j : ℕ) → i < n → j < n → Has (part i) x → Has (part j) x → i ≡ j)

Bounds-Partitions :
    (n : ℕ) (part : ℕ → Range) (whole : Range) (x : ℕ)
    → Bounds n part whole
    → Partitions n part whole x
Bounds-Partitions n part whole x b = (
  (
    λ (lo, hi).
        let (i, lt, p, q) =
          step_of b.bound n b.grows n x (omega arith) (omega (arith, b.starts))
            (omega (arith, b.ends)) in
        (i, lt, (omega (arith, b.cut_first i lt), omega (arith, b.cut_stop i lt))),
    λ (i, lt, (lo, hi)). (
      omega (
        arith,
        b.starts,
        b.cut_first i lt,
        bound_mono b.bound n b.grows 0 i (omega arith) (omega arith),
      ),
      omega (
        arith,
        b.ends,
        b.cut_stop i lt,
        bound_mono b.bound n b.grows (suc i) n (omega arith) (omega arith),
      ),
    ),
  ),
  λ i j hi hj (p, q) (r, s).
      same_step b.bound n b.grows x i j hi hj (omega (arith, b.cut_first i hi))
        (omega (arith, b.cut_stop i hi)) (omega (arith, b.cut_first j hj))
        (omega (arith, b.cut_stop j hj)),
)

-- Growing bounds of which the last is the end of the whole.
capped :
    (n : ℕ) (part : ℕ → Range) (whole : Range) (f : ℕ → ℕ)
    → 0 < n
    → f 0 ≡ whole.first
    → ((i : ℕ) → f i ≤ f (suc i))
    → f (n - 1) ≤ whole.stop
    → ((i : ℕ) → i < n → (part i).first ≡ f i)
    → ((i : ℕ) → i < n → (part i).stop ≡ (if i == n - 1 then whole.stop else f (suc i)))
    → Bounds n part whole
capped n part whole f pos start up below firsts stops = record {
  bound = λ i. if i == n then whole.stop else f i;
  starts = rw (go 0 pos, start);
  ends = ground arith;
  grows = λ i lt. rw (go i lt) (elim (dec_lt (suc i) n) [
    | yes more ↦ rw (go (suc i) more) (up i)
    | no last ↦
        let e : i ≡ n - 1 = omega arith in
        let e' : suc i == n ≡ true = ground arith in rw e' (rw e below)
  ]);
  cut_first = λ i lt. rw (go i lt) (firsts i lt);
  cut_stop = λ i lt. elim (dec_lt (suc i) n) [
    | yes more ↦ let e : i == n - 1 ≡ false = ground arith in rw (go (suc i) more, stops i lt, e)
    | no last ↦
        let e : i == n - 1 ≡ true = ground arith in
        let e' : suc i == n ≡ true = ground arith in rw (e', stops i lt, e)
  ];
}
  where
    go : (i : ℕ) → i < n → (i == n) ≡ false
    go i lt = ground arith

module _ (first : ℕ) where
  equal-step : (q i : ℕ) → first + q * i + q ≡ first + q * suc i
  equal-step q i = grind arith

  equal-up : (q i : ℕ) → first + q * i ≤ first + q * suc i
  equal-up q i = omega (arith, equal-step q i)

  equal-below :
      (stop : ℕ) → first ≤ stop → (n : ℕ) → 0 < n → first + (stop - first) / n * (n - 1) ≤ stop
  equal-below stop le zero pos = absurd (omega arith)
  equal-below stop le (suc m) pos =
      let q = (stop - first) / suc m in
      let e : suc m - 1 ≡ m = omega arith in
      let all : first + q * m + q ≡ first + q * suc m = equal-step q m in
      rw e (omega (arith, all, div-add-mod' (stop - first) (suc m)))

module _ (shares : Shares) (more : (i first : ℕ) → first ≤ shares i first) (whole : Range)
    (ordered : whole.first ≤ whole.stop) where
  balanced-within :
      (i : ℕ)
      → ((balanced shares whole i).first ≤ (balanced shares whole i).stop)
        × ((balanced shares whole i).stop ≤ whole.stop)
  unfolding balanced
  balanced-within zero = omega (arith, more 0 whole.first, ordered)
  balanced-within (suc i) =
      let (a, b) = balanced-within i in
      omega (arith, more (suc i) (balanced shares whole i).stop, b)

  balanced_bound : ℕ → ℕ
  balanced_bound zero = whole.first
  balanced_bound (suc i) = (balanced shares whole i).stop

  balanced-first : (i : ℕ) → (balanced shares whole i).first ≡ balanced_bound i
  unfolding balanced balanced_bound
  balanced-first zero = refl
  balanced-first (suc i) = refl

  balanced_bound-up : (i : ℕ) → balanced_bound i ≤ balanced_bound (suc i)
  unfolding balanced_bound
  balanced_bound-up i = omega (arith, balanced-first i, balanced-within i)

  balanced_bound-below : (i : ℕ) → balanced_bound i ≤ whole.stop
  unfolding balanced_bound
  balanced_bound-below zero = ordered
  balanced_bound-below (suc i) = omega (arith, balanced-within i)

  jia_divtask-Bounds :
      (load_bal : Bool) (hostc : ℕ)
      → 0 < hostc
      → Bounds hostc (λ pid. jia_divtask load_bal shares hostc pid whole) whole
  unfolding jia_divtask balanced_bound
  jia_divtask-Bounds load_bal hostc pos = elim (Bool-cases (hostc == 1)) [
    | inl e ↦
        let one : hostc ≡ 1 = ground arith in
        capped hostc _ whole (λ i. whole.first) pos refl (λ i. omega arith) ordered (λ i lt. rw e)
          (λ i lt. let last : i == hostc - 1 ≡ true = ground arith in rw (e, last))
    | inr e ↦ elim (Bool-cases load_bal) [
      | inl b ↦
          capped hostc _ whole balanced_bound pos refl balanced_bound-up
            (balanced_bound-below (hostc - 1)) (λ i lt. rw (e, b, balanced-first i))
            (λ i lt. rw (e, b))
      | inr b ↦
          let q = (whole.stop - whole.first) / hostc in
          capped hostc _ whole (λ i. whole.first + q * i) pos (omega arith)
            (λ i. equal-up whole.first q i) (equal-below whole.first whole.stop ordered hostc pos)
            (λ i lt. rw (e, b)) (λ i lt. rw (e, b, equal-step whole.first q i))
    ]
  ]

-- What `jia_divtask` gives the hosts covers each iteration of the loop and no other, and no two hosts
-- have an iteration both. With LOAD_BAL the condition is that no host has a negative share.
pub jia_divtask_partition :
    (load_bal : Bool) (shares : Shares) (hostc : ℕ) (whole : Range) (x : ℕ)
    → 0 < hostc
    → whole.first ≤ whole.stop
    → ((i first : ℕ) → first ≤ shares i first)
    → Partitions hostc (λ pid. jia_divtask load_bal shares hostc pid whole) whole x
jia_divtask_partition load_bal shares hostc whole x pos ordered more =
    Bounds-Partitions hostc _ whole x
      (jia_divtask-Bounds shares more whole ordered load_bal hostc pos)
