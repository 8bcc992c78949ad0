-- ===== src/Msg/Slots/Counting.antt =====
-- Sums over the first n threads.
use jiajia.Prelude.{ℕ, zero, suc, ◌+◌, ◌≤◌, ◌<◌, ◌≡◌, ◌≢◌, refl, arith, update, dec_lt, ℕ_discrete}

module _ {A : Type 0} where
  unfoldable pub sum_of : (A → ℕ) → ℕ → (ℕ → A) → ℕ
  sum_of w zero f = 0
  sum_of w (suc n) f = w (f n) + sum_of w n f

  pub sum_of-zero : (w : A → ℕ) (n : ℕ) (a : A) → w a ≡ 0 → sum_of w n (λ t. a) ≡ 0
  unfolding sum_of
  sum_of-zero w zero a e = refl
  sum_of-zero w (suc n) a e = omega (arith, e, sum_of-zero w n a e)

  sum_of-beyond :
      (w : A → ℕ) (n : ℕ) (f : ℕ → A) (t : ℕ) (a : A)
      → n ≤ t
      → sum_of w n (update f t a) ≡ sum_of w n f
  unfolding sum_of
  sum_of-beyond w zero f t a le = refl
  sum_of-beyond w (suc n) f t a le = ground (arith, sum_of-beyond w n f t a)

  -- One thread moves.
  pub sum_of-update :
      (w : A → ℕ) (n : ℕ) (f : ℕ → A) (t : ℕ) (a : A)
      → t < n
      → sum_of w n (update f t a) + w (f t) ≡ sum_of w n f + w a
  unfolding sum_of
  sum_of-update w zero f t a lt = absurd (omega arith)
  sum_of-update w (suc n) f t a lt = elim (dec_lt t n) [
    | yes below ↦ ground (arith, sum_of-update w n f t a below)
    | no top ↦ let last : t ≡ n = omega arith in rw last (ground (arith, sum_of-beyond w n f n a))
  ]

  pub sum_of-le :
      (w w' : A → ℕ) (n : ℕ) (f : ℕ → A) → ((a : A) → w a ≤ w' a) → sum_of w n f ≤ sum_of w' n f
  unfolding sum_of
  sum_of-le w w' zero f le = omega arith
  sum_of-le w w' (suc n) f le = omega (arith, le (f n), sum_of-le w w' n f le)

  -- A thread that counts for w' alone.
  pub sum_of-lt :
      (w w' : A → ℕ) (n : ℕ) (f : ℕ → A) (t : ℕ)
      → ((a : A) → w a ≤ w' a)
      → t < n
      → w (f t) + 1 ≤ w' (f t)
      → sum_of w n f + 1 ≤ sum_of w' n f
  unfolding sum_of
  sum_of-lt w w' zero f t le lt more = absurd (omega arith)
  sum_of-lt w w' (suc n) f t le lt more = elim (dec_lt t n) [
    | yes below ↦ omega (arith, le (f n), sum_of-lt w w' n f t le below more)
    | no top ↦
        let last : t ≡ n = omega arith in omega (arith, sum_of-le w w' n f le, rw last at more)
  ]

  -- Two such threads.
  pub sum_of-lt_two :
      (w w' : A → ℕ) (n : ℕ) (f : ℕ → A) (t u : ℕ)
      → ((a : A) → w a ≤ w' a)
      → t < n
      → u < n
      → t ≢ u
      → w (f t) + 1 ≤ w' (f t)
      → w (f u) + 1 ≤ w' (f u)
      → sum_of w n f + 2 ≤ sum_of w' n f
  unfolding sum_of
  sum_of-lt_two w w' zero f t u le lt lu ne more more' = absurd (omega arith)
  sum_of-lt_two w w' (suc n) f t u le lt lu ne more more' = elim (ℕ_discrete t n) [
    | yes last ↦ omega (arith, rw last at more, sum_of-lt w w' n f u le (omega arith) more')
    | no other ↦ elim (ℕ_discrete u n) [
      | yes last ↦ omega (arith, rw last at more', sum_of-lt w w' n f t le (omega arith) more)
      | no other' ↦
          omega (
            arith,
            le (f n),
            sum_of-lt_two w w' n f t u le (omega arith) (omega arith) ne more more',
          )
    ]
  ]
