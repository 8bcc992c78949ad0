-- ===== src/Msg/Reduce/Powers.antt =====
-- Multiples of the powers of two, by which the places in the tree of `jia_reduce` are told apart.
use native.Mathlib.Nat.{
  mod-eq_of_lt, add-mod_right, mul-mod_right, mul-add-mod_self_left, div-add-mod, pow-suc, mod-lt,
  mod-eq-sub-mod,
}
use jiajia.Prelude.{
  ℕ, zero, suc, ◌+◌, ◌-◌, ◌*◌, ◌/◌, ◌%◌, ◌^◌, ◌≤◌, ◌<◌, ◌≡◌, ◌≢◌, sym, ap, ◌∙◌, arith, ℕ_discrete,
  dec_lt, subst,
}
use jiajia.Prelude.Bits.{pow_pos}

pub pow_next : (j : ℕ) → 2 ^ (j + 1) ≡ 2 * 2 ^ j
pow_next j =
    let e : 2 ^ (j + 1) ≡ 2 ^ suc j = ap (λ k. 2 ^ k) {x = j + 1} {y = suc j} (omega arith) in
    omega (arith, e, pow-suc 2 j)

-- Multiples of 2 * d.
even_mod : (p d : ℕ) → p % (2 * d) ≡ 0 → p % d ≡ 0
even_mod p d e =
    let twice : p ≡ d * (2 * (p / (2 * d))) = grind (arith, div-add-mod p (2 * d)) in
    ap (λ q. q % d) twice ∙ mul-mod_right d (2 * (p / (2 * d)))

pub even_pow : (p j : ℕ) → p % 2 ^ (j + 1) ≡ 0 → p % 2 ^ j ≡ 0
even_pow p j e =
    even_mod p (2 ^ j)
      (ap (λ d. p % d) {x = 2 * 2 ^ j} {y = 2 ^ (j + 1)} (omega (arith, pow_next j)) ∙ e)

pub lower_pow : (p j n : ℕ) → p % 2 ^ (j + n) ≡ 0 → p % 2 ^ j ≡ 0
lower_pow p j zero e = ap (λ k. p % 2 ^ k) {x = j} {y = j + 0} (omega arith) ∙ e
lower_pow p j (suc n) e =
    lower_pow p j n
      (even_pow p (j + n) (ap (λ k. p % 2 ^ k) {x = j + n + 1} {y = j + suc n} (omega arith) ∙ e))

pub below_pow : (p i j : ℕ) → i ≤ j → p % 2 ^ j ≡ 0 → p % 2 ^ i ≡ 0
below_pow p i j le e =
    lower_pow p i (j - i) (ap (λ k. p % 2 ^ k) {x = i + (j - i)} {y = j} (omega arith) ∙ e)

odd_mod : (p d : ℕ) → 0 < d → p % (2 * d) ≡ 0 → (p + d) % (2 * d) ≡ d
odd_mod p d pos e =
    let split : p + d ≡ 2 * d * (p / (2 * d)) + d = omega (arith, div-add-mod p (2 * d)) in
    ap (λ q. q % (2 * d)) split
    ∙ mul-add-mod_self_left (2 * d) (p / (2 * d)) d
    ∙ mod-eq_of_lt (omega arith)

-- A multiple of d below 2 * d.
between : (r d : ℕ) → 0 < r → r < 2 * d → r % d ≡ 0 → r ≡ d
between r d pos lt e = elim (dec_lt r d) [
  | yes small ↦ absurd (omega (arith, mod-eq_of_lt small))
  | no ge ↦
      let back : r % d ≡ r - d = mod-eq-sub-mod (omega arith) ∙ mod-eq_of_lt (omega arith) in
      omega (arith, back)
]

before_odd : (p d : ℕ) → 0 < d → p % d ≡ 0 → p % (2 * d) ≢ 0 → (d ≤ p) × ((p - d) % (2 * d) ≡ 0)
before_odd p d pos e odd =
    let q = p / (2 * d) in
    let r = p % (2 * d) in
    let split : p ≡ d * (2 * q) + r = grind (arith, div-add-mod p (2 * d)) in
    let rest : r % d ≡ 0 = sym (ap (λ k. k % d) split ∙ mul-add-mod_self_left d (2 * q) r) ∙ e in
    let last : r ≡ d = between r d (omega (arith, odd)) (mod-lt p (omega arith)) rest in
    let back : p - d ≡ 2 * d * q = omega (arith, last, div-add-mod p (2 * d)) in
    (
      omega (arith, last, div-add-mod p (2 * d)),
      ap (λ k. k % (2 * d)) back ∙ mul-mod_right (2 * d) q,
    )

-- One power further.
pub up_even :
    (p j : ℕ) → p % 2 ^ (j + 1) ≡ 0 → ((p + 2 ^ j) % 2 ^ j ≡ 0) × ((p + 2 ^ j) % 2 ^ (j + 1) ≢ 0)
up_even p j e = (
  add-mod_right p (2 ^ j) ∙ even_pow p j e,
  let twice = ap (λ d. p % d) {x = 2 * 2 ^ j} {y = 2 ^ (j + 1)} (omega (arith, pow_next j)) in
      let odd =
        ap (λ d. (p + 2 ^ j) % d) (pow_next j) ∙ odd_mod p (2 ^ j) (pow_pos j) (twice ∙ e) in
      omega (arith, odd, pow_pos j),
)

-- One power back.
pub down_odd :
    (p j : ℕ) → p % 2 ^ j ≡ 0 → p % 2 ^ (j + 1) ≢ 0 → (2 ^ j ≤ p) × ((p - 2 ^ j) % 2 ^ (j + 1) ≡ 0)
down_odd p j e odd =
    let twice = ap (λ d. p % d) (pow_next j) in
    let (le, even) = before_odd p (2 ^ j) (pow_pos j) e (λ z. odd (twice ∙ z)) in
    (le, ap (λ d. (p - 2 ^ j) % d) (pow_next j) ∙ even)

le_multiple : (p d : ℕ) → 0 < p → p % d ≡ 0 → d ≤ p
le_multiple p d pos e = elim (dec_lt p d) [
  | yes lt ↦ absurd (omega (arith, mod-eq_of_lt lt))
  | no ge ↦ omega arith
]

-- Each positive number has a last power that divides it.
pub last_pow :
    (f j p : ℕ)
    → 0 < p
    → p < 2 ^ (j + f)
    → p % 2 ^ j ≡ 0
    → (k : ℕ) × (2 ^ k ≤ p) × (p % 2 ^ k ≡ 0) × (p % 2 ^ (k + 1) ≢ 0)
last_pow zero j p pos lt e = absurd (
    omega (
      arith,
      le_multiple p (2 ^ (j + 0)) pos (ap (λ k. p % 2 ^ k) {x = j + 0} {y = j} (omega arith) ∙ e),
    ))
last_pow (suc f) j p pos lt e = elim (ℕ_discrete (p % 2 ^ (j + 1)) 0) [
  | yes z ↦
      last_pow f (j + 1) p pos
        (subst (λ k. p < 2 ^ k) {x = j + suc f} {y = j + 1 + f} (omega arith) lt) z
  | no odd ↦ (j, le_multiple p (2 ^ j) pos e, e, odd)
]

pub lt_pow : (p : ℕ) → p < 2 ^ p
lt_pow zero = omega arith
lt_pow (suc p) = omega (arith, pow-suc 2 p, lt_pow p)
