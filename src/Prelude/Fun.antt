-- ===== src/Prelude/Fun.antt =====
-- C arrays as functions of the index, and windows of them as lists.
use Prim.Native.Nat.{ℕ, zero, suc, ◌+◌, ◌<◌}
use mathlib.Core.List.{List, [], ◌∷◌, ◌++◌}
use mathlib.Core.Path.{◌≡◌, refl, ap, ap₂, ◌∙◌, subst}
use mathlib.Core.Logic.{◌≢◌, inl, inr}
use native.Mathlib.Omega.{arith}
use jiajia.Prelude.Lists.{length}
use jiajia.Prelude.Tests.{◌==◌, Bool-cases, if◌then◌else◌}

-- `a[i] = v`
abbrev pub update {ℓ} : {A : Type ℓ} → (ℕ → A) → ℕ → A → ℕ → A
update f i v j = if j == i then v else f j

module _ {ℓ} {A : Type ℓ} where
  pub update_self : (f : ℕ → A) (i : ℕ) (v : A) → update f i v i ≡ v
  update_self f i v = ground arith

  pub update_ne : (f : ℕ → A) (i : ℕ) (v : A) (j : ℕ) → j ≢ i → update f i v j ≡ f j
  update_ne f i v j h = ground arith

  -- The first n entries.
  abbrev pub first : (ℕ → A) → ℕ → List A
  first f zero = []
  first f (suc n) = f 0 ∷ first (λ i. f (suc i)) n

  pub length-first : (f : ℕ → A) (n : ℕ) → length (first f n) ≡ n
  length-first f zero = refl
  length-first f (suc n) = ap suc (length-first (λ i. f (suc i)) n)

  pub first_snoc : (f : ℕ → A) (n : ℕ) → first f (suc n) ≡ first f n ++ (f n ∷ [])
  first_snoc f zero = refl
  first_snoc f (suc n) = ap (f 0 ∷◌) (first_snoc (λ i. f (suc i)) n)

  pub first_ext : (f g : ℕ → A) (n : ℕ) → ((i : ℕ) → i < n → f i ≡ g i) → first f n ≡ first g n
  first_ext f g zero h = refl
  first_ext f g (suc n) h =
      ap₂ (λ x xs. x ∷ xs) (h 0 (omega arith))
        (first_ext (λ i. f (suc i)) (λ i. g (suc i)) n (λ i lt. h (suc i) (omega arith)))

  -- Writing behind the window appends.
  pub first-update :
      (f : ℕ → A) (n : ℕ) (v : A) → first (update f n v) (n + 1) ≡ first f n ++ (v ∷ [])
  first-update f n v =
      let e : n + 1 ≡ suc n = omega arith in
      ap (first (update f n v)) e
      ∙ first_snoc (update f n v) n
      ∙ ap₂ (λ xs x. xs ++ (x ∷ []))
          (first_ext (update f n v) f n (λ i lt. update_ne f n v i (omega arith)))
          (update_self f n v)

-- A fact about every entry after a write: of the new one, and of the others.
pub update_each {ℓ ℓ'} :
    {A : Type ℓ} (P : ℕ → A → Type ℓ') (f : ℕ → A) (i : ℕ) (v : A)
    → P i v
    → ((j : ℕ) → j ≢ i → P j (f j))
    → (j : ℕ) → P j (update f i v j)
update_each P f i v new others j = elim (Bool-cases (j == i)) [
  | inl e ↦ let same : i ≡ j = ground arith in rw e (subst (λ k. P k v) same new)
  | inr e ↦ rw e (others j (ground arith))
]
