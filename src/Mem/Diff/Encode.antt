-- ===== src/Mem/Diff/Encode.antt =====
-- What `encodediff` writes: the changed diff units, all of them and no others.
use jiajia.Prelude.{
  ℕ, zero, suc, ◌+◌, ◌*◌, ◌/◌, ◌≤◌, ◌<◌, ◌≡◌, refl, ◌≢◌, Bool, true, false, arith, Bool-cases, inl,
  inr, dec_lt,
}
use jiajia.Mem.Diff.{Bytes, same_unit, skip_same, count_changed}

module _ (page twin : Bytes) where
  -- The diff unit of an offset is unchanged.
  abbrev pub kept : ℕ → Bool
  kept o = same_unit page twin (o / 4 * 4)

  pub record Skipped (n i : ℕ) (out : ℕ × ℕ) : Type 0 where
    pub total : out.1 + 4 * out.0 ≡ i + 4 * n
    pub forward : i ≤ out.1
    pub all_kept : (o : ℕ) → i ≤ o → o < out.1 → kept o ≡ true
    pub stops : out.0 ≢ 0 → same_unit page twin out.1 ≡ false
    pub moves : n ≢ 0 → same_unit page twin i ≡ true → out.0 < n

  pub skip_same-Skipped : (n i k : ℕ) → i ≡ 4 * k → Skipped n i (skip_same page twin n i)
  unfolding skip_same
  skip_same-Skipped zero i k e = record {
    total = omega arith;
    forward = omega arith;
    all_kept = λ o p q. absurd (omega arith);
    stops = λ h. absurd (h refl);
    moves = λ h. absurd (h refl);
  }
  skip_same-Skipped (suc n) i k e = elim (Bool-cases (same_unit page twin i)) [
    | inl same ↦ rw same (more same (skip_same-Skipped n (i + 4) (k + 1) (omega arith)))
    | inr changed ↦ rw changed record {
      total = refl;
      forward = omega arith;
      all_kept = λ o p q. absurd (omega arith);
      stops = λ h. changed;
      moves = λ _ same. cc;
    }
  ]
    where
      more :
          same_unit page twin i ≡ true
          → Skipped n (i + 4) (skip_same page twin n (i + 4))
          → Skipped (suc n) i (skip_same page twin n (i + 4))
      more same s = record {
        total = omega (arith, s.total);
        forward = omega (arith, s.forward);
        all_kept = λ o p q. elim (dec_lt o (i + 4)) [
          | yes lt ↦ let here : o / 4 * 4 ≡ i = omega arith in rw here same
          | no ge ↦ s.all_kept o (omega arith) q
        ];
        stops = s.stops;
        moves = λ _ _. omega (arith, s.total, s.forward);
      }

  pub record Counted (n i cnt : ℕ) (out : ℕ × ℕ × ℕ) : Type 0 where
    pub total : out.1 + 4 * out.0 ≡ i + 4 * n
    pub counted : out.2 + i ≡ cnt + out.1
    pub forward : i ≤ out.1
    pub all_changed : (o : ℕ) → i ≤ o → o < out.1 → kept o ≡ false
    pub moves : n ≢ 0 → same_unit page twin i ≡ false → out.0 < n
    pub stops : out.0 ≢ 0 → same_unit page twin out.1 ≡ true

  pub count_changed-Counted :
      (n i cnt k : ℕ) → i ≡ 4 * k → Counted n i cnt (count_changed page twin n i cnt)
  unfolding count_changed
  count_changed-Counted zero i cnt k e = record {
    total = omega arith;
    counted = omega arith;
    forward = omega arith;
    all_changed = λ o p q. absurd (omega arith);
    moves = λ h. absurd (h refl);
    stops = λ h. absurd (h refl);
  }
  count_changed-Counted (suc n) i cnt k e = elim (Bool-cases (same_unit page twin i)) [
    | inl same ↦ rw same record {
      total = refl;
      counted = omega arith;
      forward = omega arith;
      all_changed = λ o p q. absurd (omega arith);
      moves = λ _ changed. cc;
      stops = λ _. same;
    }
    | inr changed ↦
        rw changed (more changed (count_changed-Counted n (i + 4) (cnt + 4) (k + 1) (omega arith)))
  ]
    where
      more :
          same_unit page twin i ≡ false
          → Counted n (i + 4) (cnt + 4) (count_changed page twin n (i + 4) (cnt + 4))
          → Counted (suc n) i cnt (count_changed page twin n (i + 4) (cnt + 4))
      more changed s = record {
        total = omega (arith, s.total);
        counted = omega (arith, s.counted);
        forward = omega (arith, s.forward);
        all_changed = λ o p q. elim (dec_lt o (i + 4)) [
          | yes lt ↦ let here : o / 4 * 4 ≡ i = omega arith in rw here changed
          | no ge ↦ s.all_changed o (omega arith) q
        ];
        moves = λ _ _. omega (arith, s.total, s.forward);
        stops = s.stops;
      }
