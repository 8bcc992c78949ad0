-- ===== src/Msg/Reduce/Actions.antt =====
-- When a host of `jia_reduce` sends and when it receives, by its place in the tree.
use native.Mathlib.Nat.{mod-eq_of_lt, mod-eq-sub-mod, add-mod_right, mod-lt}
use jiajia.Prelude.{
  ℕ, ◌+◌, ◌-◌, ◌%◌, ◌^◌, ◌≤◌, ◌<◌, ◌≡◌, ◌≢◌, ◌↔◌, refl, ap, ◌∙◌, true, false, Bool, if◌then◌else◌,
  ◌==◌, ltb, arith, Bool-cases, inl, inr, dec_lt,
}
use jiajia.Msg.Reduce.Powers.{even_pow}
use jiajia.Msg.Reduce.{idle, send_to, recv_from, tree_place, action}

is_recv :
    (b c d : Bool) (x y q : ℕ)
    → ((if b then (if c then (if d then recv_from x else idle) else send_to y) else idle)
        ≡ recv_from q)
      ↔ ((b ≡ true) × (c ≡ true) × (d ≡ true) × (x ≡ q))
is_recv true true true x y q = (λ h. ground arith, λ h. ground arith)
is_recv true true false x y q = (λ h. ground arith, λ h. ground arith)
is_recv true false d x y q = (λ h. ground arith, λ h. ground arith)
is_recv false c d x y q = (λ h. ground arith, λ h. ground arith)

is_send :
    (b c d : Bool) (x y q : ℕ)
    → ((if b then (if c then (if d then recv_from x else idle) else send_to y) else idle)
        ≡ send_to q)
      ↔ ((b ≡ true) × (c ≡ false) × (y ≡ q))
is_send true true true x y q = (λ h. ground arith, λ h. ground arith)
is_send true true false x y q = (λ h. ground arith, λ h. ground arith)
is_send true false d x y q = (λ h. ground arith, λ h. ground arith)
is_send false c d x y q = (λ h. ground arith, λ h. ground arith)

module _ (hostc root : ℕ) (lt : root < hostc) where
  -- The host at place p of the tree.
  abbrev pub host_at : ℕ → ℕ
  host_at p = (p + root) % hostc

  pub place-IsLow : (p : ℕ) → tree_place hostc root p < hostc
  place-IsLow p = mod-lt (p + hostc - root) (omega arith)

  wrap :
      (p : ℕ)
      → p < hostc
      → host_at p ≡ (if ltb (p + root) hostc then p + root else p + root - hostc)
  wrap p h = elim (Bool-cases (ltb (p + root) hostc)) [
    | inl e ↦ rw e (mod-eq_of_lt (ground arith))
    | inr e ↦
        let over : hostc ≤ p + root = ground arith in
        rw e (mod-eq-sub-mod over ∙ mod-eq_of_lt (omega arith))
  ]

  pub tree_place-host_at : (p : ℕ) → p < hostc → tree_place hostc root (host_at p) ≡ p
  tree_place-host_at p h = elim (Bool-cases (ltb (p + root) hostc)) [
    | inl e ↦
        let back : p + root + hostc - root ≡ p + hostc = omega arith in
        rw (wrap p h, e, back) (add-mod_right p hostc ∙ mod-eq_of_lt h)
    | inr e ↦
        let over : hostc ≤ p + root = ground arith in
        let back : p + root - hostc + hostc - root ≡ p = omega arith in
        rw (wrap p h, e, back) (mod-eq_of_lt h)
  ]

  pub host_at-tree_place : (p : ℕ) → p < hostc → host_at (tree_place hostc root p) ≡ p
  host_at-tree_place p h = elim (dec_lt p root) [
    | yes low ↦
        let place : tree_place hostc root p ≡ p + hostc - root = mod-eq_of_lt (omega arith) in
        let back : p + hostc - root + root ≡ p + hostc = omega arith in
        rw (place, back) (add-mod_right p hostc ∙ mod-eq_of_lt h)
    | no high ↦
        let place : tree_place hostc root p ≡ p - root =
          mod-eq-sub-mod (omega arith)
          ∙ ap (λ k. k % hostc) {x = p + hostc - root - hostc} {y = p - root} (omega arith)
          ∙ mod-eq_of_lt (omega arith) in
        let back : p - root + root ≡ p = omega arith in rw (place, back) (mod-eq_of_lt h)
  ]

  -- The places from which a host receives in round j, and to which it sends.
  pub action-receives :
      (j p q : ℕ)
      → (let mypid = tree_place hostc root p in
          (action hostc root j p ≡ recv_from q)
          ↔ ((mypid % 2 ^ (j + 1) ≡ 0) × (mypid + 2 ^ j < hostc) × (host_at (mypid + 2 ^ j) ≡ q)))
  unfolding action
  action-receives j p q =
      let mypid = tree_place hostc root p in
      let (there, back) =
        is_recv (mypid % 2 ^ j == 0) (mypid % 2 ^ (j + 1) == 0) (ltb (mypid + 2 ^ j) hostc)
          (host_at (mypid + 2 ^ j)) ((mypid - 2 ^ j + root) % hostc) q in
      (
        λ h. let (_, even, room, at) = there h in (ground arith, ground arith, at),
        λ (even, room, at).
            let low = even_pow mypid j even in back (ground arith, ground arith, ground arith, at),
      )

  pub action-sends :
      (j p q : ℕ)
      → (let mypid = tree_place hostc root p in
          (action hostc root j p ≡ send_to q)
          ↔ ((mypid % 2 ^ j ≡ 0) × (mypid % 2 ^ (j + 1) ≢ 0) × (host_at (mypid - 2 ^ j) ≡ q)))
  unfolding action
  action-sends j p q =
      let mypid = tree_place hostc root p in
      let (there, back) =
        is_send (mypid % 2 ^ j == 0) (mypid % 2 ^ (j + 1) == 0) (ltb (mypid + 2 ^ j) hostc)
          (host_at (mypid + 2 ^ j)) (host_at (mypid - 2 ^ j)) q in
      (
        λ h. let (low, odd, at) = there h in (ground arith, ground arith, at),
        λ (low, odd, at). back (ground arith, ground arith, at),
      )

  -- Out of the tree after the round in which its place is no multiple any more.
  pub action-rests : (j p : ℕ) → tree_place hostc root p % 2 ^ j ≢ 0 → action hostc root j p ≡ idle
  unfolding action
  action-rests j p out =
      let e : (tree_place hostc root p % 2 ^ j == 0) ≡ false = ground arith in rw e refl
