-- ===== src/Msg/Reduce/Schedule.antt =====
-- The rounds of `jia_reduce` on all hosts together.
use jiajia.Prelude.{
  ℕ, ◌+◌, ◌-◌, ◌%◌, ◌^◌, ◌<◌, ◌≡◌, ◌≢◌, ◌↔◌, refl, sym, ap, ◌∙◌, arith, dec_lt, subst,
}
use native.Mathlib.Nat.{zero-mod, mod-eq_of_lt, mod_self, mod-lt}
use jiajia.Prelude.Bits.{pow_pos}
use jiajia.Msg.Reduce.{idle, send_to, recv_from, tree_place, action}
use jiajia.Msg.Reduce.Powers.{up_even, down_odd, below_pow, last_pow, lt_pow}
use jiajia.Msg.Reduce.Actions.{
  host_at, place-IsLow, tree_place-host_at, host_at-tree_place, action-receives, action-sends,
  action-rests,
}

module _ (hostc root : ℕ) where
  -- Host p sends in round j, to a host nearer to the root, and in no other round; it receives nothing
  -- from then on.
  pub record SendsOnce (p : ℕ) : Type 0 where
    pub j : ℕ
    pub to : ℕ
    pub in_loop : 2 ^ j < hostc
    pub is_host : to < hostc
    pub nearer : tree_place hostc root to < tree_place hostc root p
    pub sends : action hostc root j p ≡ send_to to
    pub not_before : (k : ℕ) → k < j → (t : ℕ) → action hostc root k p ≢ send_to t
    pub rests : (k : ℕ) → j < k → action hostc root k p ≡ idle

module _ (hostc root : ℕ) (lt : root < hostc) where
  recv-send :
      (j p q : ℕ)
      → p < hostc
      → action hostc root j p ≡ recv_from q
      → action hostc root j q ≡ send_to p
  recv-send j p q h e =
      let m = tree_place hostc root p in
      let (even, room, at) = (action-receives hostc root lt j p q).0 e in
      let q_at : tree_place hostc root q ≡ m + 2 ^ j =
        ap (tree_place hostc root) (sym at) ∙ tree_place-host_at hostc root lt (m + 2 ^ j) room in
      let (low, odd) = up_even m j even in
      let back : m + 2 ^ j - 2 ^ j ≡ m = omega arith in
      (action-sends hostc root lt j q p).1
        (rw q_at low, rw q_at odd, rw (q_at, back) (host_at-tree_place hostc root lt p h))

  send-recv :
      (j p q : ℕ)
      → q < hostc
      → action hostc root j q ≡ send_to p
      → action hostc root j p ≡ recv_from q
  send-recv j p q h e =
      let m = tree_place hostc root q in
      let (low, odd, at) = (action-sends hostc root lt j q p).0 e in
      let (le, even) = down_odd m j low odd in
      let small : m < hostc = place-IsLow hostc root lt q in
      let p_at : tree_place hostc root p ≡ m - 2 ^ j =
        ap (tree_place hostc root) (sym at)
        ∙ tree_place-host_at hostc root lt (m - 2 ^ j) (omega arith) in
      let back : m - 2 ^ j + 2 ^ j ≡ m = omega arith in
      (action-receives hostc root lt j p q).1 (
        rw p_at even,
        rw (p_at, back) small,
        rw (p_at, back) (host_at-tree_place hostc root lt q h),
      )

  root_place : tree_place hostc root root ≡ 0
  root_place =
      let whole : root + hostc - root ≡ hostc = omega arith in
      ap (λ k. k % hostc) whole ∙ mod_self hostc

  away : (p : ℕ) → p < hostc → p ≢ root → 0 < tree_place hostc root p
  away p h ne =
      let first : host_at hostc root lt 0 ≡ root =
        ap (λ k. k % hostc) {x = 0 + root} {y = root} (omega arith) ∙ mod-eq_of_lt lt in
      let at_root : tree_place hostc root p ≡ 0 → p ≡ root =
        λ z. sym (host_at-tree_place hostc root lt p h) ∙ ap (host_at hostc root lt) z ∙ first in
      elim (dec_lt 0 (tree_place hostc root p)) [
        | yes pos ↦ pos
        | no none_left ↦ absurd (ne (at_root (omega arith)))
      ]

  once : (p : ℕ) → p < hostc → p ≢ root → SendsOnce hostc root p
  once p h ne =
      let m = tree_place hostc root p in
      let small : m < hostc = place-IsLow hostc root lt p in
      let (j, le, low, odd) =
        last_pow m 0 m (away p h ne)
          (subst (λ k. m < 2 ^ k) {x = m} {y = 0 + m} (omega arith) (lt_pow m)) (ground arith) in
      let to = host_at hostc root lt (m - 2 ^ j) in
      let to_at = tree_place-host_at hostc root lt (m - 2 ^ j) (omega arith) in
      record {
        j = j;
        to = to;
        in_loop = omega arith;
        is_host = mod-lt (m - 2 ^ j + root) (omega arith);
        nearer = omega (arith, to_at, pow_pos j);
        sends = (action-sends hostc root lt j p to).1 (low, odd, refl);
        not_before = λ k before t e.
            ((action-sends hostc root lt k p t).0 e).1 (below_pow m (k + 1) j (omega arith) low);
        rests = λ k after.
            action-rests hostc root lt k p (λ z. odd (below_pow m (j + 1) k (omega arith) z));
      }

-- In each round of `jia_reduce`, whatever the root, a host receives from another exactly when that host
-- sends to it. Each host but the root sends once, in a round of the loop, to a host whose place in the
-- tree is nearer to the root's, and does nothing in the rounds after; the root never sends.
pub jia_reduce_schedule :
    (hostc root : ℕ)
    → (lt : root < hostc)
    → ((j p q : ℕ)
        → p < hostc
        → q < hostc
        → (action hostc root j p ≡ recv_from q) ↔ (action hostc root j q ≡ send_to p))
      × ((p : ℕ) → p < hostc → p ≢ root → SendsOnce hostc root p)
      × ((j to : ℕ) → action hostc root j root ≢ send_to to)
jia_reduce_schedule hostc root lt = (
  λ j p q h h'. (recv-send hostc root lt j p q h, send-recv hostc root lt j p q h'),
  once hostc root lt,
  λ j to e.
      ((action-sends hostc root lt j root to).0 e).1
        (rw (root_place hostc root lt) (zero-mod (2 ^ (j + 1)))),
)
