-- ===== src/Msg/Bcast/Tree.antt =====
-- The broadcast tree of src/msg reaches every host once.
use jiajia.Prelude.{
  ℕ, zero, suc, ◌+◌, ◌-◌, ◌/◌, ◌%◌, ◌^◌, ◌≤◌, ◌<◌, ◌≡◌, refl, ap, ap₂, ◌∙◌, sym, subst, arith, true,
  false, [], ◌∷◌, ◌++◌, if◌then◌else◌, ◌==◌, ltb, ltb→lt, Bool-cases, inl, inr,
}
use native.Mathlib.Nat.{mod-eq_of_lt, pow-suc}
use jiajia.Constants.{max_hosts}
use jiajia.Msg.Types.{MsgOp, bcast_of, JiaMsg}
use jiajia.Msg.Bcast.{
  is_bcast, pack_level, place, child, children, bcastserver, tree_level, bsendmsg, served,
}
use jiajia.Msg.Bcast.Places.{
  occurs, occurs-append, host_at, place-host_at, place_lt, within, at_place, halves, half,
  served_cons, not_last, cast_down, IsSent,
}

module _ (hostc root : ℕ) (op : MsgOp) (small : hostc ≤ 2 ^ 16) (at_root : root < hostc) where
  -- The messages of a host with level suc k: to the far place, if there is one, and to its own.
  bcastserver_sends :
      (k r : ℕ) (m : JiaMsg)
      → suc k < 2 ^ 16
      → r < hostc
      → IsSent hostc root op (suc k) r m
      → (near : JiaMsg) × (far : JiaMsg) × (bcastserver hostc m.topid m
          ≡ (if ltb (r + 2 ^ k) hostc then far ∷ [] else []) ++ (near ∷ []))
        × IsSent hostc root op k r near
        × IsSent hostc root op k (r + 2 ^ k) far
  unfolding bcastserver host_at
  bcastserver_sends k r m deep lt sent =
      let e1 : m.temp / 2 ^ 16 % 2 ^ 16 ≡ root = omega (arith, sent.tree) in
      let e2 : m.temp % 2 ^ 16 - 1 ≡ k = omega (arith, sent.tree) in
      let e3 : place hostc root m.topid ≡ r =
        ap (place hostc root) sent.to ∙ place-host_at hostc root r lt at_root in
      (
        child hostc m.topid m root k r,
        child hostc m.topid m root k (r + 2 ^ k),
        ap₂ (λ a b. children hostc m.topid m a b (place hostc a m.topid)) e1 e2
            ∙ ap (children hostc m.topid m root k) e3,
        record {
          to = refl;
          tree = omega arith;
          cast = cast_down op m.op k (sent.cast ∙ not_last op k);
        },
        record {
          to = refl;
          tree = omega arith;
          cast = cast_down op m.op k (sent.cast ∙ not_last op k);
        },
      )

  served_below :
      (level f r p : ℕ) (m : JiaMsg)
      → is_bcast op ≡ false
      → level < 2 ^ 16
      → level < f
      → r < hostc
      → p < hostc
      → IsSent hostc root op level r m
      → occurs p (served hostc f (m ∷ [])) ≡ within (place hostc root p) r (2 ^ level)
  unfolding served
  served_below zero (suc f) r p m plain deep enough lt lp sent =
      let e : is_bcast m.op ≡ false = ap is_bcast sent.cast ∙ plain in
      ap
        (λ b.
          occurs p
            ((if b then served hostc f (bcastserver hostc m.topid m) else m.topid ∷ []) ++ []))
        e
      ∙ ap (λ h. occurs p (h ∷ [])) sent.to
      ∙ at_place hostc root r p lt lp at_root
  served_below (suc k) (suc (suc f)) r p m plain deep enough lt lp sent =
      let e : is_bcast m.op ≡ true = ap is_bcast (sent.cast ∙ not_last op k) in
      let (near, far, split, sent₁, sent₂) = bcastserver_sends k r m deep lt sent in
      let at = place hostc root p in
      let mine : occurs p (served hostc (suc f) (near ∷ [])) ≡ within at r (2 ^ k) =
        served_below k (suc f) r p near plain (omega arith) (omega arith) lt lp sent₁ in
      ap
        (λ b.
          occurs p (
            (if b then served hostc (suc f) (bcastserver hostc m.topid m) else m.topid ∷ []) ++ []))
        e
      ∙ occurs-append p (served hostc (suc f) (bcastserver hostc m.topid m)) []
      ∙ ap (λ ms. occurs p (served hostc (suc f) ms) + 0) split
      ∙ elim (Bool-cases (ltb (r + 2 ^ k) hostc)) [
        | inl two ↦
            let theirs : occurs p (served hostc (suc f) (far ∷ []))
                ≡ within at (r + 2 ^ k) (2 ^ k) =
              served_below k (suc f) (r + 2 ^ k) p far plain (omega arith) (omega arith)
                (ltb→lt (r + 2 ^ k) hostc two) lp sent₂ in
            ap
              (λ b.
                occurs p (served hostc (suc f) ((if b then far ∷ [] else []) ++ (near ∷ []))) + 0)
              two
            ∙ ap (λ a. a + 0)
                (served_cons hostc p f far (near ∷ []) ∙ ap₂ (λ a b. a + b) theirs mine)
            ∙ halves at r k
        | inr one ↦
            ap
              (λ b.
                occurs p (served hostc (suc f) ((if b then far ∷ [] else []) ++ (near ∷ []))) + 0)
              one
            ∙ ap (λ a. a + 0) mine
            ∙ half at r k hostc one (place_lt hostc root p lp at_root)
      ]
  served_below (suc k) (suc zero) r p m plain deep enough lt lp sent = omega arith
  served_below level zero r p m plain deep enough lt lp sent = omega arith

lt_two_pow : (n : ℕ) → n < 2 ^ n
lt_two_pow zero = omega arith
lt_two_pow (suc n) = omega (arith, lt_two_pow n, pow-suc 2 n)

tree_level-enough : (hostc f level : ℕ) → hostc ≤ f + level → hostc ≤ 2 ^ tree_level hostc f level
unfolding tree_level
tree_level-enough hostc zero level h = omega (arith, h, lt_two_pow level)
tree_level-enough hostc (suc f) level h = elim (Bool-cases (ltb (2 ^ level) hostc)) [
  | inl e ↦ rw e (tree_level-enough hostc f (level + 1) (omega arith))
  | inr e ↦ rw e (ground arith)
]

tree_level-bound :
    (hostc f level : ℕ)
    → (level ≤ tree_level hostc f level) × (tree_level hostc f level ≤ level + f)
unfolding tree_level
tree_level-bound hostc zero level = (omega arith, omega arith)
tree_level-bound hostc (suc f) level = elim (Bool-cases (ltb (2 ^ level) hostc)) [
  | inl e ↦ rw e (omega (arith, tree_level-bound hostc f (level + 1)))
  | inr e ↦ rw e (omega arith)
]

level_pos : (hostc level : ℕ) → hostc ≤ 2 ^ level → 1 < hostc → 0 < level
level_pos hostc zero h lt = omega arith
level_pos hostc (suc level) h lt = omega arith

-- The level at the root: at least 1, and the places below it are all hosts.
root_level : ℕ → ℕ
root_level hostc = if hostc == 1 then 1 else tree_level hostc hostc 0

root_level-fits :
    (hostc : ℕ)
    → 0 < hostc
    → (k : ℕ) × (root_level hostc ≡ suc k) × (hostc ≤ 2 ^ suc k) × (k ≤ hostc)
unfolding root_level
root_level-fits hostc pos = elim (Bool-cases (hostc == 1)) [
  | inl e ↦ (0, rw e refl, ground arith, omega arith)
  | inr e ↦
      let level = tree_level hostc hostc 0 in
      let enough : hostc ≤ 2 ^ level = tree_level-enough hostc hostc 0 (omega arith) in
      let bound = tree_level-bound hostc hostc 0 in
      let some_level : 0 < level = level_pos hostc level enough (ground arith) in
      (
        level - 1,
        rw e (omega arith),
        subst (λ n. hostc ≤ 2 ^ n) (omega arith) enough,
        omega (arith, bound),
      )
]

all_within : (at n c : ℕ) → at < n → c + 0 ≡ within at 0 n → c ≡ 1
all_within at n c lt e = ground arith

-- With at most Maxhosts hosts, a message that a host broadcasts is served by every host exactly
-- once, whichever the root is, once every host that gets it with BCAST has passed it on; the fuel
-- need only be above hostc + 1.
pub bsendmsg_reaches :
    (hostc root f p : ℕ) (msg : JiaMsg)
    → is_bcast msg.op ≡ false
    → hostc ≤ max_hosts
    → root < hostc
    → p < hostc
    → hostc + 1 < f
    → occurs p (served hostc f (bsendmsg hostc root msg)) ≡ 1
unfolding bsendmsg served host_at root_level bcastserver
bsendmsg_reaches hostc root f p msg plain small lr lp enough =
    let (k, e, fits, bound) = root_level-fits hostc (omega arith) in
    let m : JiaMsg = record msg {
      op = bcast_of msg.op;
      temp = pack_level root (root_level hostc);
      topid = host_at hostc root 0;
    } in
    let at : root ≡ host_at hostc root 0 =
      sym (mod-eq_of_lt lr) ∙ ap (λ a. a % hostc) (omega arith) in
    let sent : IsSent hostc root msg.op (suc k) 0 m = record {
      to = refl;
      tree = omega (arith, e);
      cast = sym (not_last msg.op k);
    } in
    let list : occurs p (served hostc (suc f) (m ∷ []))
        ≡ occurs p (served hostc f (bcastserver hostc m.topid m)) + 0 =
      occurs-append p (served hostc f (bcastserver hostc m.topid m)) [] in
    let below =
      served_below hostc root msg.op (omega arith) lr (suc k) (suc f) 0 p m plain (omega arith)
        (omega arith) (omega arith) lp sent in
    ap (λ a. occurs p (served hostc f (bcastserver hostc a m))) at
    ∙ all_within (place hostc root p) (2 ^ suc k) _ (omega (arith, place_lt hostc root p lp lr))
        (sym list ∙ below)
