-- ===== src/Msg/Bcast/Places.antt =====
-- The places of the hosts in the broadcast tree of src/msg.
use jiajia.Prelude.{
  ℕ, suc, ◌+◌, ◌-◌, ◌*◌, ◌%◌, ◌^◌, ◌<◌, ◌≡◌, ◌≢◌, refl, ap, ◌∙◌, sym, arith, false, ◌&&◌, List, [],
  ◌∷◌, ◌++◌, if◌then◌else◌, ◌==◌, ltb, leb, Bool-cases, inl, inr,
}
use native.Mathlib.Nat.{mod-eq_of_lt, mod-eq-sub-mod, pow-suc}
use jiajia.Msg.Types.{MsgOp, bcast_of, JiaMsg}
use jiajia.Msg.Bcast.{is_bcast, uncast, place, bcastserver, served}

abbrev pub occurs : ℕ → List ℕ → ℕ
occurs p [] = 0
occurs p (x ∷ xs) = (if p == x then 1 else 0) + occurs p xs

pub occurs-append : (p : ℕ) (xs ys : List ℕ) → occurs p (xs ++ ys) ≡ occurs p xs + occurs p ys
occurs-append p [] ys = omega arith
occurs-append p (x ∷ xs) ys = omega (arith, occurs-append p xs ys)

-- The host at a place.
unfoldable pub host_at : ℕ → ℕ → ℕ → ℕ
host_at hostc root r = (r + root) % hostc

pub host_at-value :
    (hostc root r : ℕ)
    → r < hostc
    → root < hostc
    → host_at hostc root r ≡ (if ltb (r + root) hostc then r + root else r + root - hostc)
unfolding host_at
host_at-value hostc root r lt lt' = elim (Bool-cases (ltb (r + root) hostc)) [
  | inl e ↦ rw e (mod-eq_of_lt (ground arith))
  | inr e ↦ rw e (mod-eq-sub-mod (ground arith) ∙ mod-eq_of_lt (ground arith))
]

pub place-host_at :
    (hostc root r : ℕ) → r < hostc → root < hostc → place hostc root (host_at hostc root r) ≡ r
place-host_at hostc root r lt lt' = ground (arith, host_at-value hostc root r lt lt')

pub host_at-place :
    (hostc root p : ℕ) → p < hostc → root < hostc → host_at hostc root (place hostc root p) ≡ p
host_at-place hostc root p lt lt' =
    ground (arith, host_at-value hostc root (place hostc root p) (ground arith) lt')

pub place_lt : (hostc root p : ℕ) → p < hostc → root < hostc → place hostc root p < hostc
place_lt hostc root p lt lt' = ground arith

-- Is the host's place one of the n from r on?
abbrev pub within : ℕ → ℕ → ℕ → ℕ
within at r n = if leb r at && ltb at (r + n) then 1 else 0

pub at_place :
    (hostc root r p : ℕ)
    → r < hostc
    → p < hostc
    → root < hostc
    → occurs p (host_at hostc root r ∷ []) ≡ within (place hostc root p) r 1
at_place hostc root r p lt lp lr = elim (Bool-cases (p == host_at hostc root r)) [
  | inl e ↦
      let there : place hostc root p ≡ r =
        ap (place hostc root) (ground arith) ∙ place-host_at hostc root r lt lr in
      rw there (ground arith)
  | inr ne ↦
      let elsewhere : place hostc root p ≢ r = λ same.
        let back : host_at hostc root r ≡ p =
          ap (host_at hostc root) (sym same) ∙ host_at-place hostc root p lp lr in
        ground arith in
      ground (arith, ne, elsewhere)
]

pub halves :
    (at r k : ℕ) → within at (r + 2 ^ k) (2 ^ k) + within at r (2 ^ k) + 0 ≡ within at r (2 ^ suc k)
halves at r k = ground (arith, pow-suc 2 k)

pub half :
    (at r k hostc : ℕ)
    → ltb (r + 2 ^ k) hostc ≡ false
    → at < hostc
    → within at r (2 ^ k) + 0 ≡ within at r (2 ^ suc k)
half at r k hostc one lt = ground (arith, pow-suc 2 k)

pub served_cons :
    (hostc p f : ℕ) (m : JiaMsg) (ms : List JiaMsg)
    → occurs p (served hostc (suc f) (m ∷ ms))
      ≡ occurs p (served hostc (suc f) (m ∷ [])) + occurs p (served hostc (suc f) ms)
unfolding served
served_cons hostc p f m ms =
    let xs = if is_bcast m.op then served hostc f (bcastserver hostc m.topid m) else m.topid ∷ [] in
    omega (arith, occurs-append p xs (served hostc (suc f) ms), occurs-append p xs [])

-- What is left of the operation one level further down.
pub not_last : (op : MsgOp) (k : ℕ) → (if suc k == 0 then op else bcast_of op) ≡ bcast_of op
not_last op k =
    let e : (suc k == 0) ≡ false = ground arith in ap (λ b. if b then op else bcast_of op) e

pub cast_down :
    (op op' : MsgOp) (k : ℕ)
    → op' ≡ bcast_of op
    → (if k == 0 then uncast op' else op') ≡ (if k == 0 then op else bcast_of op)
cast_down op op' k e = rw e (same k)
  where
    same :
        (k : ℕ)
        → (if k == 0 then uncast (bcast_of op) else bcast_of op)
          ≡ (if k == 0 then op else bcast_of op)
    same k = refl

-- A message of a broadcast from root, to the host at place r, with level levels below it.
pub record IsSent (hostc root : ℕ) (op : MsgOp) (level r : ℕ) (m : JiaMsg) : Type 0 where
  pub to : m.topid ≡ host_at hostc root r
  pub tree : m.temp ≡ root * 2 ^ 16 + level
  pub cast : m.op ≡ (if level == 0 then op else bcast_of op)
