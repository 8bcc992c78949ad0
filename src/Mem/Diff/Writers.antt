-- ===== src/Mem/Diff/Writers.antt =====
-- What the diffs of one writer, and of two, make of the home page.
use native.Mathlib.Nat.{add-zero}
use jiajia.Prelude.{
  ℕ, zero, suc, ◌+◌, ◌-◌, ◌*◌, ◌/◌, ◌%◌, ◌^◌, ◌<◌, ◌≡◌, ◌∙◌, ◌⊎◌, true, not, List, ◌++◌,
  if◌then◌else◌, arith,
}
use jiajia.Mem.Diff.{Bytes, same_unit, encodediff, apply_page}
use jiajia.Mem.Diff.Encode.{kept}
use jiajia.Mem.Diff.Merge.{merged, apply_page-encodediff}

unit-eq :
    (page twin : Bytes) (i d : ℕ)
    → same_unit page twin i ≡ true
    → d < 4
    → page (i + d) ≡ twin (i + d)
unit-eq page twin i zero h lt = rw add-zero (ground arith)
unit-eq page twin i (suc zero) h lt = ground arith
unit-eq page twin i (suc (suc zero)) h lt = ground arith
unit-eq page twin i (suc (suc (suc zero))) h lt = ground arith
unit-eq page twin i (suc (suc (suc (suc d)))) h lt = absurd (omega arith)

merged-at :
    (page twin mem : Bytes) (p o : ℕ)
    → o < 4096
    → merged page twin p 0 mem (p + o) ≡ (if not (kept page twin o) then page o else mem (p + o))
merged-at page twin mem p o h = let e : p + o - p ≡ o = omega arith in rw e (ground arith)

-- A changed byte lies in a changed unit.
pub kept-eq : (page twin : Bytes) (o : ℕ) → kept page twin o ≡ true → page o ≡ twin o
kept-eq page twin o h =
    let e : o / 4 * 4 + o % 4 ≡ o = omega arith in
    rw e at (unit-eq page twin (o / 4 * 4) (o % 4) h (omega arith))

-- The home of a page that still holds what the cached copy started from gets the cached copy, at a
-- 64-bit address.
pub diff_roundtrip :
    (page twin mem : Bytes) (p o : ℕ) (rest : List ℕ)
    → p < 2 ^ 64
    → ((q : ℕ) → mem (p + q) ≡ twin q)
    → o < 4096
    → (apply_page mem (encodediff page twin p ++ rest)).0 (p + o) ≡ page o
diff_roundtrip page twin mem p o rest hp held ho =
    (apply_page-encodediff page twin mem p rest (p + o) hp).0
    ∙ merged-at page twin mem p o ho
    ∙ ground (arith, held o, kept-eq page twin o)

-- Multiple writers: the diffs of two hosts that changed no diff unit both may come in either order,
-- and whatever the order, the home page, at a 64-bit address, has the changes of both.
pub diffs_commute :
    (page_a twin_a page_b twin_b mem : Bytes) (p o : ℕ) (rest_a rest_b : List ℕ)
    → p < 2 ^ 64
    → o < 4096
    → ((q : ℕ) → (kept page_a twin_a q ≡ true) ⊎ (kept page_b twin_b q ≡ true))
    → let a = encodediff page_a twin_a p ++ rest_a in
      let b = encodediff page_b twin_b p ++ rest_b in
      let both =
        if not (kept page_a twin_a o)
        then page_a o
        else if not (kept page_b twin_b o)
        then page_b o
        else mem (p + o) in
      ((apply_page (apply_page mem a).0 b).0 (p + o) ≡ both)
      × ((apply_page (apply_page mem b).0 a).0 (p + o) ≡ both)
diffs_commute page_a twin_a page_b twin_b mem p o rest_a rest_b hp ho apart = (
  ground (
    arith,
    apply_page-encodediff page_b twin_b (apply_page mem (encodediff page_a twin_a p ++ rest_a)).0 p
        rest_b (p + o) hp,
    apply_page-encodediff page_a twin_a mem p rest_a (p + o) hp,
    merged-at page_b twin_b (apply_page mem (encodediff page_a twin_a p ++ rest_a)).0 p o ho,
    merged-at page_a twin_a mem p o ho,
    apart o,
  ),
  ground (
    arith,
    apply_page-encodediff page_a twin_a (apply_page mem (encodediff page_b twin_b p ++ rest_b)).0 p
        rest_a (p + o) hp,
    apply_page-encodediff page_b twin_b mem p rest_b (p + o) hp,
    merged-at page_a twin_a (apply_page mem (encodediff page_b twin_b p ++ rest_b)).0 p o ho,
    merged-at page_b twin_b mem p o ho,
    apart o,
  ),
)
