-- ===== src/Mem/Diff/Copy.antt =====
-- memcpy of a slice, and the pieces of a diff in a message.
use jiajia.Prelude.{
  ℕ, zero, suc, ◌+◌, ◌-◌, ◌≤◌, ◌≡◌, refl, ap, ◌&&◌, List, ◌∷◌, ◌++◌, if◌then◌else◌, ltb, leb,
  length, take, drop, arith, update,
}
use jiajia.Mem.Diff.{Bytes, slice, copy}

pub length-slice : (page : Bytes) (i n : ℕ) → length (slice page i n) ≡ n
unfolding slice
length-slice page i zero = refl
length-slice page i (suc n) = ap suc (length-slice page (i + 1) n)

pub take-slice :
    (page : Bytes) (i n : ℕ) (rest : List ℕ) → take n (slice page i n ++ rest) ≡ slice page i n
unfolding slice
take-slice page i zero rest = refl
take-slice page i (suc n) rest = ap (◌∷◌ (page i)) (take-slice page (i + 1) n rest)

pub drop-slice : (page : Bytes) (i n : ℕ) (rest : List ℕ) → drop n (slice page i n ++ rest) ≡ rest
unfolding slice
drop-slice page i zero rest = refl
drop-slice page i (suc n) rest = drop-slice page (i + 1) n rest

-- Copying n bytes of a page writes them, and nothing else.
pub copy-slice :
    (mem page : Bytes) (a i n x : ℕ)
    → copy mem a (slice page i n) x
      ≡ (if leb a x && ltb x (a + n) then page (i + (x - a)) else mem x)
unfolding copy slice
copy-slice mem page a i zero x = ground arith
copy-slice mem page a i (suc n) x = ground (
  arith,
  copy-slice (update mem a (page i)) page (a + 1) (i + 1) n x,
  λ (e : x ≡ a). ap page {x = i} {y = i + (x - a)} (omega arith),
  λ (h : a + 1 ≤ x). ap page {x = i + 1 + (x - (a + 1))} {y = i + (x - a)} (omega arith),
)
