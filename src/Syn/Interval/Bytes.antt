-- ===== src/Syn/Interval/Bytes.antt =====
-- The `wtnt` bytes of home pages: what the steps make of each of their 256 values.
use jiajia.Prelude.{
  ℕ, zero, suc, ◌%◌, ◌<◌, ◌≡◌, ◌≢◌, refl, Bool, true, false, ◌&&◌, ◌||◌, not, Option, none, some,
  if◌then◌else◌, ◌==◌, ltb, arith, bit_and, ltb→lt,
}
use jiajia.Syn.Interval.{barr_page}

every : ℕ → (ℕ → Bool) → Bool
every zero p = true
every (suc n) p = p n && every n p

every-at : (n : ℕ) (p : ℕ → Bool) (x : ℕ) → every n p ≡ true → x < n → p x ≡ true
unfolding every
every-at zero p x h lt = absurd (omega arith)
every-at (suc n) p x h lt = ground (arith, every-at n p x)

abbrev same_bool : Bool → Bool → Bool
same_bool true b = b
same_bool false b = not b

same_bool-eq : (a b : Bool) → same_bool a b ≡ true → a ≡ b
same_bool-eq true b h = ground arith
same_bool-eq false true h = cc
same_bool-eq false false h = refl

-- A byte that fits its page: written by the host in this interval if the page is writable, and then in
-- this barrier interval too.
abbrev pub fits_byte : ℕ → Bool → Bool
fits_byte w writable = ltb w 256 && (not (w % 4 == 1) && same_bool writable (w % 2 == 1))

pub record Fits (w : ℕ) (writable : Bool) : Type 0 where
  pub small : w < 256
  pub also_in_barrier : w % 4 ≢ 1
  pub noted : writable ≡ (w % 2 == 1)

and-left : (a b : Bool) → (a && b) ≡ true → a ≡ true
and-left true b h = refl
and-left false b h = h

and-right : (a b : Bool) → (a && b) ≡ true → b ≡ true
and-right true b h = h
and-right false b h = cc

fits_byte-Fits : (w : ℕ) (writable : Bool) → fits_byte w writable ≡ true → Fits w writable
fits_byte-Fits w writable h =
    let rest = and-right (ltb w 256) _ h in
    record {
      small = ltb→lt w 256 (and-left (ltb w 256) _ h);
      also_in_barrier = λ e. ground (arith, and-left (not (w % 4 == 1)) _ rest);
      noted = same_bool-eq writable (w % 2 == 1) (and-right (not (w % 4 == 1)) _ rest);
    }

-- Of the hosts, only the home has written the page in the barrier interval.
abbrev pub only_home : ℕ → Bool
only_home w = w % 8 == 2 || w % 8 == 3

-- The changes, on a byte that fits; `kept` is the protection to come.
abbrev fitting : Bool → Option (ℕ × Bool) → Bool
fitting kept none = false
fitting kept (some (w, writable)) = fits_byte w writable && same_bool writable kept

abbrev barr_ok : ℕ → Bool
barr_ok w = w % 4 == 1 || fitting (only_home w) (barr_page w (w % 2 == 1))

barr_table : every 256 barr_ok ≡ true
unfolding every barr_page
barr_table = refl

abbrev clear_ok : ℕ → Bool
clear_ok w = if bit_and w 1 == 0 then w % 2 == 0 else fits_byte (bit_and w 0xfe) false

clear_table : every 256 clear_ok ≡ true
unfolding every
clear_table = refl

or-right : (a b : Bool) → a ≡ false → (a || b) ≡ true → b ≡ true
or-right a b e h = rw e at h

-- The test that leaves out the bytes that cannot be.
not_alone : (w : ℕ) (writable : Bool) → Fits w writable → (w % 4 == 1) ≡ false
not_alone w writable f = ground (arith, f.also_in_barrier)

fitting-some :
    (kept : Bool) (o : Option (ℕ × Bool))
    → fitting kept o ≡ true
    → (r : ℕ × Bool) × (o ≡ some r) × Fits r.0 r.1 × (r.1 ≡ kept)
fitting-some kept none h = cc
fitting-some kept (some (w, writable)) h = (
  (w, writable),
  refl,
  fits_byte-Fits w writable (and-left (fits_byte w writable) _ h),
  same_bool-eq writable kept (and-right (fits_byte w writable) _ h),
)

pub barr_page-Fits :
    (w : ℕ) (writable : Bool)
    → Fits w writable
    → (r : ℕ × Bool) × (barr_page w writable ≡ some r) × Fits r.0 r.1 × (r.1 ≡ only_home w)
barr_page-Fits w writable f = rw (f.noted) (
    fitting-some (only_home w) (barr_page w (w % 2 == 1)) (
      or-right (w % 4 == 1) _ (not_alone w writable f) (every-at 256 barr_ok w barr_table f.small)))

pub clear-Fits :
    (w : ℕ) (writable : Bool)
    → Fits w writable
    → (bit_and w 1 == 0) ≡ false
    → Fits (bit_and w 0xfe) false
clear-Fits w writable f odd =
    fits_byte-Fits (bit_and w 0xfe) false (rw odd at (every-at 256 clear_ok w clear_table f.small))

pub unwritten_byte : (w : ℕ) → w < 256 → (bit_and w 1 == 0) ≡ true → (w % 2 == 1) ≡ false
unwritten_byte w small e =
    let even = rw e at (every-at 256 clear_ok w clear_table small) in ground (arith, even)
