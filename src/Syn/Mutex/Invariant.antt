-- ===== src/Syn/Mutex/Invariant.antt =====
-- The hosts' places against the queue of the lock's home.
use jiajia.Prelude.{
  ℕ, zero, suc, ◌+◌, ◌<◌, ◌≤◌, ◌≡◌, ◌≢◌, refl, ap, ◌∙◌, sym, arith, subst, Bool, true, false, List,
  [], ◌∷◌, ◌++◌, if◌then◌else◌, ◌==◌, ltb, update, update_ne, update_each, length, inl, inr,
  Bool-cases,
}
use jiajia.Syn.Server.Queue.{grant_alone, grant_head}
use jiajia.Syn.Mutex.{Pc, out, asked, queued, granted, inside, leaving, granting}

-- The home has the host's request; and the lock is the host's.
abbrev pub waits : Pc → Bool
waits out = false
waits asked = false
waits queued = true
waits granted = true
waits inside = true
waits leaving = true

abbrev pub holds : Pc → Bool
holds out = false
holds asked = false
holds queued = false
holds granted = true
holds inside = true
holds leaving = true

abbrev pub count : ℕ → List (ℕ × ℕ) → ℕ
count p [] = 0
count p (h ∷ q) = (if p == h.0 then 1 else 0) + count p q

abbrev pub is_first : ℕ → List (ℕ × ℕ) → Bool
is_first p [] = false
is_first p (h ∷ q) = p == h.0

-- A host is in the queue once or not at all, as its place says, and the first one holds the lock.
pub record Inv (hostc : ℕ) (q : List (ℕ × ℕ)) (pc : ℕ → Pc) : Type 0 where
  pub once : (p : ℕ) → count p q ≡ (if waits (pc p) then 1 else 0)
  pub holder : (p : ℕ) → holds (pc p) ≡ is_first p q
  pub known : (p : ℕ) → hostc ≤ p → pc p ≡ out

count-append :
    (p : ℕ) (q : List (ℕ × ℕ)) (h : ℕ × ℕ)
    → count p (q ++ (h ∷ [])) ≡ count p q + (if p == h.0 then 1 else 0)
count-append p [] h = omega arith
count-append p (x ∷ q) h = omega (arith, count-append p q h)

module _ (hostc : ℕ) (q : List (ℕ × ℕ)) (pc : ℕ → Pc) (inv : Inv hostc q pc) where
  -- A host moves without passing a border of `waits` or `holds`.
  pub Inv-move :
      (p : ℕ) (place : Pc)
      → p < hostc
      → waits place ≡ waits (pc p)
      → holds place ≡ holds (pc p)
      → Inv hostc q (update pc p place)
  Inv-move p place lt w h = record {
    once =
        update_each (λ p' c. count p' q ≡ (if waits c then 1 else 0)) pc p place
          (inv.once p ∙ ap (λ b. if b then 1 else 0) (sym w)) (λ p' ne. inv.once p');
    holder =
        update_each (λ p' c. holds c ≡ is_first p' q) pc p place (h ∙ inv.holder p)
          (λ p' ne. inv.holder p');
    known =
        update_each (λ p' c. hostc ≤ p' → c ≡ out) pc p place (λ le. ground arith)
          (λ p' ne. inv.known p');
  }

same : (p : ℕ) → (p == p) ≡ true
same p = ground arith

other : (p q : ℕ) → p ≢ q → (p == q) ≡ false
other p q ne = ground arith

count_rest :
    (p sc p' : ℕ) (rest : List (ℕ × ℕ)) → p' ≢ p → count p' rest ≡ count p' ((p, sc) ∷ rest)
count_rest p sc p' rest ne = ground arith

one_or_none : (b : Bool) (n : ℕ) → 1 + n ≡ (if b then 1 else 0) → n ≡ 0
one_or_none true n e = omega arith
one_or_none false n e = omega arith

count_others : (p' p n : ℕ) → p' ≢ p → n + (if p' == p then 1 else 0) ≡ n
count_others p' p n ne = ground arith

at_most :
    (a n : ℕ) (c b : Bool)
    → c ≡ true
    → a + ((if c then 1 else 0) + n) ≡ (if b then 1 else 0)
    → (if c then 1 else 0) + n ≡ 1
at_most a n true true e h = omega arith
at_most a n true false e h = omega arith
at_most a n false b e h = ground arith

never : (a n : ℕ) (c : Bool) → c ≡ true → a + ((if c then 1 else 0) + n) ≡ 0 → granted ≡ out
never a n true e h = ground arith
never a n false e h = ground arith

Inv-known :
    (hostc : ℕ) (q : List (ℕ × ℕ)) (pc : ℕ → Pc) (p : ℕ)
    → Inv hostc q pc
    → waits (pc p) ≡ false
    → count p q ≡ 0
Inv-known hostc q pc p inv e = inv.once p ∙ ap (λ b. if b then 1 else 0) e

-- The host's request joins the queue, and is granted if it is alone.
pub Inv-queue :
    (hostc lock : ℕ) (q : List (ℕ × ℕ)) (pc : ℕ → Pc) (p sc : ℕ)
    → Inv hostc q pc
    → p < hostc
    → pc p ≡ asked
    → Inv hostc (q ++ ((p, sc) ∷ [])) (granting (grant_alone lock q (p, sc)) (update pc p queued))
Inv-queue hostc lock [] pc p sc inv lt here = record {
  once =
      update_each (λ p' c. count p' ((p, sc) ∷ []) ≡ (if waits c then 1 else 0))
        (update pc p queued) p granted (ground arith)
        (λ p' ne. rw (update_ne pc p queued p' ne, other p' p ne) (inv.once p'));
  holder =
      update_each (λ p' c. holds c ≡ is_first p' ((p, sc) ∷ [])) (update pc p queued) p granted
        (sym (same p)) (λ p' ne. rw (update_ne pc p queued p' ne, other p' p ne) (inv.holder p'));
  known =
      update_each (λ p' c. hostc ≤ p' → c ≡ out) (update pc p queued) p granted (λ le. ground arith)
        (λ p' ne le. rw (update_ne pc p queued p' ne) (inv.known p' le));
}
Inv-queue hostc lock (x ∷ q) pc p sc inv lt here = record {
  once =
      update_each (λ p' c. count p' (x ∷ q ++ ((p, sc) ∷ [])) ≡ (if waits c then 1 else 0)) pc p
        queued
        (let none : count p (x ∷ q) ≡ 0 = Inv-known hostc (x ∷ q) pc p inv (ap waits here) in
          ground (arith, count-append p q (p, sc), none))
        (λ p' ne.
          count-append p' (x ∷ q) (p, sc) ∙ count_others p' p (count p' (x ∷ q)) ne ∙ inv.once p');
  holder =
      update_each (λ p' c. holds c ≡ is_first p' (x ∷ q)) pc p queued
        (sym (ap holds here) ∙ inv.holder p) (λ p' ne. inv.holder p');
  known =
      update_each (λ p' c. hostc ≤ p' → c ≡ out) pc p queued (λ le. ground arith)
        (λ p' ne. inv.known p');
}

-- The first host's request leaves the queue.
pub Inv-release :
    (hostc lock : ℕ) (rest : List (ℕ × ℕ)) (pc : ℕ → Pc) (p sc : ℕ)
    → Inv hostc ((p, sc) ∷ rest) pc
    → Inv hostc rest (granting (grant_head lock rest) (update pc p out))
Inv-release hostc lock [] pc p sc inv = record {
  once =
      update_each (λ p' c. count p' [] ≡ (if waits c then 1 else 0)) pc p out refl
        (λ p' ne. count_rest p sc p' [] ne ∙ inv.once p');
  holder =
      update_each (λ p' c. holds c ≡ false) pc p out refl (λ p' ne. inv.holder p' ∙ other p' p ne);
  known = update_each (λ p' c. hostc ≤ p' → c ≡ out) pc p out (λ le. refl) (λ p' ne. inv.known p');
}
Inv-release hostc lock (x ∷ rest) pc p sc inv = record {
  once =
      update_each (λ p' c. count p' (x ∷ rest) ≡ (if waits c then 1 else 0)) (update pc p out) x.0
        granted (at_most _ _ _ _ (same x.0) (inv.once x.0))
        (λ p' ne.
          update_each (λ p' c. count p' (x ∷ rest) ≡ (if waits c then 1 else 0)) pc p out
            (one_or_none _ _
              (ap (λ b. (if b then 1 else 0) + count p (x ∷ rest)) (sym (same p)) ∙ inv.once p))
            (λ p' ne. count_rest p sc p' (x ∷ rest) ne ∙ inv.once p') p');
  holder =
      update_each (λ p' c. holds c ≡ is_first p' (x ∷ rest)) (update pc p out) x.0 granted
        (sym (same x.0))
        (λ p' ne.
          update_each (λ p' c. p' ≢ x.0 → holds c ≡ is_first p' (x ∷ rest)) pc p out
            (λ ne. sym (other p x.0 ne))
            (λ p' ne' ne. inv.holder p' ∙ other p' p ne' ∙ sym (other p' x.0 ne)) p' ne);
  known =
      update_each (λ p' c. hostc ≤ p' → c ≡ out) (update pc p out) x.0 granted
        (λ le.
          never _ _ _ (same x.0)
            (Inv-known hostc ((p, sc) ∷ x ∷ rest) pc x.0 inv (ap waits (inv.known x.0 le))))
        (update_each (λ p' c. p' ≢ x.0 → hostc ≤ p' → c ≡ out) pc p out (λ ne le. refl)
          (λ p' ne' ne. inv.known p'));
}

-- How many requests are of hosts below n.
total : ℕ → List (ℕ × ℕ) → ℕ
total zero q = 0
total (suc n) q = count n q + total n q

total-cons :
    (n : ℕ) (h : ℕ × ℕ) (q : List (ℕ × ℕ))
    → total n (h ∷ q) ≡ (if ltb h.0 n then 1 else 0) + total n q
unfolding total
total-cons zero h q = ground arith
total-cons (suc n) h q = ground (arith, total-cons n h q)

total-nil : (n : ℕ) → total n [] ≡ 0
unfolding total
total-nil zero = refl
total-nil (suc n) = omega (arith, total-nil n)

length-total : (n : ℕ) (q : List (ℕ × ℕ)) → ((p : ℕ) → n ≤ p → count p q ≡ 0) → length q ≡ total n q
length-total n [] h = sym (total-nil n)
length-total n (x ∷ q) h =
    let below : ltb x.0 n ≡ true = elim (Bool-cases (ltb x.0 n)) [
      | inl e ↦ e
      | inr e ↦ let none : count x.0 (x ∷ q) ≡ 0 = h x.0 (ground arith) in ground arith
    ] in
    let rest : length q ≡ total n q =
      length-total n q (λ p le. let none : count p (x ∷ q) ≡ 0 = h p le in ground arith) in
    ground (arith, total-cons n x q, below, rest)

total_most : (n : ℕ) (q : List (ℕ × ℕ)) → ((p : ℕ) → count p q ≤ 1) → total n q ≤ n
unfolding total
total_most zero q h = omega arith
total_most (suc n) q h = omega (arith, h n, total_most n q h)

total_less :
    (n p : ℕ) (q : List (ℕ × ℕ)) → ((p : ℕ) → count p q ≤ 1) → p < n → count p q ≡ 0 → total n q < n
unfolding total
total_less zero p q h lt e = omega arith
total_less (suc n) p q h lt e = elim (Bool-cases (p == n)) [
  | inl same ↦
      let here : count n q ≡ 0 = subst (λ k. count k q ≡ 0) (ground arith) e in
      omega (arith, here, total_most n q h)
  | inr differ ↦ omega (arith, h n, total_less n p q h (ground arith) e)
]

bit_most : (b : Bool) (n : ℕ) → n ≡ (if b then 1 else 0) → n ≤ 1
bit_most true n e = omega arith
bit_most false n e = omega arith

-- The queue has an entry for each host at most, and room for one that asks.
pub Inv-length :
    (hostc : ℕ) (q : List (ℕ × ℕ)) (pc : ℕ → Pc) (p : ℕ)
    → Inv hostc q pc
    → p < hostc
    → pc p ≡ asked
    → length q < hostc
Inv-length hostc q pc p inv lt here =
    rw (length-total hostc q (λ p' le. Inv-known hostc q pc p' inv (ap waits (inv.known p' le)))) (
      total_less hostc p q (λ p'. bit_most _ _ (inv.once p')) lt
        (Inv-known hostc q pc p inv (ap waits here)))
