-- ===== src/Mem/Invalid/Marks.antt =====
-- What the notices of a lock's ACQGRANT and INVLD messages do to the cache of the host that gets them.
use jiajia.Prelude.{
  ℕ, zero, suc, ◌^◌, ◌≤◌, ◌<◌, ◌≡◌, refl, ap, ap₂, ◌∙◌, sym, arith, Bool, true, false, ◌&&◌, ◌||◌,
  not, some, List, [], ◌∷◌, ◌++◌, if◌then◌else◌, ◌==◌, ltb, update, update_ne, drop, length,
  length-append, All, Bool-cases, inl, inr,
}
use jiajia.Prelude.Bytes.{le_bytes, read_le, length-le_bytes, read_le-le_bytes, drop-le_bytes}
use jiajia.Constants.{cache_pages, hidelock}
use jiajia.Msg.Types.{JiaMsg}
use jiajia.Syn.Notices.{Notice}
use jiajia.Syn.Notices.Pack.{◌>>=◌}
use jiajia.Syn.Notices.Pack.Uniform.{encode, triple, length-triple}
use jiajia.Mem.Cache.{PageState, inv, is_inv, page_index}
use jiajia.Mem.Invalid.{Memory, drop_cached, inval_one, inval_loop, invalidate}

-- A notice as it is on the wire.
abbrev pub Fits : Notice → Type 0
Fits n = (n.addr < 2 ^ 64) × (n.from < 2 ^ 32) × (n.mig < 2 ^ 32)

if_apply :
    {A B : Type 0} (f : A → B) (b : Bool) (x y : A)
    → f (if b then x else y) ≡ (if b then f x else f y)
if_apply f true x y = refl
if_apply f false x y = refl

if_same : {A : Type 0} (b : Bool) (x : A) → (if b then x else x) ≡ x
if_same true x = refl
if_same false x = refl

inv_of : (p : PageState) → is_inv p ≡ true → p ≡ inv
inv_of p e = ground arith

-- The entry c becomes INV, or is INV already.
state_lem :
    (p q r : Bool) (state : ℕ → PageState) (c i : ℕ)
    → (if not p && (not q && (r && not (is_inv (state c)))) then update state c inv i else state i)
      ≡ (if not p && (not q && (r && c == i)) then inv else state i)
state_lem true q r state c i = refl
state_lem false true r state c i = refl
state_lem false false false state c i = refl
state_lem false false true state c i = elim (Bool-cases (c == i)) [
  | inl e ↦
      let here : c ≡ i = ground arith in
      elim (Bool-cases (is_inv (state c))) [
        | inl m ↦ let at : state i ≡ inv = ap state (sym here) ∙ inv_of (state c) m in rw (m, e) at
        | inr m ↦ rw (m, e) (ground arith)
      ]
  | inr e ↦
      rw (e, update_ne state c inv i (ground arith)) (if_same (not (is_inv (state c))) (state i))
]

length-encode : (ns : List Notice) → length ns ≤ length (encode triple ns)
unfolding encode
length-encode [] = omega arith
length-encode (n ∷ ns) =
    omega (arith, length-append (triple n) (encode triple ns), length-triple n, length-encode ns)

either :
    (a b : Bool) (s : PageState)
    → (if b then inv else (if a then inv else s)) ≡ (if a || b then inv else s)
either true true s = refl
either true false s = refl
either false b s = refl

module _ (jia_pid start : ℕ) where
  -- The notice is of another host, about a page that is not at home here and is in entry i.
  abbrev pub named : Memory → Notice → ℕ → Bool
  named m n i =
      not (n.from == jia_pid)
      && (not (m.homepid (page_index start n.addr) == jia_pid)
          && (ltb (m.cache.cachei (page_index start n.addr)) cache_pages
              && m.cache.cachei (page_index start n.addr) == i))

  abbrev pub any_named : Memory → List Notice → ℕ → Bool
  any_named m [] i = false
  any_named m (n ∷ ns) i = named m n i || any_named m ns i

  drop_cached-state :
      (n : Notice) (m : Memory) (i : ℕ)
      → (drop_cached jia_pid start n.addr n.from m).cache.state i
        ≡ (if named m n i then inv else m.cache.state i)
  unfolding drop_cached
  drop_cached-state n m i =
      let c = m.cache in
      let at = c.cachei (page_index start n.addr) in
      if_apply (λ (x : Memory). x.cache.state i)
        (not (n.from == jia_pid)
          && (not (m.homepid (page_index start n.addr) == jia_pid)
              && (ltb at cache_pages && not (is_inv (c.state at)))))
        _ _
      ∙ state_lem (n.from == jia_pid) (m.homepid (page_index start n.addr) == jia_pid)
          (ltb at cache_pages) c.state at i

  drop_cached-rest :
      (n : Notice) (m : Memory)
      → ((drop_cached jia_pid start n.addr n.from m).cache.cachei ≡ m.cache.cachei)
        × ((drop_cached jia_pid start n.addr n.from m).homepid ≡ m.homepid)
  unfolding drop_cached
  drop_cached-rest n m =
      let c = m.cache in
      let at = c.cachei (page_index start n.addr) in
      let b =
        not (n.from == jia_pid)
        && (not (m.homepid (page_index start n.addr) == jia_pid)
            && (ltb at cache_pages && not (is_inv (c.state at)))) in
      (
        if_apply (λ (x : Memory). x.cache.cachei) b _ _ ∙ if_same b _,
        if_apply (λ (x : Memory). x.homepid) b _ _ ∙ if_same b _,
      )

  any_same :
      (m m₁ : Memory) (ns : List Notice) (i : ℕ)
      → m₁.cache.cachei ≡ m.cache.cachei
      → m₁.homepid ≡ m.homepid
      → any_named m₁ ns i ≡ any_named m ns i
  any_same m m₁ [] i c p = refl
  any_same m m₁ (n ∷ ns) i c p =
      ap₂ (λ a b. a || b)
        (ap₂
          (λ (f g : ℕ → ℕ).
            not (n.from == jia_pid)
            && (not (g (page_index start n.addr) == jia_pid)
                && (ltb (f (page_index start n.addr)) cache_pages
                    && f (page_index start n.addr) == i)))
          c p)
        (any_same m m₁ ns i c p)

  inval_one-lock :
      (h_mig ad_wd : Bool) (lock addr modifypid migtag : ℕ) (m : Memory)
      → (lock == hidelock) ≡ false
      → inval_one jia_pid start h_mig ad_wd lock addr modifypid migtag m
        ≡ some (drop_cached jia_pid start addr modifypid m)
  unfolding inval_one
  inval_one-lock true true lock addr modifypid migtag m e = rw e refl
  inval_one-lock true false lock addr modifypid migtag m e = rw e refl
  inval_one-lock false true lock addr modifypid migtag m e = rw e refl
  inval_one-lock false false lock addr modifypid migtag m e = refl

  inval_loop-step :
      (h_mig ad_wd : Bool) (f lock : ℕ) (n : Notice) (more : List ℕ) (m : Memory)
      → Fits n
      → inval_loop jia_pid start h_mig ad_wd (suc f) lock (triple n ++ more) m ≡ (
          inval_one jia_pid start h_mig ad_wd lock n.addr n.from n.mig m
          >>= inval_loop jia_pid start h_mig ad_wd f lock more)
  inval_loop-step h_mig ad_wd f lock n more m fit =
      opened
      ∙ rw
          (
            whole,
            past_addr,
            past_from,
            past_mig,
            read_le-le_bytes 8 n.addr (le_bytes 4 n.from ++ (le_bytes 4 n.mig ++ more)) fit.0,
            read_le-le_bytes 4 n.from (le_bytes 4 n.mig ++ more) fit.1,
            read_le-le_bytes 4 n.mig more fit.2,
          )
          refl
    where
      rest : List ℕ
      rest = triple n ++ more

      opened : inval_loop jia_pid start h_mig ad_wd (suc f) lock rest m ≡ (
          inval_one jia_pid start h_mig ad_wd lock
            (read_le 8 rest)
            (read_le 4 (drop 8 rest))
            (read_le 4 (drop 12 rest))
            m
          >>= inval_loop jia_pid start h_mig ad_wd f lock (drop 16 rest))
      opened = unfold inval_loop le_bytes in refl

      whole :
          read_le 8 rest
          ≡ read_le 8 (le_bytes 8 n.addr ++ (le_bytes 4 n.from ++ (le_bytes 4 n.mig ++ more)))
      whole = unfold le_bytes in refl

      past_addr : drop 8 rest ≡ le_bytes 4 n.from ++ (le_bytes 4 n.mig ++ more)
      past_addr = unfold le_bytes in refl

      past_from : drop 12 rest ≡ le_bytes 4 n.mig ++ more
      past_from = unfold le_bytes in refl

      past_mig : drop 16 rest ≡ more
      past_mig = unfold le_bytes in refl

  loop_lem :
      (h_mig ad_wd : Bool) (f lock : ℕ) (ns : List Notice) (m : Memory)
      → (lock == hidelock) ≡ false
      → All Fits ns
      → length ns < f
      → (m' : Memory) × (inval_loop jia_pid start h_mig ad_wd f lock (encode triple ns) m ≡ some m')
        × ((i : ℕ) → m'.cache.state i ≡ (if any_named m ns i then inv else m.cache.state i))
        × (m'.cache.cachei ≡ m.cache.cachei)
        × (m'.homepid ≡ m.homepid)
  unfolding encode
  loop_lem h_mig ad_wd zero lock ns m e fit h = let bad : ⊥ = omega arith in elim bad [ ]
  loop_lem h_mig ad_wd (suc f) lock [] m e fit h =
      (m, unfold inval_loop in refl, (λ i. refl), refl, refl)
  loop_lem h_mig ad_wd (suc f) lock (n ∷ ns) m e fit h =
      let m₁ = drop_cached jia_pid start n.addr n.from m in
      let (same_cachei, same_homepid) = drop_cached-rest n m in
      let (m', run, states, c, p) = loop_lem h_mig ad_wd f lock ns m₁ e fit.1 (omega arith) in
      (
        m',
        inval_loop-step h_mig ad_wd f lock n (encode triple ns) m fit.0
            ∙ ap (λ o. o >>= inval_loop jia_pid start h_mig ad_wd f lock (encode triple ns))
                (inval_one-lock h_mig ad_wd lock n.addr n.from n.mig m e)
            ∙ run,
        (λ i.
            states i
            ∙ ap₂ (λ b s. if b then inv else s) (any_same m m₁ ns i same_cachei same_homepid)
                (drop_cached-state n m i)
            ∙ either (named m n i) (any_named m ns i) (m.cache.state i)),
        c ∙ same_cachei,
        p ∙ same_homepid,
      )

  -- When the notices of a lock come in with an ACQGRANT or INVLD message, `invalidate` succeeds, and
  -- the cache entries that are INV afterwards are those that were, and those of the pages of notices
  -- of other hosts, where the page is cached and not at home here; every other entry keeps its state.
  pub invalidate_marks :
      (h_mig ad_wd : Bool) (lock : ℕ) (ns : List Notice) (req : JiaMsg) (m : Memory)
      → req.body ≡ le_bytes 4 lock ++ encode triple ns
      → lock < 2 ^ 32
      → (lock == hidelock) ≡ false
      → All Fits ns
      → (m' : Memory) × (invalidate jia_pid start h_mig ad_wd req m ≡ some m')
        × ((i : ℕ) → m'.cache.state i ≡ (if any_named m ns i then inv else m.cache.state i))
        × (m'.cache.cachei ≡ m.cache.cachei)
        × (m'.homepid ≡ m.homepid)
  unfolding invalidate
  invalidate_marks h_mig ad_wd lock ns req m e small other fit =
      let (m', run, states, c, p) =
        loop_lem h_mig ad_wd (length (le_bytes 4 lock ++ encode triple ns)) lock ns m other fit (
          omega (
            arith,
            length-append (le_bytes 4 lock) (encode triple ns),
            length-le_bytes 4 lock,
            length-encode ns,
          )) in
      (
        m',
        rw
            (
              e,
              read_le-le_bytes 4 lock (encode triple ns) small,
              drop-le_bytes 4 lock (encode triple ns),
            )
            run,
        states,
        c,
        p,
      )
