-- ===== src/Syn/Notices/Laws.antt =====
-- A chain of write notices behaves as one list with a notice for each page.
use jiajia.Prelude.{
  ℕ, ◌≤◌, ◌≡◌, refl, ap, sym, ◌∙◌, ◌≢◌, true, false, ◌||◌, List, [], ◌∷◌, ◌++◌, append-nil,
  append_assoc, Option, none, some, if◌then◌else◌, ◌==◌, leb, length, length-append, arith,
}
use mathlib.Core.Option
use jiajia.Constants.{max_wtnts, max_hosts}
use jiajia.Syn.Notices.{
  Notice, Node, Chain, page_of, in_node, in_chain, change_node, change_chain, add_notice, savewtnt,
  notices,
}

-- Every node but the last is full, and the last has room for Maxwtnts at most.
abbrev pub IsPacked : Chain → Type 0
IsPacked [] = Unit {0}
IsPacked (node ∷ []) = length node ≤ max_wtnts
IsPacked (node ∷ next ∷ more) = (length node ≡ max_wtnts) × IsPacked (next ∷ more)

-- No two notices of a list are about one page.
abbrev pub Distinct : List Notice → Type 0
Distinct [] = Unit {0}
Distinct (n ∷ ns) = (in_node n.addr ns ≡ false) × Distinct ns

-- A notice that a second writer of its page has changed.
abbrev pub rewritten : ℕ → ℕ → Notice → Notice
rewritten mig scope n = record n { from = max_hosts; scope = scope; mig = mig }

-- The notice of the page of an address.
unfoldable pub lookup : ℕ → List Notice → Option Notice
lookup addr [] = none
lookup addr (n ∷ ns) = if page_of addr == page_of n.addr then some n else lookup addr ns

pub in_node-append :
    (addr : ℕ) (xs ys : List Notice)
    → in_node addr (xs ++ ys) ≡ (in_node addr xs || in_node addr ys)
unfolding in_node
in_node-append addr [] ys = refl
in_node-append addr (x ∷ xs) ys = ground (arith, in_node-append addr xs ys)

in_chain-notices : (addr : ℕ) (c : Chain) → in_chain addr c ≡ in_node addr (notices c)
unfolding in_chain notices in_node
in_chain-notices addr [] = refl
in_chain-notices addr (node ∷ more) =
    rw (in_node-append addr node (notices more), in_chain-notices addr more)

notices-cons : (node : Node) (c : Chain) → notices (node ∷ c) ≡ node ++ notices c
unfolding notices
notices-cons node c = refl

-- `savewtnt` seen on the flat list.
module _ (addr mig scope : ℕ) where
  change_node-append :
      (xs ys : List Notice)
      → change_node addr mig scope (xs ++ ys) ≡ (
          if in_node addr xs
          then change_node addr mig scope xs ++ ys
          else xs ++ change_node addr mig scope ys)
  unfolding change_node in_node
  change_node-append [] ys = refl
  change_node-append (x ∷ xs) ys = ground (arith, change_node-append xs ys)

  notices-change_chain :
      (c : Chain) → notices (change_chain addr mig scope c) ≡ change_node addr mig scope (notices c)
  unfolding notices change_chain change_node
  notices-change_chain [] = refl
  notices-change_chain (node ∷ more) =
      ground (arith, change_node-append node (notices more), notices-change_chain more)

  length-change_node : (ns : Node) → length (change_node addr mig scope ns) ≡ length ns
  unfolding change_node
  length-change_node [] = refl
  length-change_node (n ∷ ns) = ground (arith, length-change_node ns)

  change_chain-IsPacked : (c : Chain) → IsPacked c → IsPacked (change_chain addr mig scope c)
  unfolding change_chain
  change_chain-IsPacked [] h = tt
  change_chain-IsPacked (node ∷ []) h = ground (arith, length-change_node node)
  change_chain-IsPacked (node ∷ next ∷ more) h =
      ground (arith, length-change_node node, change_chain-IsPacked (next ∷ more) h.1)

  pub in_node-change_node :
      (b : ℕ) (ns : Node) → in_node b (change_node addr mig scope ns) ≡ in_node b ns
  unfolding change_node in_node
  in_node-change_node b [] = refl
  in_node-change_node b (n ∷ ns) = ground (arith, in_node-change_node b ns)

  change_node-Distinct : (ns : Node) → Distinct ns → Distinct (change_node addr mig scope ns)
  unfolding change_node
  change_node-Distinct [] d = tt
  change_node-Distinct (n ∷ ns) d =
      ground (arith, in_node-change_node n.addr ns, change_node-Distinct ns d.1)

module _ (n : Notice) where
  add_notice-full :
      (node : Node) (more : Chain)
      → max_wtnts ≤ length node
      → add_notice n (node ∷ more) ≡ node ∷ add_notice n more
  unfolding add_notice
  add_notice-full node more h =
      let full : leb max_wtnts (length node) ≡ true = ground arith in rw full

  notices-add_notice_last :
      (node : Node) → notices (add_notice n (node ∷ [])) ≡ (node ++ []) ++ (n ∷ [])
  unfolding add_notice notices
  notices-add_notice_last node = ground (arith, append-nil node, append-nil (node ++ (n ∷ [])))

  IsPacked-cons :
      (node : Node) (c : Chain)
      → length node ≡ max_wtnts
      → c ≢ []
      → IsPacked c
      → IsPacked (node ∷ c)
  IsPacked-cons node [] e ne h = absurd (ne refl)
  IsPacked-cons node (next ∷ more) e ne h = (e, h)

  add_notice-ne-nil : (c : Chain) → add_notice n c ≢ []
  unfolding add_notice
  add_notice-ne-nil [] = λ e. cc
  add_notice-ne-nil (node ∷ more) = ground arith

  notices-add_notice : (c : Chain) → IsPacked c → notices (add_notice n c) ≡ notices c ++ (n ∷ [])
  notices-add_notice [] h = unfold notices add_notice in refl
  notices-add_notice (node ∷ []) h = unfold notices in notices-add_notice_last node
  notices-add_notice (node ∷ next ∷ more) h =
      ap notices (add_notice-full node (next ∷ more) (omega arith))
      ∙ notices-cons node (add_notice n (next ∷ more))
      ∙ ap (λ k. node ++ k) (notices-add_notice (next ∷ more) h.1)
      ∙ sym (append_assoc node (notices (next ∷ more)) (n ∷ []))
      ∙ ap (λ k. k ++ (n ∷ [])) (sym (notices-cons node (next ∷ more)))

  add_notice-IsPacked : (c : Chain) → IsPacked c → IsPacked (add_notice n c)
  add_notice-IsPacked [] h = unfold add_notice in omega arith
  add_notice-IsPacked (node ∷ []) h =
      unfold add_notice in ground (arith, length-append node (n ∷ []))
  add_notice-IsPacked (node ∷ next ∷ more) h =
      rw (add_notice-full node (next ∷ more) (omega arith)) (
        IsPacked-cons node (add_notice n (next ∷ more)) h.0 (add_notice-ne-nil (next ∷ more))
          (add_notice-IsPacked (next ∷ more) h.1))

  Distinct-append :
      (xs : List Notice) → in_node n.addr xs ≡ false → Distinct xs → Distinct (xs ++ (n ∷ []))
  unfolding in_node
  Distinct-append [] e d = (refl, tt)
  Distinct-append (x ∷ xs) e d =
      ground (arith, in_node-append x.addr xs (n ∷ []), Distinct-append xs)

module _ (c : Chain) (addr mig frompid scope : ℕ) where
  abbrev fresh : Notice
  fresh = record { addr = addr; from = frompid; scope = scope; mig = mig }

  pub savewtnt_flat :
      IsPacked c
      → notices (savewtnt c addr mig frompid scope) ≡ (
          if in_node addr (notices c)
          then change_node addr mig scope (notices c)
          else notices c ++ (fresh ∷ []))
  unfolding savewtnt
  savewtnt_flat h = ground (
    arith,
    in_chain-notices addr c,
    notices-change_chain addr mig scope c,
    notices-add_notice fresh c h,
  )

  -- On a chain whose nodes are full but for the last, and which has at most one notice for a
  -- page, `savewtnt` keeps both.
  pub savewtnt_keeps :
      IsPacked c
      → Distinct (notices c)
      → IsPacked (savewtnt c addr mig frompid scope)
        × Distinct (notices (savewtnt c addr mig frompid scope))
  savewtnt_keeps h d = (
    unfold savewtnt in
        ground (arith, change_chain-IsPacked addr mig scope c h, add_notice-IsPacked fresh c h),
    rw (savewtnt_flat h) (
        ground (
          arith,
          change_node-Distinct addr mig scope (notices c) d,
          Distinct-append fresh (notices c),
        )),
  )

lookup-change_node :
    (addr mig scope b : ℕ) (ns : List Notice)
    → lookup b (change_node addr mig scope ns) ≡ (
        if page_of b == page_of addr
        then Option.map (rewritten mig scope) (lookup addr ns)
        else lookup b ns)
unfolding lookup change_node
lookup-change_node addr mig scope b [] = ground arith
lookup-change_node addr mig scope b (n ∷ ns) =
    ground (arith, lookup-change_node addr mig scope b ns)

lookup-append :
    (n : Notice) (b : ℕ) (xs : List Notice)
    → lookup b (xs ++ (n ∷ []))
      ≡ (if in_node b xs then lookup b xs else if page_of b == page_of n.addr then some n else none)
unfolding lookup in_node
lookup-append n b [] = refl
lookup-append n b (x ∷ xs) = ground (arith, lookup-append n b xs)

lookup-absent : (b : ℕ) (xs : List Notice) → in_node b xs ≡ false → lookup b xs ≡ none
unfolding lookup in_node
lookup-absent b [] e = refl
lookup-absent b (x ∷ xs) e = ground (arith, lookup-absent b xs)

pub in_node-page :
    (a b : ℕ) (xs : List Notice) → page_of a ≡ page_of b → in_node a xs ≡ in_node b xs
unfolding in_node
in_node-page a b [] e = refl
in_node-page a b (x ∷ xs) e = ground (arith, in_node-page a b xs e)

-- What a lookup finds after `savewtnt` on a chain whose nodes are full but for the last: for the
-- page of the address, the notice given, if there was none, and otherwise the old one with Maxhosts
-- as the writer and the new scope and mig; for every other page what it found before.
pub lookup-savewtnt :
    (c : Chain) (addr mig frompid scope b : ℕ)
    → IsPacked c
    → lookup b (notices (savewtnt c addr mig frompid scope)) ≡ (
        if page_of b == page_of addr
        then if in_chain addr c
          then Option.map (rewritten mig scope) (lookup addr (notices c))
          else some (record { addr = addr; from = frompid; scope = scope; mig = mig })
        else lookup b (notices c))
lookup-savewtnt c addr mig frompid scope b h = rw (savewtnt_flat c addr mig frompid scope h) (
    ground (
      arith,
      in_chain-notices addr c,
      lookup-change_node addr mig scope b (notices c),
      lookup-append (record { addr = addr; from = frompid; scope = scope; mig = mig }) b
          (notices c),
      lookup-absent b (notices c),
      in_node-page b addr (notices c),
    ))
