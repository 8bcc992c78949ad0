-- ===== src/Mem/Cache/Classes.antt =====
-- How soon `findposition` of src/mem/memsyn.c gives an entry up, by its state, and what taking one does.
use jiajia.Prelude.{
  ℕ, ◌≤◌, ◌<◌, ◌≡◌, refl, arith, true, false, Option, none, some, if◌then◌else◌, ◌==◌, update_self,
  inl, inr, Bool-cases,
}
use jiajia.Mem.Cache.{
  PageState, unmap, inv, ro, rw_, Cache, set_pages, is_unmap, is_inv, is_rw, page_index, flushpage,
  replacei, take_entry,
}

-- How soon a page is given up: UNMAP, INV, then the others.
abbrev pub class : PageState → ℕ
class unmap = 0
class inv = 1
class ro = 2
class rw_ = 2

pub class_unmap : (p : PageState) → is_unmap p ≡ true → class p ≡ 0
class_unmap p e = ground arith

pub class_inv : (p : PageState) → is_inv p ≡ true → class p ≡ 1
class_inv p e = ground arith

pub class_most : (p : PageState) → class p ≤ 2
class_most p = ground arith

pub class_least : (p : PageState) → is_unmap p ≡ false → 1 ≤ class p
class_least p e = ground arith

pub class_last : (p : PageState) → is_unmap p ≡ false → is_inv p ≡ false → class p ≡ 2
class_last p e e' = ground arith

pub replacei_lt :
    (start scheme random base : ℕ) (c : Cache) → (replacei start scheme random base c).0 < set_pages
unfolding replacei
replacei_lt start scheme random base c = elim (Bool-cases (scheme == 0)) [
  | inl e ↦ rw e (omega arith)
  | inr e ↦ rw e (omega arith)
]

pub replacei_state :
    (start scheme random base : ℕ) (c : Cache)
    → (replacei start scheme random base c).1.state ≡ c.state
unfolding replacei
replacei_state start scheme random base c = elim (Bool-cases (scheme == 0)) [
  | inl e ↦ rw e refl
  | inr e ↦ rw e refl
]

-- The result for the entry i of state p: -1 and nothing changed, or i, now of the page and UNMAP.
abbrev pub IsTaken : ℕ → ℕ → PageState → ℕ → Cache → Option ℕ × Cache → Type 0
IsTaken start addr p i c o =
    (o.0 ≡ (if is_rw p then none else some i))
    × (is_rw p ≡ true → o.1 ≡ c)
    × (is_rw p ≡ false → (o.1.cachei (page_index start addr) ≡ i) × (o.1.state i ≡ unmap))

pub take_entry_lem :
    (start addr : ℕ) (p : PageState) (i : ℕ) (c : Cache)
    → c.state i ≡ p
    → IsTaken start addr p i c (take_entry start p addr i c)
unfolding take_entry flushpage
take_entry_lem start addr unmap i c e =
    (refl, (λ h. ground arith), λ h. (update_self c.cachei (page_index start addr) i, e))
take_entry_lem start addr inv i c e = (
  refl,
  (λ h. ground arith),
  λ h. (
    update_self (flushpage start i c).cachei (page_index start addr) i,
    update_self c.state i unmap,
  ),
)
take_entry_lem start addr ro i c e = (
  refl,
  (λ h. ground arith),
  λ h. (
    update_self (flushpage start i c).cachei (page_index start addr) i,
    update_self c.state i unmap,
  ),
)
take_entry_lem start addr rw_ i c e = (refl, (λ h. refl), λ h. ground arith)
