-- ===== src/Syn/User/Tests.antt =====
-- A critical section of host 1 in which a page is written, and the theorem at it.
use jiajia.Prelude.{ℕ, ◌<◌, ◌≡◌, refl, arith, some, List, [], ◌∷◌}
use jiajia.Constants.{hidelock}
use jiajia.Msg.Types.{JiaMsg}
use jiajia.Syn.Notices.{Notice, Chain, notices, savewtnt, in_chain, in_node, add_notice}
use jiajia.Syn.User.{LockStack, Effect, save_all, is_held, puts, jia_lock, jia_unlock}
use jiajia.Syn.User.Section.{section_restores}

abbrev written : Notice
written = record { addr = 8192; from = 1; scope = 16; mig = 0 }

abbrev outside : LockStack
outside = record { lockid = λ _. hidelock; wtntp = λ _. [] ∷ []; depth = 1 }

abbrev inner : Chain
inner = (written ∷ []) ∷ []

inner_saved : save_all ([] ∷ []) (written ∷ []) ≡ inner
unfolding save_all savewtnt in_chain in_node add_notice
inner_saved = refl

section_restores_example :
    (s₁ s₂ : LockStack) × (calls : List Effect) × (ms : List JiaMsg) × (jia_lock 1 4
        (λ _. 0)
        []
        7
        outside
      ≡ some (s₁, calls))
    × (jia_unlock 1 4 3 (λ _. 0) (written ∷ []) 7 s₁ ≡ some (s₂, puts ms))
    × (s₂.depth ≡ 1)
    × ((i : ℕ) → i < 1 → s₂.lockid i ≡ hidelock)
    × (s₂.wtntp 0 ≡ save_all (save_all ([] ∷ []) []) (notices (save_all ([] ∷ []) (written ∷ []))))
    × ((i : ℕ) → i < 0 → s₂.wtntp i ≡ ([] ∷ []))
unfolding is_held save_all savewtnt in_chain in_node add_notice
section_restores_example =
    section_restores 1 4 3 (λ _. 0) [] (written ∷ []) 7 0 (λ _. hidelock) (λ _. [] ∷ []) refl
      (omega arith) refl (omega arith) (omega arith) (omega arith, tt)
