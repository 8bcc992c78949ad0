-- ===== src/Syn/Notices/Pack.antt =====
-- `appendstackwtnts`, `appendbarrwtnts` and `appendlockwtnts` of src/syn/syn.c: as many nodes of a
-- chain as fit into a message.
pub mod Uniform
pub mod Locks
use jiajia.Prelude.{
  ℕ, ◌+◌, ◌*◌, ◌%◌, ◌^◌, Bool, ◌&&◌, not, Option, none, some, List, [], ◌∷◌, if◌then◌else◌, ◌==◌,
  ltb, length,
}
use jiajia.Prelude.Bytes.{le_bytes}
use jiajia.Constants.{int_bytes, ptr_bytes, max_msg_size}
use jiajia.Msg.Types.{appendmsg}
use jiajia.Syn.Notices.{Notice, Node, Chain}

infixl 5 ◌>>=◌
abbrev pub ◌>>=◌ : {A B : Type 0} → Option A → (A → Option B) → Option B
none >>= f = none
some a >>= f = f a

-- The loop that the three functions share: `fits size wtntc` is its test, `put` what it does for a
-- notice. The result is the message and the first node that did not fit.
module _ (put : List ℕ → Notice → Option (List ℕ)) where
  unfoldable pub put_node : List ℕ → Node → Option (List ℕ)
  put_node msg [] = some msg
  put_node msg (n ∷ ns) = put msg n >>= λ m. put_node m ns

module _ (fits : ℕ → ℕ → Bool) (put : List ℕ → Notice → Option (List ℕ)) where
  unfoldable pub append_nodes : List ℕ → Chain → Option (List ℕ × Chain)
  append_nodes msg [] = some (msg, [])
  append_nodes msg (node ∷ more) =
      let filled = put_node put msg node >>= λ m. append_nodes m more in
      if fits (length msg) (length node) then filled else some (msg, node ∷ more)

unfoldable pub put_stack : List ℕ → Notice → Option (List ℕ)
put_stack msg n = do
  m ← appendmsg msg (le_bytes ptr_bytes n.addr)
  appendmsg m (le_bytes int_bytes n.mig)

abbrev pub fits_stack : ℕ → ℕ → Bool
fits_stack size wtntc = ltb (size + wtntc * (int_bytes + ptr_bytes)) max_msg_size

unfoldable pub appendstackwtnts : List ℕ → Chain → Option (List ℕ × Chain)
appendstackwtnts = append_nodes fits_stack put_stack

unfoldable pub put_barr : List ℕ → Notice → Option (List ℕ)
put_barr msg n = do
  m ← appendmsg msg (le_bytes ptr_bytes n.addr)
  m' ← appendmsg m (le_bytes int_bytes n.from)
  appendmsg m' (le_bytes int_bytes n.mig)

abbrev pub fits_barr : ℕ → ℕ → Bool
fits_barr size wtntc = ltb (size + wtntc * (2 * int_bytes + ptr_bytes)) max_msg_size

unfoldable pub appendbarrwtnts : List ℕ → Chain → Option (List ℕ × Chain)
appendbarrwtnts = append_nodes fits_barr put_barr

-- `a < b` for two `int`s as 32-bit patterns.
abbrev pub signed_ltb : ℕ → ℕ → Bool
signed_ltb a b = ltb ((a + 2 ^ 31) % 2 ^ 32) ((b + 2 ^ 31) % 2 ^ 32)

-- `homehost` is the page table's column `homepid`.
module _ (homehost : ℕ → ℕ) (topid acqscope : ℕ) where
  -- The notice is newer than the acquirer's scope, and the page is not at home there.
  abbrev pub wanted : Notice → Bool
  wanted n = signed_ltb acqscope n.scope && not (homehost n.addr == topid)

  unfoldable pub put_lock : List ℕ → Notice → Option (List ℕ)
  unfolding put_barr
  put_lock msg n = if wanted n then put_barr msg n else some msg

  abbrev pub fits_lock : ℕ → ℕ → Bool
  fits_lock size wtntc = ltb (size + (2 * int_bytes + wtntc * ptr_bytes)) max_msg_size

  unfoldable pub appendlockwtnts : List ℕ → Chain → Option (List ℕ × Chain)
  appendlockwtnts = append_nodes fits_lock put_lock
