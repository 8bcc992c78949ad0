-- ===== src/Syn/Notices/Send/Record.antt =====
-- What the home of a lock records of the notices that `sendwtnts` sent.
use jiajia.Prelude.{
  ℕ, zero, suc, ◌%◌, ◌^◌, ◌≤◌, ◌<◌, ◌≡◌, refl, ap, ◌∙◌, List, [], ◌∷◌, ◌++◌, append_assoc, length,
  length-append, arith, All, drop,
}
use jiajia.Prelude.Bytes.{le_bytes, read_le, length-le_bytes, read_le-le_bytes, drop-le_bytes}
use jiajia.Msg.Types.{JiaMsg}
use jiajia.Syn.Notices.{Notice, Chain, savewtnt}
use jiajia.Syn.Notices.Pack.Uniform.{encode, pair}
use jiajia.Syn.Notices.Send.{record_loop, recordwtnts}

-- The notices saved one by one, each with the low 32 bits of its address where its `mig` belongs.
pub saved : ℕ → ℕ → List Notice → Chain → Chain
saved frompid scope [] c = c
saved frompid scope (n ∷ ns) c =
    saved frompid scope ns (savewtnt c n.addr (n.addr % 2 ^ 32) frompid scope)

low_bytes : (a : ℕ) (more : List ℕ) → read_le 4 (le_bytes 8 a ++ more) ≡ a % 2 ^ 32
unfolding read_le le_bytes
low_bytes a more = omega arith

record_step :
    (frompid scope f a mig : ℕ) (more : List ℕ) (c : Chain)
    → a < 2 ^ 64
    → record_loop frompid scope (suc f) (le_bytes 8 a ++ (le_bytes 4 mig ++ more)) c
      ≡ record_loop frompid scope f more (savewtnt c a (a % 2 ^ 32) frompid scope)
record_step frompid scope f a mig more c h =
    opened
    ∙ rw
        (
          read_le-le_bytes 8 a (le_bytes 4 mig ++ more) h,
          low_bytes a (le_bytes 4 mig ++ more),
          past,
        )
        refl
  where
    entry : List ℕ
    entry = le_bytes 8 a ++ (le_bytes 4 mig ++ more)

    opened :
        record_loop frompid scope (suc f) entry c
        ≡ record_loop frompid scope f
            (drop 12 entry)
            (savewtnt c (read_le 8 entry) (read_le 4 entry) frompid scope)
    opened = unfold record_loop le_bytes in refl

    past : drop 12 entry ≡ more
    past = unfold le_bytes in refl

record_loop-encode :
    (frompid scope f : ℕ) (ns : List Notice) (c : Chain)
    → All (λ n. n.addr < 2 ^ 64) ns
    → length ns < f
    → record_loop frompid scope f (encode pair ns) c ≡ saved frompid scope ns c
unfolding saved encode
record_loop-encode frompid scope zero ns c small h = absurd (omega arith)
record_loop-encode frompid scope (suc f) [] c small h = unfold record_loop in refl
record_loop-encode frompid scope (suc f) (n ∷ ns) c small h =
    ap (λ b. record_loop frompid scope (suc f) b c)
      (append_assoc (le_bytes 8 n.addr) (le_bytes 4 n.mig) (encode pair ns))
    ∙ record_step frompid scope f n.addr n.mig (encode pair ns) c small.0
    ∙ record_loop-encode frompid scope f ns (savewtnt c n.addr (n.addr % 2 ^ 32) frompid scope)
        small.1 (omega arith)

length-encode-le : (ns : List Notice) → length ns ≤ length (encode pair ns)
unfolding encode
length-encode-le [] = omega arith
length-encode-le (n ∷ ns) = omega (
  arith,
  length-append (pair n) (encode pair ns),
  length-append (le_bytes 8 n.addr) (le_bytes 4 n.mig),
  length-le_bytes 8 n.addr,
  length-encode-le ns,
)

-- `recordwtnts` saves the notices that a message carries for its lock, once and in order, for
-- 64-bit addresses; but as the `mig` of each it takes the low 32 bits of the address, and not the
-- `mig` that was sent.
pub recordwtnts_saves :
    (wtntp : ℕ → Chain) (scope : ℕ → ℕ) (req : JiaMsg) (lock : ℕ) (ns : List Notice)
    → req.body ≡ le_bytes 4 lock ++ encode pair ns
    → lock < 2 ^ 32
    → All (λ n. n.addr < 2 ^ 64) ns
    → recordwtnts wtntp scope req ≡ saved req.frompid (scope lock) ns (wtntp lock)
unfolding recordwtnts
recordwtnts_saves wtntp scope req lock ns e h small =
    rw (e, read_le-le_bytes 4 lock (encode pair ns) h, drop-le_bytes 4 lock (encode pair ns))
      (record_loop-encode req.frompid (scope lock) (length (le_bytes 4 lock ++ encode pair ns)) ns
        (wtntp lock) small
        (omega (
          arith,
          length-append (le_bytes 4 lock) (encode pair ns),
          length-le_bytes 4 lock,
          length-encode-le ns,
        )))
