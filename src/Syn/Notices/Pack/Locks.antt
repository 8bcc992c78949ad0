-- ===== src/Syn/Notices/Pack/Locks.antt =====
-- `appendlockwtnts`: its test leaves out that a notice takes 16 bytes, and not 8.
use jiajia.Prelude.{
  ℕ, ◌+◌, ◌*◌, ◌≤◌, ◌<◌, ◌≡◌, refl, ap, sym, ◌∙◌, true, none, some, List, [], ◌∷◌, ◌++◌, append-nil,
  append_assoc, if◌then◌else◌, ltb, length, length-append, arith, All, Bool-cases, inl, inr, dec_lt,
}
use jiajia.Constants.{max_msg_size}
use jiajia.Msg.Types.{appendmsg}
use jiajia.Prelude.Bytes.{le_bytes, length-le_bytes}
use jiajia.Syn.Notices.{Notice, Node, Chain, notices}
use jiajia.Syn.Notices.Pack.{put_node, append_nodes, put_barr, put_lock, wanted, appendlockwtnts}
use jiajia.Syn.Notices.Pack.Uniform.{encode, encode-append, triple, length-triple, put_barr-some}

put_barr-none : (msg : List ℕ) (n : Notice) → max_msg_size < length msg + 16 → put_barr msg n ≡ none
unfolding put_barr appendmsg
put_barr-none msg n h = ground (
  arith,
  length-append msg (le_bytes 8 n.addr),
  length-append (msg ++ le_bytes 8 n.addr) (le_bytes 4 n.from),
  length-le_bytes 8 n.addr,
  length-le_bytes 4 n.from,
  length-le_bytes 4 n.mig,
)

module _ (homehost : ℕ → ℕ) (topid acqscope : ℕ) where
  -- The notices of a list that the acquirer is sent.
  unfoldable pub chosen : List Notice → List Notice
  chosen [] = []
  chosen (n ∷ ns) = if wanted homehost topid acqscope n then n ∷ chosen ns else chosen ns

  put_node-overflow :
      (msg : List ℕ) (ns : Node)
      → All (λ n. wanted homehost topid acqscope n ≡ true) ns
      → length msg ≤ max_msg_size
      → max_msg_size < length msg + 16 * length ns
      → put_node (put_lock homehost topid acqscope) msg ns ≡ none
  unfolding put_node put_lock
  put_node-overflow msg [] w l h = absurd (omega arith)
  put_node-overflow msg (n ∷ ns) w l h = elim (dec_lt max_msg_size (length msg + 16)) [
    | yes over ↦ rw (w.0, put_barr-none msg n over)
    | no fits ↦
        rw (w.0, put_barr-some msg n (omega arith))
          (put_node-overflow (msg ++ triple n) ns w.1
            (omega (arith, length-append msg (triple n), length-triple n))
            (omega (arith, length-append msg (triple n), length-triple n)))
  ]

  -- If all notices of a node are to be sent, and the message's size lies in the gap that the test
  -- leaves open, the test passes and an assertion stops the system.
  pub appendlockwtnts_overflow :
      (msg : List ℕ) (node : Node) (more : Chain)
      → All (λ n. wanted homehost topid acqscope n ≡ true) node
      → length msg + (8 + 8 * length node) < max_msg_size
      → max_msg_size < length msg + 16 * length node
      → appendlockwtnts homehost topid acqscope msg (node ∷ more) ≡ none
  unfolding appendlockwtnts append_nodes
  appendlockwtnts_overflow msg node more w under over =
      let passes : ltb (length msg + (8 + length node * 8)) max_msg_size ≡ true = ground arith in
      rw (passes, put_node-overflow msg node w (omega arith) over)

  put_node-chosen :
      (msg : List ℕ) (ns : Node)
      → length msg + 16 * length ns ≤ max_msg_size
      → put_node (put_lock homehost topid acqscope) msg ns ≡ some (msg ++ encode triple (chosen ns))
  unfolding put_node put_lock chosen encode
  put_node-chosen msg [] h = rw append-nil
  put_node-chosen msg (n ∷ ns) h = elim (Bool-cases (wanted homehost topid acqscope n)) [
    | inl yes_ ↦
        rw (yes_, put_barr-some msg n (omega arith))
          (put_node-chosen (msg ++ triple n) ns
              (omega (arith, length-append msg (triple n), length-triple n))
            ∙ ap some (append_assoc msg (triple n) (encode triple (chosen ns))))
    | inr no_ ↦ rw no_ (put_node-chosen msg ns (omega arith))
  ]

  length-chosen : (ns : List Notice) → length (encode triple (chosen ns)) ≤ 16 * length ns
  unfolding chosen encode
  length-chosen [] = omega arith
  length-chosen (n ∷ ns) = ground (
    arith,
    length-chosen ns,
    length-append (triple n) (encode triple (chosen ns)),
    length-triple n,
  )

  chosen-append : (xs ys : List Notice) → chosen (xs ++ ys) ≡ chosen xs ++ chosen ys
  unfolding chosen
  chosen-append [] ys = refl
  chosen-append (x ∷ xs) ys = ground (arith, chosen-append xs ys)

  -- As long as 16 bytes for every notice of the chain, and 16 more, are free in the message, the
  -- notices that are newer than the acquirer's scope and not at home there go into it, in order, and
  -- no others.
  pub appendlockwtnts_fits :
      (msg : List ℕ) (c : Chain)
      → length msg + 16 * length (notices c) + 16 ≤ max_msg_size
      → appendlockwtnts homehost topid acqscope msg c
        ≡ some (msg ++ encode triple (chosen (notices c)), [])
  unfolding appendlockwtnts append_nodes notices chosen encode
  appendlockwtnts_fits msg [] h = rw append-nil
  appendlockwtnts_fits msg (node ∷ more) h =
      let passes : ltb (length msg + (8 + length node * 8)) max_msg_size ≡ true =
        ground (arith, length-append node (notices more)) in
      rw (passes, put_node-chosen msg node (omega (arith, length-append node (notices more))))
        (appendlockwtnts_fits (msg ++ encode triple (chosen node)) more (
            omega (
              arith,
              length-append node (notices more),
              length-append msg (encode triple (chosen node)),
              length-chosen node,
            ))
          ∙ ap (λ b. some (b, []))
              (append_assoc msg (encode triple (chosen node))
                  (encode triple (chosen (notices more)))
                ∙ ap (λ k. msg ++ k)
                    (sym (
                      ap (encode triple) (chosen-append node (notices more))
                      ∙ encode-append triple (chosen node) (chosen (notices more))))))
