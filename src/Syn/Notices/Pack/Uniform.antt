-- ===== src/Syn/Notices/Pack/Uniform.antt =====
-- The loop where its test is exact: it never overflows a message, and loses no notice.
use jiajia.Prelude.{
  ℕ, ◌+◌, ◌*◌, ◌≤◌, ◌<◌, ◌≡◌, refl, ap, sym, ◌∙◌, Bool, true, false, Option, some, List, [], ◌∷◌,
  ◌++◌, append-nil, append_assoc, ltb, length, length-append, arith, All, Bool-cases, inl, inr,
}
use jiajia.Prelude.Bytes.{le_bytes, length-le_bytes}
use jiajia.Constants.{max_msg_size, max_wtnts}
use jiajia.Msg.Types.{appendmsg, appendmsg-some}
use jiajia.Syn.Notices.{Notice, Node, Chain, notices}
use jiajia.Syn.Notices.Pack.{put_node, append_nodes, put_stack, put_barr}

abbrev pub SmallNodes : Chain → Type 0
SmallNodes = All (λ node. length node ≤ max_wtnts)

module _ (enc : Notice → List ℕ) where
  unfoldable pub encode : List Notice → List ℕ
  encode [] = []
  encode (n ∷ ns) = enc n ++ encode ns

  pub encode-append : (xs ys : List Notice) → encode (xs ++ ys) ≡ encode xs ++ encode ys
  unfolding encode
  encode-append [] ys = refl
  encode-append (x ∷ xs) ys =
      rw (encode-append xs ys) (sym (append_assoc (enc x) (encode xs) (encode ys)))

-- `put` appends the `width` bytes `enc n`, where they fit.
pub record IsPut (width : ℕ) (enc : Notice → List ℕ) (put : List ℕ → Notice → Option (List ℕ))
    : Type 0 where
  pub sized : (n : Notice) → length (enc n) ≡ width
  pub puts :
      (msg : List ℕ) (n : Notice)
      → length msg + width ≤ max_msg_size
      → put msg n ≡ some (msg ++ enc n)
  pub narrow : width ≤ 16

module _ (width : ℕ) (enc : Notice → List ℕ) (put : List ℕ → Notice → Option (List ℕ))
    (p : IsPut width enc put) where
  abbrev pub fits : ℕ → ℕ → Bool
  fits size wtntc = ltb (size + wtntc * width) max_msg_size

  length-encode : (ns : List Notice) → length (encode enc ns) ≡ length ns * width
  unfolding encode
  length-encode [] = omega arith
  length-encode (n ∷ ns) =
      omega (arith, length-append (enc n) (encode enc ns), p.sized n, length-encode ns)

  put_node_lem :
      (msg : List ℕ) (ns : Node)
      → length msg + length ns * width ≤ max_msg_size
      → put_node put msg ns ≡ some (msg ++ encode enc ns)
  unfolding put_node encode
  put_node_lem msg [] h = rw append-nil
  put_node_lem msg (n ∷ ns) h = rw (p.puts msg n (omega arith)) (
      put_node_lem (msg ++ enc n) ns (omega (arith, length-append msg (enc n), p.sized n))
      ∙ ap some (append_assoc msg (enc n) (encode enc ns)))

  -- The first node fits.
  abbrev pub starts : List ℕ → Chain → Bool
  starts msg [] = false
  starts msg (node ∷ more) = fits (length msg) (length node)

  -- What a call has done: some nodes are in the message, the others are left.
  pub record Appended (msg : List ℕ) (c : Chain) : Type 0 where
    pub taken : Chain
    pub left : Chain
    pub split : c ≡ taken ++ left
    pub result : append_nodes fits put msg c ≡ some (msg ++ encode enc (notices taken), left)
    pub bounded : length (msg ++ encode enc (notices taken)) ≤ max_msg_size
    pub moves : starts msg c ≡ true → length left < length c

  pub append_nodes-Appended :
      (msg : List ℕ) (c : Chain) → length msg ≤ max_msg_size → Appended msg c
  unfolding append_nodes notices encode
  append_nodes-Appended msg [] h = record {
    taken = [];
    left = [];
    split = refl;
    result = rw append-nil;
    bounded = rw append-nil h;
    moves = λ e. cc;
  }
  append_nodes-Appended msg (node ∷ more) h = elim (Bool-cases (fits (length msg) (length node))) [
    | inr full ↦ record {
      taken = [];
      left = node ∷ more;
      split = refl;
      result = rw (full, append-nil);
      bounded = rw append-nil h;
      moves = λ e. cc;
    }
    | inl room ↦
        let msg' = msg ++ encode enc node in
        let there : put_node put msg node ≡ some msg' = put_node_lem msg node (ground arith) in
        let ih =
          append_nodes-Appended msg' more
            (ground (arith, length-append msg (encode enc node), length-encode node)) in
        let regroup : msg' ++ encode enc (notices ih.taken)
            ≡ msg ++ encode enc (node ++ notices ih.taken) =
          rw encode-append (append_assoc msg (encode enc node) (encode enc (notices ih.taken))) in
        record {
          taken = node ∷ ih.taken;
          left = ih.left;
          split = ap (◌∷◌ node) ih.split;
          result = rw (room, there) (ih.result ∙ ap (λ d. some (d, ih.left)) regroup);
          bounded = rw (← regroup) ih.bounded;
          moves = λ _. omega (arith, ap length ih.split, length-append ih.taken ih.left);
        }
  ]

abbrev pub pair : Notice → List ℕ
pair n = le_bytes 8 n.addr ++ le_bytes 4 n.mig

pub put_stack-IsPut : IsPut 12 pair put_stack
unfolding put_stack appendmsg
put_stack-IsPut = record {
  sized = λ n. omega (
    arith,
    length-append (le_bytes 8 n.addr) (le_bytes 4 n.mig),
    length-le_bytes 8 n.addr,
    length-le_bytes 4 n.mig,
  );
  puts = λ msg n h. ground (
    arith,
    length-append msg (le_bytes 8 n.addr),
    length-le_bytes 8 n.addr,
    length-le_bytes 4 n.mig,
    append_assoc msg (le_bytes 8 n.addr) (le_bytes 4 n.mig),
  );
  narrow = omega arith;
}

abbrev pub triple : Notice → List ℕ
triple n = le_bytes 8 n.addr ++ (le_bytes 4 n.from ++ le_bytes 4 n.mig)

pub length-triple : (n : Notice) → length (triple n) ≡ 16
length-triple n = omega (
  arith,
  length-append (le_bytes 8 n.addr) (le_bytes 4 n.from ++ le_bytes 4 n.mig),
  length-append (le_bytes 4 n.from) (le_bytes 4 n.mig),
  length-le_bytes 8 n.addr,
  length-le_bytes 4 n.from,
  length-le_bytes 4 n.mig,
)

pub put_barr-some :
    (msg : List ℕ) (n : Notice)
    → length msg + 16 ≤ max_msg_size
    → put_barr msg n ≡ some (msg ++ triple n)
unfolding put_barr
put_barr-some msg n h =
    rw
      (
        appendmsg-some msg a (omega (arith, la)),
        appendmsg-some (msg ++ a) b (omega (arith, la, lb, length-append msg a)),
        appendmsg-some ((msg ++ a) ++ b) c
            (omega (arith, la, lb, lc, length-append msg a, length-append (msg ++ a) b)),
      )
      (simp append_assoc)
  where
    a : List ℕ
    a = le_bytes 8 n.addr

    b : List ℕ
    b = le_bytes 4 n.from

    c : List ℕ
    c = le_bytes 4 n.mig

    la : length a ≡ 8
    la = length-le_bytes 8 n.addr

    lb : length b ≡ 4
    lb = length-le_bytes 4 n.from

    lc : length c ≡ 4
    lc = length-le_bytes 4 n.mig

pub put_barr-IsPut : IsPut 16 triple put_barr
put_barr-IsPut = record { sized = length-triple; puts = put_barr-some; narrow = omega arith }
