-- ===== src/Msg/Passing/Contents.antt =====
-- The bytes that `nextmsg` of src/msg/msg.c copies from the packets.
use jiajia.Prelude.{
  ℕ, zero, suc, ◌-◌, ◌≡◌, inl, inr, refl, ap, ap₂, sym, ◌∙◌, arith, List, [], ◌∷◌, ◌++◌, append-nil,
  append_assoc, take, min, length, length-append, length-take, take-append, ℕ_discrete, update_self,
  update_ne,
}
use jiajia.Constants.{max_msg_bufs}
use jiajia.Msg.Types.{JiaMsg, errmsg}
use jiajia.Msg.Passing.{clear_packet, copy_packet}
use jiajia.Msg.Passing.Pending.{Among}

-- The bytes of the packets of a list of entries.
abbrev pub contents : (ℕ → JiaMsg) → List ℕ → List ℕ
contents msgbuf [] = []
contents msgbuf (j ∷ js) = (msgbuf j).body ++ contents msgbuf js

pub contents_snoc :
    (msgbuf : ℕ → JiaMsg) (js : List ℕ) (i : ℕ)
    → contents msgbuf (js ++ (i ∷ [])) ≡ contents msgbuf js ++ (msgbuf i).body
contents_snoc msgbuf [] i = append-nil (msgbuf i).body
contents_snoc msgbuf (j ∷ js) i =
    ap (λ b. (msgbuf j).body ++ b) (contents_snoc msgbuf js i)
    ∙ sym (append_assoc (msgbuf j).body (contents msgbuf js) (msgbuf i).body)

pub contents_ext :
    (f g : ℕ → JiaMsg) (js : List ℕ)
    → ((j : ℕ) → Among j js → (f j).body ≡ (g j).body)
    → contents f js ≡ contents g js
contents_ext f g [] same = refl
contents_ext f g (j ∷ js) same =
    ap₂ (λ a b. a ++ b) (same j (inl refl)) (contents_ext f g js (λ x h. same x (inr h)))

clear_packet-body :
    (msgbuf : ℕ → JiaMsg) (i j : ℕ) → (clear_packet msgbuf i j).body ≡ (msgbuf j).body
clear_packet-body msgbuf i j = elim (ℕ_discrete j i) [
  | yes e ↦ rw e (ap (λ m. m.body) (update_self msgbuf i (record (msgbuf i) { op = errmsg })))
  | no ne ↦ rw (update_ne msgbuf i _ j ne) refl
]

-- Clearing a packet leaves the bytes, also those behind the buffer's last entry.
pub contents-clear_packet :
    (msgbuf : ℕ → JiaMsg) (i : ℕ) (js : List ℕ)
    → contents (clear_packet msgbuf i) js ++ (clear_packet msgbuf i max_msg_bufs).body
      ≡ contents msgbuf js ++ (msgbuf max_msg_bufs).body
contents-clear_packet msgbuf i js =
    ap₂ (λ a b. a ++ b)
      (contents_ext (clear_packet msgbuf i) msgbuf js (λ j h. clear_packet-body msgbuf i j))
      (clear_packet-body msgbuf i max_msg_bufs)

take_nil : (k : ℕ) → take {A = ℕ} k [] ≡ []
take_nil zero = refl
take_nil (suc k) = refl

take_more : (k : ℕ) (xs ys : List ℕ) → take k (xs ++ ys) ≡ take k xs ++ take (k - length xs) ys
take_more k [] ys = let e : k - 0 ≡ k = omega arith in rw (take_nil k, e) refl
take_more zero (x ∷ xs) ys = let e : 0 - suc (length xs) ≡ 0 = omega arith in rw e refl
take_more (suc k) (x ∷ xs) ys =
    let e : suc k - suc (length xs) ≡ k - length xs = omega arith in
    rw e (ap (x ∷◌) (take_more k xs ys))

take-min : (k : ℕ) (xs : List ℕ) → take (min (length xs) k) xs ≡ take k xs
take-min zero xs = let e : min (length xs) 0 ≡ 0 = omega arith in rw e refl
take-min (suc k) [] = take_nil (min 0 (suc k))
take-min (suc k) (x ∷ xs) =
    let e : min (suc (length xs)) (suc k) ≡ suc (min (length xs) k) = omega arith in
    rw e (ap (x ∷◌) (take-min k xs))

pub copy_packet-take :
    (len : ℕ) (buf body : List ℕ) → copy_packet len buf body ≡ buf ++ take (len - length buf) body
copy_packet-take len buf body = ap (λ b. buf ++ b) (take-min (len - length buf) body)

-- Copying a packet, and then the rest.
pub copy_more :
    (len : ℕ) (buf body rest : List ℕ)
    → copy_packet len buf body ++ take (len - length (copy_packet len buf body)) rest
      ≡ buf ++ take (len - length buf) (body ++ rest)
copy_more len buf body rest =
    let room : len - length (copy_packet len buf body) ≡ len - length buf - length body = omega (
      arith,
      length-append buf (take (min (length body) (len - length buf)) body),
      length-take (min (length body) (len - length buf)) body,
    ) in
    rw (room, copy_packet-take len buf body)
      (append_assoc buf (take (len - length buf) body) (take (len - length buf - length body) rest)
        ∙ ap (λ b. buf ++ b) (sym (take_more (len - length buf) body rest)))

pub take_exact :
    (buf bytes junk : List ℕ) → bytes ≡ buf → take (length buf - 0) (bytes ++ junk) ≡ buf
take_exact buf bytes junk e =
    let whole : length buf - 0 ≡ length buf = omega arith in rw (whole, e) (take-append buf junk)
