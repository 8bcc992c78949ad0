-- ===== src/Mem/Fetch/Reply.antt =====
-- The bytes of a GETPGRANT message, written and read.
use jiajia.Prelude.{
  ℕ, suc, ◌+◌, ◌*◌, ◌^◌, ◌≤◌, ◌<◌, ◌≡◌, refl, ap, sym, ◌∙◌, some, List, [], ◌∷◌, ◌++◌, append-nil,
  append_assoc, length, length-append, take, drop, All, arith,
}
use jiajia.Prelude.Bytes.{le_bytes, read_le, length-le_bytes, read_le-le_bytes, drop-le_bytes}
use jiajia.Constants.{page_size, ptr_bytes, int_bytes, max_msg_size}
use jiajia.Msg.Types.{appendmsg-some}
use jiajia.Mem.Diff.{Bytes, slice}
use jiajia.Mem.Diff.Copy.{length-slice, take-slice, drop-slice}
use jiajia.Mem.Fetch.{Host, read_page, put_pages, put_reply, install, install_loop}
use jiajia.Mem.Fetch.Choose.{IsPointer}

-- The prefetched pages behind the page that was asked for, in a message.
abbrev pub encoded : Bytes → List ℕ → List ℕ
encoded mem [] = []
encoded mem (a ∷ rest) = le_bytes ptr_bytes a ++ (slice mem a page_size ++ encoded mem rest)

read_page-some : (mem : Bytes) (a : ℕ) → 0 < a → read_page mem a ≡ some (slice mem a page_size)
unfolding read_page
read_page-some mem a h = ground arith

put_pages_lem :
    (mem : Bytes) (addrs body : List ℕ)
    → All IsPointer addrs
    → length body + 4104 * length addrs ≤ max_msg_size
    → put_pages mem addrs body ≡ some (body ++ encoded mem addrs)
unfolding put_pages
put_pages_lem mem [] body p room = rw append-nil
put_pages_lem mem (a ∷ rest) body p room =
    rw
      (
        appendmsg-some body (le_bytes 8 a) (omega (arith, size)),
        read_page-some mem a p.0.0,
        appendmsg-some (body ++ le_bytes 8 a) (slice mem a 4096) (omega (arith, size, size')),
      )
      (put_pages_lem mem rest ((body ++ le_bytes 8 a) ++ slice mem a 4096) p.1
          (omega (arith, size, size'', size'))
        ∙ simp append_assoc)
  where
    size : length (le_bytes 8 a) ≡ 8
    size = length-le_bytes 8 a

    size' : length (body ++ le_bytes 8 a) + length (slice mem a 4096) ≡ length body + 4104
    size' = omega (arith, size, length-append body (le_bytes 8 a), length-slice mem a 4096)

    size'' :
        length ((body ++ le_bytes 8 a) ++ slice mem a 4096)
        ≡ length (body ++ le_bytes 8 a) + length (slice mem a 4096)
    size'' = length-append (body ++ le_bytes 8 a) (slice mem a 4096)

-- The number of the pages, and the address of the first.
abbrev head_of : ℕ → List ℕ → List ℕ
head_of addr addrs = le_bytes 4 (suc (length addrs)) ++ le_bytes 8 addr

pub put_reply_lem :
    (mem : Bytes) (addr : ℕ) (addrs : List ℕ)
    → All IsPointer (addr ∷ addrs)
    → 4108 + 4104 * length addrs ≤ max_msg_size
    → put_reply mem (le_bytes ptr_bytes addr) (addr ∷ addrs)
      ≡ some (
          le_bytes int_bytes (suc (length addrs))
          ++ (le_bytes ptr_bytes addr ++ (slice mem addr page_size ++ encoded mem addrs)))
unfolding put_reply
put_reply_lem mem addr addrs p room =
    rw
      (
        take-le_bytes,
        appendmsg-some [] (le_bytes 4 (suc (length addrs))) (omega (arith, size)),
        read_page-some mem addr p.0.0,
        appendmsg-some (le_bytes 4 (suc (length addrs))) (le_bytes 8 addr)
            (omega (arith, size, size')),
        appendmsg-some (head_of addr addrs) (slice mem addr 4096)
            (omega (arith, sizes, length-slice mem addr 4096)),
      )
      (put_pages_lem mem addrs ((head_of addr addrs) ++ slice mem addr 4096) p.1
          (omega (arith, sizes))
        ∙ simp append_assoc)
  where
    size : length (le_bytes 4 (suc (length addrs))) ≡ 4
    size = length-le_bytes 4 (suc (length addrs))

    size' : length (le_bytes 8 addr) ≡ 8
    size' = length-le_bytes 8 addr

    sizes :
        (length (head_of addr addrs) ≡ 12)
        × (length ((head_of addr addrs) ++ slice mem addr 4096) ≡ 4108)
    sizes = omega (
      arith,
      size,
      size',
      length-append (le_bytes 4 (suc (length addrs))) (le_bytes 8 addr),
      length-append (head_of addr addrs) (slice mem addr 4096),
      length-slice mem addr 4096,
    )

    take-le_bytes : take 8 (le_bytes 8 addr) ≡ le_bytes 8 addr
    take-le_bytes = unfold le_bytes in refl

-- What the requesting host makes of the pages, each read from the home's memory.
abbrev pub installs : (start scheme : ℕ) → (ℕ → ℕ) → ℕ → Bytes → List ℕ → Host → Host
installs start scheme random i mem [] s = s
installs start scheme random i mem (a ∷ rest) s =
    installs start scheme random (i + 1) mem rest
      (install start scheme random i a (slice mem a page_size) s)

install_loop-zero :
    (start scheme : ℕ) (random : ℕ → ℕ) (i : ℕ) (rest : List ℕ) (s : Host)
    → install_loop start scheme random 0 i rest s ≡ s
unfolding install_loop
install_loop-zero start scheme random i rest s = refl

install_loop-suc :
    (start scheme : ℕ) (random : ℕ → ℕ) (n i : ℕ) (rest : List ℕ) (s : Host)
    → install_loop start scheme random (suc n) i rest s
      ≡ install_loop start scheme random n (i + 1) (drop page_size (drop ptr_bytes rest)) (
          install start scheme random i
            (read_le ptr_bytes rest)
            (take page_size (drop ptr_bytes rest))
            s)
unfolding install_loop
install_loop-suc start scheme random n i rest s = refl

pub install_loop-encoded :
    (start scheme : ℕ) (random : ℕ → ℕ) (mem : Bytes) (addrs : List ℕ) (i : ℕ) (s : Host)
    → All IsPointer addrs
    → install_loop start scheme random (length addrs) i (encoded mem addrs) s
      ≡ installs start scheme random i mem addrs s
install_loop-encoded start scheme random mem [] i s p = install_loop-zero start scheme random i [] s
install_loop-encoded start scheme random mem (a ∷ rest) i s p =
    install_loop-suc start scheme random (length rest) i (encoded mem (a ∷ rest)) s
    ∙ rw
        (
          read_le-le_bytes 8 a (slice mem a 4096 ++ encoded mem rest) (omega (arith, p.0.1)),
          drop-le_bytes 8 a (slice mem a 4096 ++ encoded mem rest),
        )
        (rw (take-slice mem a 4096 (encoded mem rest), drop-slice mem a 4096 (encoded mem rest))
          (install_loop-encoded start scheme random mem rest (i + 1)
            (install start scheme random i a (slice mem a 4096) s) p.1))

pub own_address : (addr : ℕ) → addr < 2 ^ 64 → read_le 8 (le_bytes 8 addr) ≡ addr
own_address addr lt =
    ap (read_le 8) (sym (append-nil (le_bytes 8 addr))) ∙ read_le-le_bytes 8 addr [] (omega arith)
