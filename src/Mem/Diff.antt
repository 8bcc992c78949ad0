-- ===== src/Mem/Diff.antt =====
-- `encodediff` of src/mem/memsyn.c, and the part of `diffserver` of src/mem/memserver.c that writes
-- the diffs into the home page.
pub mod Copy
pub mod Encode
pub mod Runs
pub mod Merge
pub mod Writers
pub mod Save
mod Tests
use jiajia.Prelude.{
  ℕ, zero, suc, ◌+◌, ◌-◌, ◌*◌, ◌/◌, ◌%◌, Bool, ◌&&◌, List, [], ◌∷◌, ◌++◌, if◌then◌else◌, ◌==◌,
  update, drop, take, length,
}
use jiajia.Prelude.Bytes.{le_bytes, read_le}
use jiajia.Constants.{page_size, ptr_bytes, int_bytes}

-- The bytes of a page by offset, and of the memory by address.
abbrev pub Bytes : Type 0
Bytes = ℕ → ℕ

-- `memcmp(page + i, twin + i, Diffunit) == 0`
abbrev pub same_unit : Bytes → Bytes → ℕ → Bool
same_unit page twin i =
    (page i == twin i)
    && ((page (i + 1) == twin (i + 1))
        && ((page (i + 2) == twin (i + 2)) && (page (i + 3) == twin (i + 3))))

-- `n` bytes from offset `i` on.
unfoldable pub slice : Bytes → ℕ → ℕ → List ℕ
slice page i zero = []
slice page i (suc n) = page i ∷ slice page (i + 1) n

-- memcpy into memory
unfoldable pub copy : Bytes → ℕ → List ℕ → Bytes
copy mem a [] = mem
copy mem a (b ∷ bs) = copy (update mem a b) (a + 1) bs

-- `((start & 0xffff) << 16) | (cnt & 0xffff)`
abbrev pub header : ℕ → ℕ → ℕ
header start cnt = start % 65536 * 65536 + cnt % 65536

module _ (page twin : Bytes) where
  -- The two inner loops of `encodediff`, over `n`, the diff units from `bytei` to the page's end
  -- (`bytei < Pagesize` is `n` not 0). They return what is left, and `bytei`.
  unfoldable pub skip_same : ℕ → ℕ → ℕ × ℕ
  skip_same zero bytei = (0, bytei)
  skip_same (suc n) bytei =
      if same_unit page twin bytei then skip_same n (bytei + 4) else (suc n, bytei)

  unfoldable pub count_changed : ℕ → ℕ → ℕ → ℕ × ℕ × ℕ
  count_changed zero bytei cnt = (0, bytei, cnt)
  count_changed (suc n) bytei cnt =
      if same_unit page twin bytei
      then (suc n, bytei, cnt)
      else count_changed n (bytei + 4) (cnt + 4)

  -- The outer loop, with fuel for its rounds: each round writes a header and the changed bytes.
  unfoldable pub encode_loop : ℕ → ℕ → ℕ → List ℕ
  encode_loop zero n bytei = []
  encode_loop (suc f) n bytei =
      let (n1, start) = skip_same n bytei in
      let (n2, bytei2, cnt) = count_changed n1 start 0 in
      let rest =
        le_bytes int_bytes (header start cnt)
        ++ (slice page start cnt ++ encode_loop f n2 bytei2) in
      if n1 == 0 then [] else rest

  -- The whole diff of a page: address, size of the diff, runs. 1025 rounds are enough for the 1024
  -- diff units of a page.
  unfoldable pub encodediff : ℕ → List ℕ
  encodediff addr =
      let runs = encode_loop 1025 1024 0 in
      le_bytes ptr_bytes addr ++ (le_bytes int_bytes (ptr_bytes + int_bytes + length runs) ++ runs)

-- The inner loop of `diffserver`: `rest` are the bytes from `datai` on, `left` is `pstop - datai`.
-- Fuel for the rounds; each takes at least the header's 4 bytes.
unfoldable pub apply_loop : ℕ → Bytes → ℕ → List ℕ → ℕ → Bytes × List ℕ
apply_loop zero mem paddr rest left = (mem, rest)
apply_loop (suc f) mem paddr rest left =
    let word = read_le int_bytes rest in
    let dsize = word % 65536 in
    let doffset = word / 65536 % 65536 in
    let body = drop int_bytes rest in
    let next =
      apply_loop f (copy mem (paddr + doffset) (take dsize body)) paddr (drop dsize body)
        (left - (int_bytes + dsize)) in
    if left == 0 then (mem, rest) else next

-- One page of a DIFF message: `paddr`, `pstop`, and the inner loop.
unfoldable pub apply_page : Bytes → List ℕ → Bytes × List ℕ
apply_page mem rest =
    let paddr = read_le ptr_bytes rest in
    let after = drop ptr_bytes rest in
    let total = read_le int_bytes after in
    apply_loop (total + 1) mem paddr (drop int_bytes after) (total - (ptr_bytes + int_bytes))

-- The outer loop, `while (datai < req->size)`: `rest` is what is left of the message, with fuel for
-- the pages in it.
unfoldable pub apply_diffs : ℕ → Bytes → List ℕ → Bytes
apply_diffs zero mem rest = mem
apply_diffs (suc f) mem [] = mem
apply_diffs (suc f) mem (b ∷ rest) =
    let (mem', rest') = apply_page mem (b ∷ rest) in apply_diffs f mem' rest'
