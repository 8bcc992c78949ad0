-- ===== src/Mem/Diff/Runs.antt =====
-- `diffserver` of src/mem/memserver.c at one run of a diff.
use jiajia.Prelude.{
  ℕ, suc, ◌+◌, ◌-◌, ◌/◌, ◌%◌, ◌^◌, ◌<◌, ◌≡◌, false, List, ◌++◌, append_assoc, ◌==◌, arith,
}
use jiajia.Prelude.Bytes.{le_bytes, read_le, read_le-le_bytes, drop-le_bytes}
use jiajia.Mem.Diff.{Bytes, slice, copy, header, apply_loop, apply_page}
use jiajia.Mem.Diff.Copy.{take-slice, drop-slice}

-- One run of a diff.
pub apply_loop-run :
    (page mem : Bytes) (g p start cnt left : ℕ) (more : List ℕ)
    → start < 65536
    → cnt < 65536
    → left ≡ 4 + cnt + (left - (4 + cnt))
    → apply_loop
        (suc g)
        mem
        p
        (le_bytes 4 (header start cnt) ++ (slice page start cnt ++ more))
        left
      ≡ apply_loop g (copy mem (p + start) (slice page start cnt)) p more (left - (4 + cnt))
unfolding apply_loop
apply_loop-run page mem g p start cnt left more hs hc hl =
    rw (go, word, drop-le_bytes 4 (header start cnt) (slice page start cnt ++ more))
      (rw (size, offset, take-slice page start cnt more, drop-slice page start cnt more))
  where
    go : (left == 0) ≡ false
    go = ground arith

    word :
        read_le 4 (le_bytes 4 (header start cnt) ++ (slice page start cnt ++ more))
        ≡ header start cnt
    word = read_le-le_bytes 4 (header start cnt) (slice page start cnt ++ more) (omega arith)

    size : header start cnt % 65536 ≡ cnt
    size = omega arith

    offset : header start cnt / 65536 % 65536 ≡ start
    offset = omega arith

-- The address and the size in front of the runs.
pub apply_page-split :
    (mem : Bytes) (p total : ℕ) (runs rest : List ℕ)
    → p < 2 ^ 64
    → total < 2 ^ 32
    → apply_page mem ((le_bytes 8 p ++ (le_bytes 4 total ++ runs)) ++ rest)
      ≡ apply_loop (total + 1) mem p (runs ++ rest) (total - 12)
unfolding apply_page
apply_page-split mem p total runs rest hp ht = rw (
  spread,
  read_le-le_bytes 8 p (le_bytes 4 total ++ (runs ++ rest)) (omega arith),
  drop-le_bytes 8 p (le_bytes 4 total ++ (runs ++ rest)),
  read_le-le_bytes 4 total (runs ++ rest) (omega arith),
  drop-le_bytes 4 total (runs ++ rest),
)
  where
    spread :
        (le_bytes 8 p ++ (le_bytes 4 total ++ runs)) ++ rest
        ≡ le_bytes 8 p ++ (le_bytes 4 total ++ (runs ++ rest))
    spread = simp append_assoc
