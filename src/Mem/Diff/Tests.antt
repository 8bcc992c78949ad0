-- ===== src/Mem/Diff/Tests.antt =====
-- A page with one changed byte, its diff, and the theorems at it.
use jiajia.Prelude.{
  ℕ, zero, suc, ◌+◌, ◌≡◌, ◌⊎◌, inl, inr, refl, Bool, true, false, List, [], ◌∷◌, ◌++◌,
  if◌then◌else◌, ◌==◌, not, ◌≤◌, length, arith, ℕ_discrete, ◌*◌, ◌/◌,
}
use jiajia.Mem.Diff.{Bytes, slice, skip_same, count_changed, encode_loop, encodediff, apply_page}
use jiajia.Mem.Diff.Encode.{kept}
use jiajia.Mem.Diff.Merge.{length-encodediff, apply_page-encodediff}
use jiajia.Mem.Diff.Writers.{diff_roundtrip, diffs_commute}

abbrev blank : Bytes
blank o = 0

-- 9 at offset 5, or 7 at offset 8.
abbrev written_at_5 : Bytes
written_at_5 o = if o == 5 then 9 else 0

abbrev written_at_8 : Bytes
written_at_8 o = if o == 8 then 7 else 0

length-encodediff_example : length (encodediff written_at_5 blank 4096) ≤ 4112
length-encodediff_example = length-encodediff written_at_5 blank 4096

-- The last three units of a page: one run of 4 bytes at offset 4088.
last_units :
    encode_loop (λ o. if o == 4090 then 3 else 0) blank 4 3 4084
    ≡ 4 ∷ 0 ∷ 0xf8 ∷ 0x0f ∷ 0 ∷ 0 ∷ 3 ∷ 0 ∷ []
unfolding encode_loop skip_same count_changed slice jiajia.Prelude.Bytes.le_bytes
last_units = refl

apply_page-encodediff_example :
    ((apply_page blank (encodediff written_at_5 blank 4096 ++ [])).0 4101 ≡ 9)
    × ((apply_page blank (encodediff written_at_5 blank 4096 ++ [])).1 ≡ [])
apply_page-encodediff_example =
    apply_page-encodediff written_at_5 blank blank 4096 [] 4101 (omega arith)

diff_roundtrip_example :
    (apply_page blank (encodediff written_at_5 blank 4096 ++ [])).0 (4096 + 5) ≡ 9
diff_roundtrip_example =
    diff_roundtrip written_at_5 blank blank 4096 5 [] (omega arith) (λ q. refl) (omega arith)

apart : (q : ℕ) → (kept written_at_5 blank q ≡ true) ⊎ (kept written_at_8 blank q ≡ true)
apart q = elim (ℕ_discrete (q / 4 * 4) 4) [ yes e ↦ inr (rw e) | no e ↦ inl (ground arith) ]

diffs_commute_example :
    ((apply_page
          (apply_page blank (encodediff written_at_5 blank 4096 ++ [])).0
          (encodediff written_at_8 blank 4096 ++ [])).0
        (4096 + 8)
      ≡ 7)
    × ((apply_page
            (apply_page blank (encodediff written_at_8 blank 4096 ++ [])).0
            (encodediff written_at_5 blank 4096 ++ [])).0
          (4096 + 8)
        ≡ 7)
diffs_commute_example =
    diffs_commute written_at_5 blank written_at_8 blank blank 4096 8 [] [] (omega arith)
      (omega arith) apart
