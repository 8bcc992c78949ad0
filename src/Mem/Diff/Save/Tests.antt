-- ===== src/Mem/Diff/Save/Tests.antt =====
-- Two pages of home 1 and one of home 2 that host 0 has written.
use jiajia.Prelude.{
  ℕ, ◌+◌, ◌≤◌, ◌<◌, ◌≡◌, refl, none, some, List, [], ◌∷◌, ◌++◌, if◌then◌else◌, ◌==◌, length,
  length-append, replicate, arith,
}
use jiajia.Constants.{max_msg_size}
use jiajia.Msg.Types.{JiaMsg}
use jiajia.Mem.Diff.{Bytes, encodediff}
use jiajia.Mem.Diff.Merge.{length-encodediff}
use jiajia.Mem.Diff.Save.{Written, Diffs, savediffs, senddiffs, serve_diffs, serve_grants}
use jiajia.Mem.Diff.Save.Fill.{diffs_for, written_back}
use jiajia.Mem.Diff.Save.Deliver.{saved_diffs_arrive}

abbrev blank : Bytes
blank o = 0

abbrev written_at : ℕ → ℕ → Written
written_at addr at = record { addr = addr; page = λ o. if o == at then 9 else 0; twin = blank }

-- Page 1 is at home at host 1, page 2 at host 2, page 3 at host 1.
abbrev home_of : ℕ → ℕ
home_of addr = if addr == 8192 then 2 else 1

abbrev pages : List Written
pages = written_at 4096 5 ∷ written_at 8192 0 ∷ written_at 12288 4092 ∷ []

abbrev no_diffs : Diffs
no_diffs = record { diffmsg = λ h. none; diffwait = 0; sent = [] }

pages_fit : (h : ℕ) → length (diffs_for home_of h pages) ≤ max_msg_size
pages_fit h = ground (
  arith,
  length-append (encodediff (written_at 4096 5).page blank 4096)
      (diffs_for home_of h (written_at 8192 0 ∷ written_at 12288 4092 ∷ [])),
  length-append (encodediff (written_at 8192 0).page blank 8192)
      (diffs_for home_of h (written_at 12288 4092 ∷ [])),
  length-append (encodediff (written_at 12288 4092).page blank 12288) [],
  length-encodediff (written_at 4096 5).page blank 4096,
  length-encodediff (written_at 8192 0).page blank 8192,
  length-encodediff (written_at 12288 4092).page blank 12288,
)

saved_diffs_arrive_example :
    (saved : Diffs) × (savediffs 0 home_of pages no_diffs ≡ some saved)
    × (let out = senddiffs 0 3 saved in
        (msgs : List JiaMsg) × (mems' : ℕ → Bytes) × (grants : List JiaMsg) × (out.sent
          ≡ [] ++ msgs)
        × (serve_diffs msgs (λ h. blank) ≡ some (mems', grants))
        × ((h : ℕ) → h < 3 → mems' h ≡ written_back home_of h pages blank)
        × (serve_grants grants out.diffwait ≡ some 0)
        × ((h : ℕ) → h < 3 → out.diffmsg h ≡ none))
saved_diffs_arrive_example =
    saved_diffs_arrive 0 3 home_of pages no_diffs (λ h. blank) (λ h. refl) (omega arith) pages_fit

-- At host 1 the byte of page 3 that was written is 9, that of page 2 is not there.
written_back_runs : written_back home_of 1 pages blank (12288 + 4092) ≡ 9
written_back_runs = refl

abbrev full_message : List ℕ
full_message = replicate 40928 0
