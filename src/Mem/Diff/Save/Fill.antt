-- ===== src/Mem/Diff/Save/Fill.antt =====
-- The DIFF messages that `savediff` fills.
use jiajia.Prelude.{
  ℕ, ◌+◌, ◌≤◌, ◌≡◌, refl, ap, ◌∙◌, false, Option, none, some, List, [], ◌∷◌, ◌++◌, append-nil,
  append_assoc, if◌then◌else◌, ◌==◌, ltb, length, length-append, arith, update, Bool-cases, inl,
  inr,
}
use jiajia.Constants.{max_msg_size}
use jiajia.Msg.Types.{appendmsg-some}
use jiajia.Mem.Diff.{Bytes, encodediff}
use jiajia.Mem.Diff.Merge.{merged}
use jiajia.Mem.Diff.Save.{Written, Diffs, msg_of, add_diff, savediff, savediffs}

-- The bytes of a DIFF message that is being filled.
abbrev pub bytes_of : Option (List ℕ) → List ℕ
bytes_of none = []
bytes_of (some body) = body

-- The diffs of the pages that are at home at h, in order.
abbrev pub diffs_for : (ℕ → ℕ) → ℕ → List Written → List ℕ
diffs_for homehost h [] = []
diffs_for homehost h (w ∷ ws) =
    let rest = diffs_for homehost h ws in
    if homehost w.addr == h then encodediff w.page w.twin w.addr ++ rest else rest

-- The memory of home h with the changed units of those pages, in order.
abbrev pub written_back : (ℕ → ℕ) → ℕ → List Written → Bytes → Bytes
written_back homehost h [] mem = mem
written_back homehost h (w ∷ ws) mem =
    written_back homehost h ws
      (if homehost w.addr == h then merged w.page w.twin w.addr 0 mem else mem)

module _ (jia_pid : ℕ) where
  add_diff-some :
      (hosti : ℕ) (bytes : List ℕ) (old : Option (List ℕ)) (s : Diffs)
      → length (bytes_of old) + length bytes ≤ max_msg_size
      → add_diff jia_pid hosti bytes old s
        ≡ some (record s { diffmsg = update s.diffmsg hosti (some (bytes_of old ++ bytes)) })
  unfolding add_diff msg_of
  add_diff-some hosti bytes none s fits =
      let small : ltb max_msg_size (0 + length bytes) ≡ false = ground arith in
      rw (small, appendmsg-some [] bytes (omega arith)) refl
  add_diff-some hosti bytes (some old) s fits =
      let small : ltb max_msg_size (length old + length bytes) ≡ false = ground arith in
      rw (small, appendmsg-some old bytes (omega arith)) refl

module _ (jia_pid : ℕ) (homehost : ℕ → ℕ) where
  -- What the messages hold after the pages `ws`.
  pub record Saved (ws : List Written) (s s' : Diffs) : Type 0 where
    pub filled :
        (h : ℕ) → bytes_of (s'.diffmsg h) ≡ bytes_of (s.diffmsg h) ++ diffs_for homehost h ws
    pub waits : s'.diffwait ≡ s.diffwait
    pub sends : s'.sent ≡ s.sent

  abbrev pub Fits : List Written → Diffs → Type 0
  Fits ws s =
      (h : ℕ) → length (bytes_of (s.diffmsg h)) + length (diffs_for homehost h ws) ≤ max_msg_size

  abbrev saved_one : Written → Diffs → Diffs
  saved_one w s = record s {
    diffmsg =
        update s.diffmsg (homehost w.addr)
          (some (bytes_of (s.diffmsg (homehost w.addr)) ++ encodediff w.page w.twin w.addr));
  }

  bytes_of-update :
      (d : ℕ → Option (List ℕ)) (k : ℕ) (b : List ℕ) (h : ℕ)
      → bytes_of (update d k (some b) h) ≡ (if k == h then b else bytes_of (d h))
  bytes_of-update d k b h = ground arith

  saved_one-filled :
      (w : Written) (ws : List Written) (s : Diffs) (h : ℕ)
      → bytes_of ((saved_one w s).diffmsg h) ++ diffs_for homehost h ws
        ≡ bytes_of (s.diffmsg h) ++ diffs_for homehost h (w ∷ ws)
  saved_one-filled w ws s h = elim (Bool-cases (homehost w.addr == h)) [
    | inl here ↦
        let same : homehost w.addr ≡ h = ground arith in
        rw (bytes_of-update s.diffmsg (homehost w.addr) _ h, here)
          (rw same (append_assoc (bytes_of (s.diffmsg h)) _ _))
    | inr other ↦ rw (bytes_of-update s.diffmsg (homehost w.addr) _ h, other)
  ]

  pub savediffs-Saved :
      (ws : List Written) (s : Diffs)
      → Fits ws s
      → (s' : Diffs) × (savediffs jia_pid homehost ws s ≡ some s') × Saved ws s s'
  unfolding savediffs savediff
  savediffs-Saved [] s fits =
      (s, refl, record { filled = λ h. rw append-nil; waits = refl; sends = refl })
  savediffs-Saved (w ∷ ws) s fits =
      let (s', run, saved) = savediffs-Saved ws (saved_one w s) (λ h. rest_fits h) in
      (
        s',
        rw (add_diff-some jia_pid (homehost w.addr) _ _ s first_fits) run,
        record {
          filled = λ h. saved.filled h ∙ saved_one-filled w ws s h;
          waits = saved.waits;
          sends = saved.sends;
        },
      )
    where
      rest_fits : Fits ws (saved_one w s)
      rest_fits h = omega (
        arith,
        fits h,
        ap length (saved_one-filled w ws s h),
        length-append (bytes_of (s.diffmsg h)) (diffs_for homehost h (w ∷ ws)),
        length-append (bytes_of ((saved_one w s).diffmsg h)) (diffs_for homehost h ws),
      )

      first_fits :
          length (bytes_of (s.diffmsg (homehost w.addr))) + length (encodediff w.page w.twin w.addr)
          ≤ max_msg_size
      first_fits = ground (
        arith,
        fits (homehost w.addr),
        length-append (encodediff w.page w.twin w.addr) (diffs_for homehost (homehost w.addr) ws),
      )
