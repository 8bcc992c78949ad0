-- ===== src/Mem/Diff/Save/Deliver.antt =====
-- What the DIFF messages of a host bring to the homes of the pages, from `savediff` to `diffgrantserver`.
use jiajia.Prelude.{
  ℕ, zero, suc, ◌+◌, ◌-◌, ◌^◌, ◌≤◌, ◌<◌, ◌≡◌, refl, ap, ap₂, ◌∙◌, fun_ext, true, false, ◌&&◌,
  Option, none, some, List, [], ◌∷◌, ◌++◌, if◌then◌else◌, ◌==◌, ltb, leb, length, length-append,
  All, arith, update, Bool-cases, inl, inr,
}
use jiajia.Constants.{max_msg_size}
use jiajia.Msg.Types.{JiaMsg, diffgrant}
use jiajia.Mem.Diff.{Bytes, encodediff, apply_page, apply_diffs}
use jiajia.Mem.Diff.Merge.{merged, encodediff_pos, apply_page-encodediff}
use jiajia.Mem.Diff.Save.{
  Written, Diffs, diff_to, savediffs, senddiffs, diffserver, diffgrantserver, serve_diffs,
  serve_grants,
}
use jiajia.Mem.Diff.Save.Fill.{bytes_of, diffs_for, written_back, savediffs-Saved}
use jiajia.Mem.Diff.Save.Send.{messages, senddiff_loop-Sent, senddiff_loop-gone}

-- A round of `diffserver` for each page in the message.
apply_diffs-step :
    (f : ℕ) (mem : Bytes) (xs : List ℕ)
    → 0 < length xs
    → apply_diffs (suc f) mem xs ≡ apply_diffs f (apply_page mem xs).0 (apply_page mem xs).1
unfolding apply_diffs
apply_diffs-step f mem [] h = absurd (omega arith)
apply_diffs-step f mem (x ∷ xs) h = refl

apply_diffs-encodediff :
    (f : ℕ) (w : Written) (rest : List ℕ) (mem : Bytes)
    → w.addr < 2 ^ 64
    → apply_diffs (suc f) mem (encodediff w.page w.twin w.addr ++ rest)
      ≡ apply_diffs f (merged w.page w.twin w.addr 0 mem) rest
apply_diffs-encodediff f w rest mem h =
    apply_diffs-step f mem (encodediff w.page w.twin w.addr ++ rest) (
      omega (
        arith,
        length-append (encodediff w.page w.twin w.addr) rest,
        encodediff_pos w.page w.twin w.addr,
      ))
    ∙ ap₂ (apply_diffs f)
        (fun_ext (λ x. (apply_page-encodediff w.page w.twin mem w.addr rest x h).0))
        (apply_page-encodediff w.page w.twin mem w.addr rest 0 h).1

apply_diffs_lem :
    (homehost : ℕ → ℕ) (h : ℕ) (ws : List Written) (f : ℕ) (mem : Bytes)
    → All (λ w. w.addr < 2 ^ 64) ws
    → length (diffs_for homehost h ws) ≤ f
    → apply_diffs f mem (diffs_for homehost h ws) ≡ written_back homehost h ws mem
unfolding apply_diffs
apply_diffs_lem homehost h [] zero mem small le = refl
apply_diffs_lem homehost h [] (suc f) mem small le = refl
apply_diffs_lem homehost h (w ∷ ws) f mem small le = elim (Bool-cases (homehost w.addr == h)) [
  | inl e ↦
      let size : 0 < length (encodediff w.page w.twin w.addr) =
        encodediff_pos w.page w.twin w.addr in
      let room : length (encodediff w.page w.twin w.addr) + length (diffs_for homehost h ws) ≤ f =
        ground (arith, length-append (encodediff w.page w.twin w.addr) (diffs_for homehost h ws)) in
      let pred : f ≡ suc (f - 1) = omega arith in
      rw (e, pred)
        (apply_diffs-encodediff (f - 1) w (diffs_for homehost h ws) mem small.0
          ∙ apply_diffs_lem homehost h ws (f - 1) (merged w.page w.twin w.addr 0 mem) small.1
              (omega arith))
  | inr e ↦ rw e (apply_diffs_lem homehost h ws f mem small.1 (ground arith))
]

abbrev grant_for : ℕ → ℕ → JiaMsg
grant_for jia_pid h = record {
  op = diffgrant;
  frompid = h;
  topid = jia_pid;
  temp = 0;
  seqno = 0;
  scope = 0;
  body = [];
}

diffserver_lem :
    (jia_pid h : ℕ) (body : List ℕ) (mem : Bytes)
    → diffserver h (diff_to jia_pid h body) mem
      ≡ some (apply_diffs (length body) mem body, grant_for jia_pid h)
unfolding diffserver
diffserver_lem jia_pid h body mem = let same : (h == h) ≡ true = ground arith in rw same

module _ (jia_pid : ℕ) (d : ℕ → Option (List ℕ)) where
  abbrev applied : ℕ → Bytes → Bytes
  applied h mem = apply_diffs (length (bytes_of (d h))) mem (bytes_of (d h))

  abbrev served_home : ℕ → ℕ → ℕ → Bytes → Bytes
  served_home n i h mem = if leb i h && ltb h (i + n) then applied h mem else mem

  served_home-suc :
      (n i h : ℕ) (mem before after : Bytes)
      → after ≡ served_home n (i + 1) h before
      → before ≡ (if h == i then applied h mem else mem)
      → after ≡ served_home (suc n) i h mem
  served_home-suc n i h mem before after e b = ground arith

  update-applied :
      (i h : ℕ) (mems : ℕ → Bytes)
      → update mems i (applied i (mems i)) h ≡ (if h == i then applied h (mems h) else mems h)
  update-applied i h mems = elim (Bool-cases (h == i)) [
    | inl e ↦ let same : h ≡ i = ground arith in rw (e, same)
    | inr e ↦ rw e
  ]

  unchanged-applied :
      (i h : ℕ) (mems : ℕ → Bytes)
      → ltb 0 (length (bytes_of (d i))) ≡ false
      → mems h ≡ (if h == i then applied h (mems h) else mems h)
  unfolding apply_diffs
  unchanged-applied i h mems e = elim (Bool-cases (h == i)) [
    | inl s ↦
        let same : h ≡ i = ground arith in
        let none : length (bytes_of (d h)) ≡ 0 = rw same (ground arith) in rw (s, none)
    | inr s ↦ rw s
  ]

  -- The outcome at the n homes from i on, and at the sender.
  record Served (n i : ℕ) (mems : ℕ → Bytes) (msgs : List JiaMsg) : Type 0 where
    mems' : ℕ → Bytes
    grants : List JiaMsg
    runs : serve_diffs msgs mems ≡ some (mems', grants)
    homes : (h : ℕ) → mems' h ≡ served_home n i h (mems h)
    settles : (k : ℕ) → serve_grants grants (k + length msgs) ≡ some k

  serve-messages : (n i : ℕ) (mems : ℕ → Bytes) → Served n i mems (messages jia_pid n i d)
  unfolding serve_diffs serve_grants diffgrantserver
  serve-messages zero i mems = record {
    mems' = mems;
    grants = [];
    runs = refl;
    homes = λ h. ground arith;
    settles = λ k. ap some (omega arith);
  }
  serve-messages (suc n) i mems = elim (Bool-cases (ltb 0 (length (bytes_of (d i))))) [
    | inl e ↦
        let rest = serve-messages n (i + 1) (update mems i (applied i (mems i))) in
        rw e record {
          mems' = rest.mems';
          grants = grant_for jia_pid i ∷ rest.grants;
          runs = rw (diffserver_lem jia_pid i (bytes_of (d i)) (mems i), rest.runs);
          homes = λ h. served_home-suc n i h (mems h) _ _ (rest.homes h) (update-applied i h mems);
          settles = λ k. ap (serve_grants rest.grants) (omega arith) ∙ rest.settles k;
        }
    | inr e ↦
        let rest = serve-messages n (i + 1) mems in
        rw e record {
          mems' = rest.mems';
          grants = rest.grants;
          runs = rest.runs;
          homes =
              λ h. served_home-suc n i h (mems h) _ _ (rest.homes h) (unchanged-applied i h mems e);
          settles = rest.settles;
        }
  ]

-- The diffs of the pages that a host has written arrive: when those for each home fit into one message,
-- `savediff` succeeds for all the pages, and after `senddiffs` every home below hostc that serves its
-- message has the changed units of its pages, in order, in its memory and nothing else changed; the
-- grants bring `diffwait` back to what it was, and no message is left over.
pub saved_diffs_arrive :
    (jia_pid hostc : ℕ) (homehost : ℕ → ℕ) (ws : List Written) (s : Diffs) (mems : ℕ → Bytes)
    → ((h : ℕ) → s.diffmsg h ≡ none)
    → All (λ w. w.addr < 2 ^ 64) ws
    → ((h : ℕ) → length (diffs_for homehost h ws) ≤ max_msg_size)
    → (saved : Diffs) × (savediffs jia_pid homehost ws s ≡ some saved)
      × (let out = senddiffs jia_pid hostc saved in
          (msgs : List JiaMsg) × (mems' : ℕ → Bytes) × (grants : List JiaMsg) × (out.sent
            ≡ s.sent ++ msgs)
          × (serve_diffs msgs mems ≡ some (mems', grants))
          × ((h : ℕ) → h < hostc → mems' h ≡ written_back homehost h ws (mems h))
          × (serve_grants grants out.diffwait ≡ some s.diffwait)
          × ((h : ℕ) → h < hostc → out.diffmsg h ≡ none))
unfolding senddiffs
saved_diffs_arrive jia_pid hostc homehost ws s mems empty small fits =
    let (saved, run, f) =
      savediffs-Saved jia_pid homehost ws s (λ h. rw (empty h) (omega (arith, fits h))) in
    let filled : (h : ℕ) → bytes_of (saved.diffmsg h) ≡ diffs_for homehost h ws =
      λ h. f.filled h ∙ rw (empty h) in
    let out = senddiff_loop-Sent jia_pid hostc 0 saved in
    let v = serve-messages jia_pid saved.diffmsg hostc 0 mems in
    (
      saved,
      run,
      (
        messages jia_pid hostc 0 saved.diffmsg,
        v.mems',
        v.grants,
        out.queued ∙ ap (λ l. l ++ messages jia_pid hostc 0 saved.diffmsg) f.sends,
        v.runs,
        λ h lt.
            let here : leb 0 h && ltb h (0 + hostc) ≡ true = ground arith in
            v.homes h
            ∙ rw (here, filled h)
                (apply_diffs_lem homehost h ws (length (diffs_for homehost h ws)) (mems h) small
                  (omega arith)),
        ap (serve_grants v.grants)
              (out.counted ∙ ap (λ k. k + length (messages jia_pid hostc 0 saved.diffmsg)) f.waits)
            ∙ v.settles s.diffwait,
        λ h lt.
            senddiff_loop-gone jia_pid hostc 0 saved h (omega arith) (λ no. absurd (omega arith)),
      ),
    )
