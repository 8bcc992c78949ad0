-- ===== src/Mem/Diff/Merge.antt =====
-- `diffserver` undoes `encodediff`: the home page takes over the changed diff units, and nothing else.
use jiajia.Prelude.{
  ℕ, zero, suc, ◌+◌, ◌-◌, ◌*◌, ◌^◌, ◌≤◌, ◌<◌, ◌≡◌, refl, ◌∙◌, ◌≢◌, ap, true, false, not, ◌&&◌, List,
  [], ◌++◌, append_assoc, if◌then◌else◌, ◌==◌, ltb, leb, length, length-append, arith, ℕ_discrete,
}
use jiajia.Prelude.Bytes.{le_bytes, length-le_bytes}
use jiajia.Mem.Diff.{
  Bytes, same_unit, slice, copy, skip_same, count_changed, header, encode_loop, encodediff,
  apply_loop, apply_page,
}
use jiajia.Mem.Diff.Copy.{length-slice, copy-slice}
use jiajia.Mem.Diff.Encode.{kept, Skipped, skip_same-Skipped, Counted, count_changed-Counted}
use jiajia.Mem.Diff.Runs.{apply_loop-run, apply_page-split}

module _ (page twin : Bytes) where
  -- The memory with the changed units of the page at address `p`, from offset `lo` on.
  abbrev pub merged : ℕ → ℕ → Bytes → Bytes
  merged p lo mem x =
      if leb (p + lo) x && (ltb x (p + 4096) && not (kept page twin (x - p)))
      then page (x - p)
      else mem x

  abbrev Applies : ℕ → ℕ → Bytes → ℕ → List ℕ → List ℕ → ℕ → Type 0
  Applies g i mem p enc rest x =
      ((apply_loop g mem p (enc ++ rest) (length enc)).0 x ≡ merged p i mem x)
      × ((apply_loop g mem p (enc ++ rest) (length enc)).1 ≡ rest)

  -- The bytes of one run, in front of the diff of the units behind it.
  abbrev run_of : ℕ → ℕ → List ℕ → List ℕ
  run_of start cnt more = le_bytes 4 (header start cnt) ++ (slice page start cnt ++ more)

  length-run_of :
      (start cnt : ℕ) (more : List ℕ) → length (run_of start cnt more) ≡ 4 + cnt + length more
  length-run_of start cnt more = omega (
    arith,
    length-append (le_bytes 4 (header start cnt)) (slice page start cnt ++ more),
    length-append (slice page start cnt) more,
    length-le_bytes 4 (header start cnt),
    length-slice page start cnt,
  )

  -- Units before `start` are kept, those up to `end` are changed.
  merged-run :
      (p i start cnt end x : ℕ) (mem : Bytes)
      → i ≤ start
      → start + cnt ≡ end
      → end ≤ 4096
      → ((o : ℕ) → i ≤ o → o < start → kept page twin o ≡ true)
      → ((o : ℕ) → start ≤ o → o < end → kept page twin o ≡ false)
      → merged p end (copy mem (p + start) (slice page start cnt)) x ≡ merged p i mem x
  merged-run p i start cnt end x mem le e top same changed = ground (
    arith,
    copy-slice mem page (p + start) start cnt x,
    same (x - p),
    changed (x - p),
    λ (h : p + start ≤ x). ap page {x = start + (x - (p + start))} {y = x - p} (omega arith),
  )

  apply-run :
      (g p i start cnt end x : ℕ) (mem : Bytes) (more rest : List ℕ)
      → i ≤ start
      → start + cnt ≡ end
      → end ≤ 4096
      → ((o : ℕ) → i ≤ o → o < start → kept page twin o ≡ true)
      → ((o : ℕ) → start ≤ o → o < end → kept page twin o ≡ false)
      → Applies g end (copy mem (p + start) (slice page start cnt)) p more rest x
      → Applies (suc g) i mem p (run_of start cnt more) rest x
  apply-run g p i start cnt end x mem more rest le e top same changed (a, b) =
      rw step (a ∙ merged-run p i start cnt end x mem le e top same changed, b)
    where
      left : length (run_of start cnt more) - (4 + cnt) ≡ length more
      left = omega (arith, length-run_of start cnt more)

      spread : run_of start cnt more ++ rest ≡ run_of start cnt (more ++ rest)
      spread = simp append_assoc

      step :
          apply_loop (suc g) mem p (run_of start cnt more ++ rest) (length (run_of start cnt more))
          ≡ apply_loop g
              (copy mem (p + start) (slice page start cnt))
              p
              (more ++ rest)
              (length more)
      step =
          ap (λ b. apply_loop (suc g) mem p b (length (run_of start cnt more))) spread
          ∙ apply_loop-run page mem g p start cnt (length (run_of start cnt more)) (more ++ rest)
              (omega arith) (omega arith) (omega (arith, length-run_of start cnt more))
          ∙ ap (λ l. apply_loop g (copy mem (p + start) (slice page start cnt)) p (more ++ rest) l)
              left

  apply-nothing :
      (g p i x : ℕ) (mem : Bytes) (rest : List ℕ)
      → ((o : ℕ) → i ≤ o → o < 4096 → kept page twin o ≡ true)
      → Applies (suc g) i mem p [] rest x
  unfolding apply_loop
  apply-nothing g p i x mem rest same = (ground (arith, same (x - p)), refl)

  abbrev first : ℕ → ℕ → ℕ × ℕ
  first n i = skip_same page twin n i

  abbrev second : ℕ → ℕ → ℕ × ℕ × ℕ
  second n i = count_changed page twin (first n i).0 (first n i).1 0

  second-Counted :
      (n i k : ℕ) → i ≡ 4 * k → Counted page twin (first n i).0 (first n i).1 0 (second n i)
  second-Counted n i k ek =
      count_changed-Counted page twin (first n i).0 (first n i).1 0 (k + n - (first n i).0)
        (omega (arith, Skipped.total (skip_same-Skipped page twin n i k ek)))

  encode_loop-nil : (f n i : ℕ) → (first n i).0 ≡ 0 → encode_loop page twin (suc f) n i ≡ []
  unfolding encode_loop
  encode_loop-nil f n i e = ground arith

  encode_loop-run :
      (f n i : ℕ)
      → (first n i).0 ≢ 0
      → encode_loop page twin (suc f) n i
        ≡ run_of
            (first n i).1
            (second n i).2
            (encode_loop page twin f (second n i).0 (second n i).1)
  unfolding encode_loop
  encode_loop-run f n i e = let go : ((first n i).0 == 0) ≡ false = ground arith in rw go

  apply-encode :
      (f n i k g : ℕ) (mem : Bytes) (p : ℕ) (rest : List ℕ) (x : ℕ)
      → i ≡ 4 * k
      → i + 4 * n ≡ 4096
      → n < f
      → length (encode_loop page twin f n i) < g
      → Applies g i mem p (encode_loop page twin f n i) rest x
  apply-encode zero n i k g mem p rest x ek en hf hg = absurd (omega arith)
  apply-encode (suc f) n i k zero mem p rest x ek en hf hg = absurd (omega arith)
  apply-encode (suc f) n i k (suc g) mem p rest x ek en hf hg = elim (ℕ_discrete (first n i).0 0) [
    | yes none ↦
        rw (encode_loop-nil f n i none)
          (apply-nothing g p i x mem rest (λ o le lt. s.all_kept o le (omega (arith, s.total))))
    | no some ↦ rw (encode_loop-run f n i some) (
        apply-run g p i (first n i).1 (second n i).2 (second n i).1 x mem _ rest s.forward
          (omega (arith, c.counted)) (omega (arith, s.total, c.total)) s.all_kept c.all_changed
          (apply-encode f (second n i).0 (second n i).1 (1024 - (second n i).0) g _ p rest x
            (omega (arith, s.total, c.total)) (omega (arith, s.total, c.total))
            (omega (arith, c.moves some (s.stops some), s.total, s.forward))
            (omega (
              arith,
              rw (encode_loop-run f n i some) at hg,
              length-run_of (first n i).1 (second n i).2
                  (encode_loop page twin f (second n i).0 (second n i).1),
            ))))
  ]
    where
      s : Skipped page twin n i (first n i)
      s = skip_same-Skipped page twin n i k ek

      c : Counted page twin (first n i).0 (first n i).1 0 (second n i)
      c = second-Counted n i k ek

  run-length :
      (n i k : ℕ) (more : List ℕ)
      → i ≡ 4 * k
      → (first n i).0 ≢ 0
      → length more ≤ 4 * (second n i).0
      → (length (run_of (first n i).1 (second n i).2 more) ≤ 4 * n + 4)
        × ((n ≢ 0 → same_unit page twin i ≡ true)
            → length (run_of (first n i).1 (second n i).2 more) ≤ 4 * n)
  run-length n i k more ek some rest =
      let s : Skipped page twin n i (first n i) = skip_same-Skipped page twin n i k ek in
      let c : Counted page twin (first n i).0 (first n i).1 0 (second n i) =
        second-Counted n i k ek in
      let size = length-run_of (first n i).1 (second n i).2 more in
      (
        omega (arith, rest, size, s.total, s.forward, c.total, c.counted, c.forward),
        λ same. omega (
          arith,
          rest,
          size,
          s.total,
          c.total,
          c.counted,
          c.forward,
          s.moves (omega (arith, s.total, s.forward)) (same (omega (arith, s.total, s.forward))),
        ),
      )

  -- A diff never needs more than a byte for each byte of the page and a header's 4 bytes more; one
  -- that starts with a kept unit needs the page's bytes at most.
  encode_loop-length :
      (f n i k : ℕ)
      → i ≡ 4 * k
      → (length (encode_loop page twin f n i) ≤ 4 * n + 4)
        × ((n ≢ 0 → same_unit page twin i ≡ true) → length (encode_loop page twin f n i) ≤ 4 * n)
  unfolding encode_loop
  encode_loop-length zero n i k ek = (omega arith, λ _. omega arith)
  encode_loop-length (suc f) n i k ek = elim (ℕ_discrete (first n i).0 0) [
    | yes none ↦ rw (encode_loop-nil f n i none) (omega arith, λ _. omega arith)
    | no some ↦
        let s : Skipped page twin n i (first n i) = skip_same-Skipped page twin n i k ek in
        let c : Counted page twin (first n i).0 (first n i).1 0 (second n i) =
          second-Counted n i k ek in
        rw (encode_loop-run f n i some) (
          run-length n i k (encode_loop page twin f (second n i).0 (second n i).1) ek some (
            (encode_loop-length f (second n i).0 (second n i).1 (k + n - (second n i).0)
                (omega (arith, s.total, c.total))).1
              c.stops))
  ]

  pub encodediff_pos : (addr : ℕ) → 0 < length (encodediff page twin addr)
  unfolding encodediff
  encodediff_pos addr = omega (
    arith,
    length-append (le_bytes 8 addr) (
        le_bytes 4 (12 + length (encode_loop page twin 1025 1024 0))
        ++ encode_loop page twin 1025 1024 0),
    length-le_bytes 8 addr,
  )

  -- The whole diff of a page takes at most 4112 bytes, so that it fits into the buffer of
  -- `savediff` and into a message.
  pub length-encodediff : (addr : ℕ) → length (encodediff page twin addr) ≤ 4112
  unfolding encodediff
  length-encodediff addr = omega (
    arith,
    length-append (le_bytes 8 addr) (
        le_bytes 4 (12 + length (encode_loop page twin 1025 1024 0))
        ++ encode_loop page twin 1025 1024 0),
    length-append (le_bytes 4 (12 + length (encode_loop page twin 1025 1024 0)))
        (encode_loop page twin 1025 1024 0),
    length-le_bytes 8 addr,
    length-le_bytes 4 (12 + length (encode_loop page twin 1025 1024 0)),
    (encode_loop-length 1025 1024 0 0 (omega arith)).0,
  )

  -- What `diffserver` makes of the diff of a page at a 64-bit address: the memory with the
  -- changed units of that page, and nothing else changed; and it goes on behind the diff.
  pub apply_page-encodediff :
      (mem : Bytes) (p : ℕ) (rest : List ℕ) (x : ℕ)
      → p < 2 ^ 64
      → ((apply_page mem (encodediff page twin p ++ rest)).0 x ≡ merged p 0 mem x)
        × ((apply_page mem (encodediff page twin p ++ rest)).1 ≡ rest)
  unfolding apply_page encodediff
  apply_page-encodediff mem p rest x h =
      rw (apply_page-split mem p (12 + length runs) runs rest h small, length_back)
        (apply-encode 1025 1024 0 0 (12 + length runs + 1) mem p rest x (omega arith) (omega arith)
          (omega arith) (omega arith))
    where
      runs : List ℕ
      runs = encode_loop page twin 1025 1024 0

      small : 12 + length runs < 2 ^ 32
      small = omega (arith, (encode_loop-length 1025 1024 0 0 (omega arith)).0)

      length_back : 12 + length runs - 12 ≡ length runs
      length_back = omega arith
