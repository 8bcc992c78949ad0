-- ===== src/Syn/Notices/Tests.antt =====
-- Small chains of notices, and the theorems at them.
use jiajia.Prelude.{
  ℕ, ◌≡◌, refl, arith, true, none, some, List, [], ◌∷◌, ◌++◌, length, replicate, length-replicate,
  All-replicate,
}
use jiajia.Prelude.Bytes.{le_bytes}
use jiajia.Msg.Types.{rel, wtnt, invld, barrgrant, JiaMsg}
use jiajia.Syn.Notices.{Notice, Node, Chain, savewtnt, notices, in_chain, in_node}
use jiajia.Syn.Notices.Laws.{IsPacked, Distinct, lookup, savewtnt_keeps, lookup-savewtnt}
use jiajia.Syn.Notices.Pack.{appendlockwtnts, appendstackwtnts, appendbarrwtnts, wanted}
use jiajia.Syn.Notices.Pack.Uniform.{encode, pair, triple}
use jiajia.Syn.Notices.Pack.Locks.{appendlockwtnts_overflow, appendlockwtnts_fits, chosen}
use jiajia.Syn.Notices.Send.{Packet, stream, recordwtnts}
use jiajia.Syn.Notices.Send.Stream.{payload, IsStream, stream_stack, stream_barr}
use jiajia.Syn.Notices.Send.Record.{saved, recordwtnts_saves}

abbrev first_page : Notice
first_page = record { addr = 4096; from = 1; scope = 3; mig = 1 }

abbrev third_page : Notice
third_page = record { addr = 12288; from = 2; scope = 4; mig = 0 }

abbrev pages : Chain
pages = (first_page ∷ third_page ∷ []) ∷ []

-- Another write to the first page, by host 0 in scope 5.
pages_kept : IsPacked (savewtnt pages 4100 0 0 5) × Distinct (notices (savewtnt pages 4100 0 0 5))
unfolding notices in_node
pages_kept = savewtnt_keeps pages 4100 0 0 5 (omega arith) (refl, (refl, tt))

lookup-savewtnt_example :
    lookup 4096 (notices (savewtnt pages 4100 0 0 5))
    ≡ some (record first_page { from = 16; scope = 5; mig = 0 })
unfolding lookup notices in_chain in_node
lookup-savewtnt_example = lookup-savewtnt pages 4100 0 0 5 4096 (omega arith)

-- 511 notices, all wanted, behind 36,000 bytes.
abbrev full_node : Node
full_node = replicate 511 first_page

abbrev long_msg : List ℕ
long_msg = replicate 36000 0

appendlockwtnts_overflow_example : appendlockwtnts (λ _. 2) 0 2 long_msg (full_node ∷ []) ≡ none
appendlockwtnts_overflow_example =
    let bytes : length long_msg ≡ 36000 = length-replicate {A = ℕ} 36000 0 in
    appendlockwtnts_overflow (λ _. 2) 0 2 long_msg full_node []
      (All-replicate (λ n. wanted (λ _. 2) 0 2 n ≡ true) 511 first_page refl)
      (omega (arith, bytes, length-replicate 511 first_page))
      (omega (arith, bytes, length-replicate 511 first_page))

-- Of the two notices host 2's acquirer with scope 3 needs the second.
appendlockwtnts_fits_example :
    appendlockwtnts (λ _. 0) 2 3 (7 ∷ 0 ∷ 0 ∷ 0 ∷ []) pages
    ≡ some ((7 ∷ 0 ∷ 0 ∷ 0 ∷ []) ++ triple third_page, [])
unfolding notices chosen encode le_bytes
appendlockwtnts_fits_example =
    appendlockwtnts_fits (λ _. 0) 2 3 (7 ∷ 0 ∷ 0 ∷ 0 ∷ []) pages (omega arith)

stream_stack_example :
    (ps : List Packet) × (stream appendstackwtnts wtnt rel 3 7 pages ≡ some ps)
    × IsStream wtnt rel (le_bytes 4 7) ps
    × (payload ps ≡ encode pair (notices pages))
stream_stack_example = stream_stack rel 3 7 pages (omega arith) (omega arith, tt)

stream_barr_example :
    (ps : List Packet) × (stream appendbarrwtnts invld barrgrant 3 64 pages ≡ some ps)
    × IsStream invld barrgrant (le_bytes 4 64) ps
    × (payload ps ≡ encode triple (notices pages))
stream_barr_example = stream_barr 3 64 pages (omega arith) (omega arith, tt)

abbrev release : JiaMsg
release = record {
  op = rel;
  frompid = 1;
  topid = 0;
  temp = 0;
  seqno = 0;
  scope = 2;
  body = le_bytes 4 6 ++ encode pair (third_page ∷ []);
}

recordwtnts_saves_example :
    recordwtnts (λ _. [] ∷ []) (λ _. 8) release ≡ saved 1 8 (third_page ∷ []) ([] ∷ [])
recordwtnts_saves_example =
    recordwtnts_saves (λ _. [] ∷ []) (λ _. 8) release 6 (third_page ∷ []) refl (omega arith)
      (omega arith, tt)
