-- ===== src/Msg/Bcast/Tests.antt =====
-- A broadcast of host 2 to three hosts, and the theorem at it.
use jiajia.Prelude.{◌≡◌, refl, arith, [], ◌∷◌}
use jiajia.Msg.Types.{barrgrant, JiaMsg}
use jiajia.Msg.Bcast.{bcastserver, tree_level, bsendmsg, served}
use jiajia.Msg.Bcast.Places.{occurs}
use jiajia.Msg.Bcast.Tree.{bsendmsg_reaches}

abbrev grant : JiaMsg
grant = record { op = barrgrant; frompid = 2; topid = 2; temp = 0; seqno = 0; scope = 1; body = [] }

order : served 3 4 (bsendmsg 3 2 grant) ≡ 1 ∷ 0 ∷ 2 ∷ []
unfolding served bsendmsg bcastserver tree_level
order = refl

bsendmsg_reaches_example : occurs 1 (served 3 5 (bsendmsg 3 2 grant)) ≡ 1
bsendmsg_reaches_example =
    bsendmsg_reaches 3 2 5 1 grant refl (omega arith) (omega arith) (omega arith) (omega arith)
