-- ===== src/Msg/Reduce/Tests.antt =====
-- Five hosts with root 3: the hosts 4 and 1 send in round 0, to 3 and 0.
use jiajia.Prelude.{ℕ, ◌<◌, ◌≡◌, ◌≢◌, ◌↔◌, refl, arith}
use jiajia.Msg.Reduce.{send_to, recv_from, action}
use jiajia.Msg.Reduce.Schedule.{SendsOnce, jia_reduce_schedule}

jia_reduce_schedule_example :
    ((j p q : ℕ) → p < 5 → q < 5 → (action 5 3 j p ≡ recv_from q) ↔ (action 5 3 j q ≡ send_to p))
    × ((p : ℕ) → p < 5 → p ≢ 3 → SendsOnce 5 3 p)
    × ((j to : ℕ) → action 5 3 j 3 ≢ send_to to)
jia_reduce_schedule_example = jia_reduce_schedule 5 3 (omega arith)

first_round : (action 5 3 0 4 ≡ send_to 3) × (action 5 3 0 0 ≡ recv_from 1)
unfolding action
first_round = (refl, refl)
