-- ===== src/Load/Tests.antt =====
-- Three hosts divide iterations 10 to 29, with LOAD_BAL and powers of a half, a quarter and a quarter.
use jiajia.Prelude.{◌+◌, ◌≡◌, refl, if◌then◌else◌, ◌==◌, true, false, arith}
use jiajia.Load.{Range, Shares, balanced, jia_divtask}
use jiajia.Load.Divide.{Partitions, jia_divtask_partition}

abbrev halves : Shares
halves i first = first + (if i == 0 then 10 else 5)

abbrev loop : Range
loop = record { first = 10; stop = 30 }

jia_divtask_partition_example : Partitions 3 (λ pid. jia_divtask true halves 3 pid loop) loop 24
jia_divtask_partition_example =
    jia_divtask_partition true halves 3 loop 24 (omega arith) (omega arith) (λ i first. omega arith)

equal_parts : (jia_divtask false halves 3 2 loop).first ≡ 22
unfolding jia_divtask balanced
equal_parts = refl

balanced_parts : (jia_divtask true halves 3 1 loop).stop ≡ 25
unfolding jia_divtask balanced
balanced_parts = refl
