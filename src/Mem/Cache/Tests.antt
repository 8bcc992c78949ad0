-- ===== src/Mem/Cache/Tests.antt =====
-- A cache with a single INV entry, and the theorem at it.
use jiajia.Prelude.{ℕ, ◌+◌, ◌<◌, ◌≤◌, false, if◌then◌else◌, ◌==◌}
use jiajia.Mem.Cache.{inv, ro, Cache, replacei, findposition}
use jiajia.Mem.Cache.Classes.{class, IsTaken}
use jiajia.Mem.Cache.Choice.{findposition_prefers}

abbrev cached : Cache
cached = record {
  state = λ i. if i == 9 then inv else ro;
  addr = λ i. i;
  wtnt = λ _. 0;
  cachei = λ _. 1024;
  repcnt = λ _. 0;
  mapped = λ _. false;
}

findposition_prefers_example :
    (i : ℕ) × (i < 1024)
    × ((k : ℕ) → k < 1024 → class (cached.state (0 + i)) ≤ class (cached.state (0 + k)))
    × IsTaken 0 8192
        (cached.state (0 + i))
        (0 + i)
        (replacei 0 0 5 0 cached).1
        (findposition 0 0 5 8192 cached)
findposition_prefers_example = findposition_prefers 0 0 5 8192 cached
