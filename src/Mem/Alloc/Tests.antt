-- ===== src/Mem/Alloc/Tests.antt =====
-- Three blocks of one page for two hosts, and the theorem at them.
use jiajia.Prelude.{ℕ, ◌+◌, ◌*◌, ◌<◌, ◌≤◌, ◌≡◌, refl, arith, some, if◌then◌else◌, ◌==◌}
use jiajia.Mem.Alloc.{Space, align_to_page, jia_alloc3}
use jiajia.Mem.Alloc.Places.{Allocated, jia_alloc3_places}

abbrev empty : Space
empty = record {
  globaladdr = 0;
  homesize = λ _. 0;
  homepid = λ _. 16;
  homei = λ _. 16384;
  home_addr = λ _. 0;
}

-- The hosts' spaces differ in the entries of their home arrays.
abbrev empty_spaces : ℕ → Space
empty_spaces jia_pid = record empty { home_addr = λ i. if i == jia_pid then 1 else 0 }

jia_alloc3_places_example :
    (n : ℕ) × (align_to_page 10000 ≤ n * 1 * 4096)
    × (n * 1 * 4096 < align_to_page 10000 + 1 * 4096)
    × ((jia_pid : ℕ)
        → (s' : Space) × (jia_alloc3 jia_pid 2 0x60000000 20000 10000 4000 1 (empty_spaces jia_pid)
            ≡ some (0x60000000 + 0 * 4096, s'))
          × Allocated 2 (empty_spaces jia_pid) s' 0 1 1 n)
jia_alloc3_places_example =
    jia_alloc3_places 2 0x60000000 20000 10000 4000 1 0 1 empty_spaces refl (omega arith)
      (λ jia_pid. refl) (omega arith) (λ jia_pid p. omega arith) (omega arith) (omega arith)
      (omega arith)
