-- ===== src/Load.antt =====
-- `jia_divtask` of src/load/load.c: the hosts divide the iterations of a loop, equally, or with LOAD_BAL
-- by their computing power. The float arithmetic is a parameter.
pub mod Divide
mod Tests
use jiajia.Prelude.{ℕ, zero, suc, ◌+◌, ◌-◌, ◌*◌, ◌/◌, Bool, if◌then◌else◌, ◌==◌, ltb, min}

-- Iterations `first` to `stop` - 1: `*begin`, and one more than `*end`, which may be -1 in the code.
pub record Range : Type 0 where
  pub first : ℕ
  pub stop : ℕ

-- `loadstat[i].begin + loadstat[i].power * iternum` as an int and one more, for host i with that begin.
abbrev pub Shares : Type 0
Shares = ℕ → ℕ → ℕ

-- `loadstat[i]` with LOAD_BAL: the hosts in turn, each from where the one before ends.
unfoldable pub balanced : Shares → Range → ℕ → Range
balanced shares whole zero = record {
  first = whole.first;
  stop = min (shares 0 whole.first) whole.stop;
}
balanced shares whole (suc i) =
    let first = (balanced shares whole i).stop in
    record { first = first; stop = min (shares (suc i) first) whole.stop }

-- A host's part; the last host goes on to the end. The first call sets the powers, and so the shares.
unfoldable pub jia_divtask : (load_bal : Bool) → Shares → (hostc jia_pid : ℕ) → Range → Range
jia_divtask load_bal shares hostc jia_pid whole =
    let iternum = whole.stop - whole.first in
    let mine = balanced shares whole jia_pid in
    let first = whole.first + iternum / hostc * jia_pid in
    let last = jia_pid == hostc - 1 in
    if hostc == 1
    then whole
    else if load_bal
    then record { first = mine.first; stop = if last then whole.stop else mine.stop }
    else record { first = first; stop = if last then whole.stop else first + iternum / hostc }
