-- ===== src/Syn/Init.antt =====
-- `initsyn` of src/syn/syn.c; a flag that it does not set is a global, and starts at 0.
use jiajia.Prelude.{ℕ, ◌%◌, refl, [], if◌then◌else◌, ◌==◌}
use jiajia.Constants.{hidelock}
use jiajia.Syn.Notices.{newwtnt}
use jiajia.Syn.Server.{SynState}
use jiajia.Syn.Mutex.{out, Reach, start}
use jiajia.Syn.User.{LockStack}

-- -1 as a 32-bit pattern
abbrev minus_one : ℕ
minus_one = 0xffffffff

unfoldable pub initsyn : ℕ → ℕ → SynState × LockStack
initsyn jia_pid hostc = (
  record {
    locks = λ i. record {
      acqs = λ _. minus_one;
      acqscope = λ _. minus_one;
      acqc = 0;
      scope = 0;
      myscope = minus_one;
      wtntp = if i % hostc == jia_pid then newwtnt else [];
    };
    condvars = λ _. record { waits = λ _. minus_one; waitc = 0; value = 0 };
    noclearlocks = 0;
    waitcounter = 0;
    acqwait = 0;
    barrwait = 0;
    waitwait = 0;
    cvwait = 0;
  },
  record { lockid = λ i. if i == 0 then hidelock else 0; wtntp = λ _. newwtnt; depth = 1 },
)

-- The hosts start to use a lock from here.
pub initsyn-Reach : (home hostc lock : ℕ) → Reach home hostc lock ((initsyn home hostc).0, λ p. out)
unfolding initsyn
initsyn-Reach home hostc lock = start (initsyn home hostc).0 refl
