-- ===== src/Syn/Notices.antt =====
-- wtnt_t of src/include/syn.h: chains of write notices, `newwtnt` and `freewtntspace` of
-- src/tools/tools.c, and `savewtnt` of src/syn/syn.c.
pub mod Laws
pub mod Pack
pub mod Send
mod Tests
use jiajia.Prelude.{
  ℕ, ◌+◌, ◌*◌, ◌/◌, ◌%◌, ◌^◌, Bool, true, false, ◌||◌, ◌&&◌, not, Option, none, some, List, [], ◌∷◌,
  ◌++◌, if◌then◌else◌, ◌==◌, ltb, leb, length,
}
use jiajia.Constants.{page_size, max_wtnts, max_hosts}

-- One column of the arrays `wtnts`, `from`, `scope`, `mig`. `scope` is a 32-bit pattern: -1 is
-- 0xffffffff.
pub record Notice : Type 0 where
  pub addr : ℕ
  pub from : ℕ
  pub scope : ℕ
  pub mig : ℕ

-- A node is the columns below `wtntc`, a chain the nodes along `more`; [] is WNULL.
abbrev pub Node : Type 0
Node = List Notice

abbrev pub Chain : Type 0
Chain = List Node

abbrev pub page_of : ℕ → ℕ
page_of addr = addr / page_size

unfoldable pub newwtnt : Chain
newwtnt = [] ∷ []

-- The nodes behind the first are freed, and the first is emptied; WNULL would be dereferenced.
unfoldable pub freewtntspace : Chain → Option Chain
freewtntspace [] = none
freewtntspace (node ∷ more) = some ([] ∷ [])

-- Step 1 of `savewtnt`: is the page in the node, and in the chain?
unfoldable pub in_node : ℕ → Node → Bool
in_node addr [] = false
in_node addr (n ∷ ns) = page_of addr == page_of n.addr || in_node addr ns

unfoldable pub in_chain : ℕ → Chain → Bool
in_chain addr [] = false
in_chain addr (node ∷ more) = in_node addr node || in_chain addr more

-- Step 2, "existed": the first notice of the page gets Maxhosts, and the new scope and mig.
unfoldable pub change_node : ℕ → ℕ → ℕ → Node → Node
change_node addr mig scope [] = []
change_node addr mig scope (n ∷ ns) =
    if page_of addr == page_of n.addr
    then record n { from = max_hosts; scope = scope; mig = mig } ∷ ns
    else n ∷ change_node addr mig scope ns

unfoldable pub change_chain : ℕ → ℕ → ℕ → Chain → Chain
change_chain addr mig scope [] = []
change_chain addr mig scope (node ∷ more) =
    if in_node addr node
    then change_node addr mig scope node ∷ more
    else node ∷ change_chain addr mig scope more

-- Step 2, "not existed": the notice goes into the first node that is not full, and into a new node
-- if there is none.
unfoldable pub add_notice : Notice → Chain → Chain
add_notice n [] = (n ∷ []) ∷ []
add_notice n (node ∷ more) =
    if leb max_wtnts (length node) then node ∷ add_notice n more else (node ++ (n ∷ [])) ∷ more

-- The chains of a lock at its home and of a stack entry have a node from the start; on WNULL, the empty
-- chain, this makes a node, where the code would follow the null pointer.
unfoldable pub savewtnt : Chain → ℕ → ℕ → ℕ → ℕ → Chain
savewtnt ptr addr mig frompid scope =
    if in_chain addr ptr
    then change_chain addr mig scope ptr
    else add_notice (record { addr = addr; from = frompid; scope = scope; mig = mig }) ptr

-- All notices of a chain, in the order in which the code walks it.
unfoldable pub notices : Chain → List Notice
notices [] = []
notices (node ∷ more) = node ++ notices more
