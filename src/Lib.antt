-- ===== src/Lib.antt =====
-- M-JIAJIA, a software distributed shared memory: hosts run the same program, share pages that a
-- home host keeps, and follow the home-based scope consistency of its locks and barriers.
--
-- The parts, from the wire up. The messages wait in two ring queues, `outqueue` and `inqueue`
-- (src/comm/comm.c): Comm.Queue. Over UDP the client thread sends the out-queue message by message,
-- with a sequence number for each host and an ack (src/udp/udp_client.c), and the listen thread
-- acks every datagram and takes those in sequence (src/udp/udp_listen.c): Comm.Udp. Comm.Udp.Link
-- puts the two on a network that loses, repeats and reorders. The server thread hands what the
-- in-queue has to the handlers (`msg_handle` of src/msg/msg.c); the message format is Msg.Types,
-- and the broadcast tree of `bsendmsg` and `bcastserver` is Msg.Bcast. Messages are built in the
-- slots of `msg_buffer`, which the threads take and free against each other (`freemsg_lock`):
-- Msg.Slots. Msg.Passing has the users' messages, from `jia_send` through `msgrecvserver`
-- (src/msg/msgserver.c) to `jia_recv` (src/msg/msguser.c), and Msg.Reduce the schedule of their
-- `jia_reduce`: which host sends to which in a round.
--
-- A host that touches a page it does not have faults (`sigsegv_handler` of src/mem/memsyn.c): it
-- takes an entry of its cache (`findposition`, Mem.Cache) and asks the page's home for the bytes
-- (`getpserver`, `getpgrantserver` of src/mem/memserver.c: Mem.Fetch). It writes to the cached
-- page, sends the home the diff against the twin (`encodediff`, `diffserver`: Mem.Diff; collected
-- for each home by `savediff` and sent by `senddiffs`: Mem.Diff.Save), and notes the page in a
-- write notice (`savewtnt` of src/syn/syn.c: Syn.Notices). The notices go with a REL or BARR
-- message to the home of the lock or barrier (`sendwtnts`, `recordwtnts`), and from there to the
-- hosts that get the lock or leave the barrier (`grantlock`, `grantbarr`): Syn.Notices.Pack,
-- Syn.Notices.Send. The home's handlers for locks and barriers (src/syn/synserver.c) are
-- Syn.Server, those for condition variables Syn.Server.Condvars; what a host does with the notices
-- that it gets (`invalidate`, and `migpage` and `migarrangehome` of src/syn/mig.c) is Mem.Invalid;
-- the users' calls (src/syn/synuser.c) with the lock stack are Syn.User; Syn.Mutex lets the hosts
-- run against the home of one lock, from the state of `initsyn`, Syn.Init. Syn.Interval is the
-- protection of the pages at the start of an interval (`startinterval` of src/syn/syn.c),
-- Syn.Interval.Ending the notices of `endinterval` for home pages. Mem.Alloc is the allocation of
-- the shared space (src/mem/memuser.c), which fixes each page's home. Load has the division of a
-- loop among the hosts (`jia_divtask` of src/load/load.c).
--
-- How the code is rendered. A handler is a function from its state to the new state and the calls
-- that it makes into other parts, in order; `none` is an assertion that fails, which ends the
-- program, and where a text says so a call that blocks. Semaphores and mutexes make the steps of
-- the queues atomic. Arrays are functions of the index. Header fields that a sender leaves as they
-- were in its slot are 0. Numbers are natural numbers with the wrap-around of the C types written
-- out; a negative `int` that is stored is its 32-bit pattern. The pages' bytes are functions of the
-- offset. What is not of this code, such as mmap, mprotect and sockets, is an event or a column of
-- the state.
--
-- Bounds and fuel. The loops over a page, a chain or a queue are recursions on what is left. Where
-- a loop is not, it has fuel: `encode_loop` 1025 rounds for the 1024 diff units of a page,
-- `apply_loop` the size of the diff, `record_loop` the length of the message, the streams of
-- notices one round for each node and one more, the allocation a round for each byte at most, the
-- broadcast tree one for each host and one more, `nextmsg` Maxmsgbufs + 2. The loops over the
-- prefetched pages, the cache entries and the home pages are bounded by counts of the code. The
-- results below are about results that are returned, with fuel that is shown to be enough.
--
-- Not modelled: start-up, settings, shutdown and statistics (src/init, src/setting, src/exit,
-- src/stat), the RDMA transport (src/rdma), which calls a driver library around the same queues,
-- sockets and signal handlers, and the measuring of the hosts' powers for load balancing, which is
-- in floats. What `jia_reduce` sends and receives is left out, since its `jia_recv` does not wait
-- and what it gets depends on when the messages come; `jia_bcast` and the write vectors (W_VEC) are
-- left out so far.
pub mod Prelude
pub mod Constants
pub mod Comm
pub mod Mem
pub mod Msg
pub mod Syn
pub mod Load
