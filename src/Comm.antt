-- ===== src/Comm.antt =====
-- src/comm/comm.c and src/udp: the message queues between the threads, and the link to the peers.
pub mod Queue
pub mod Udp
