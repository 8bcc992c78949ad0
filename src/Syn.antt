-- ===== src/Syn.antt =====
-- src/syn: write notices, locks, barriers, condition variables.
pub mod Notices
pub mod Server
pub mod Mutex
pub mod User
pub mod Init
pub mod Interval
