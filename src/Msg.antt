-- ===== src/Msg.antt =====
-- src/msg: the messages, their buffers, message passing and broadcast.
pub mod Types
pub mod Bcast
pub mod Passing
pub mod Reduce
pub mod Slots
