-- ===== src/Message.antt =====
-- src/message.h and src/message.c: a message is a command and its parameters, in objects of the pools
-- of a `msg_buf_t`.
pub mod Buf
pub mod Ops
pub mod Gen
pub mod Print
pub mod Keeps
