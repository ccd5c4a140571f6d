-- ===== src/Message/Keeps.antt =====
-- The objects of the pools that a message stands for, under each operation of src/message.c.
pub mod Uses
pub mod Reorder
pub mod Adds
pub mod Free
pub mod Add
pub mod Gen
pub mod Tests
