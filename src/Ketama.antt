-- ===== src/Ketama.antt =====
-- src/ketama.h and src/ketama.c: the consistent-hashing ring. One child for each part of the object,
-- with its proofs below it.
pub mod State
pub mod Servers
pub mod Continuum
pub mod Lookup
pub mod Route
pub mod Ends
