-- ===== src/Server.antt =====
-- src/server.c, src/worker.c and src/client.c: a connection is accepted and given to a worker, its
-- lines are read and answered, and it is released.
pub mod Read
pub mod Accept
pub mod Init
