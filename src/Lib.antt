-- ===== src/Lib.antt =====
-- ketamarouter is a server that tells clients which node of a cluster owns a key. A client sends a
-- command and its parameters, one row each; the server decodes the rows into a message, looks the
-- command up, and for GET finds the owner of the key on a ring of consistent hashing and answers NODE
-- with its address.
--
-- The parts, and the files that model them:
--   Ketama    src/ketama.c: the list of servers (Ketama_add_server is add_server), the continuum
--             (Ketama_create_continuum is create_continuum), and the binary search
--             (Ketama_get_server_ordinal is get_server_ordinal).
--   Pabuf     src/pabuf.c: the pools that messages and strings come from.
--   Countque  src/countque.c: counts of events in a window of time.
--   Str       src/str.c: strings, and what the hash table of commands calls.
--   Message   src/message.c: messages. Buf is msg_buf_t, with the state that a computation on its pools
--             passes on; Ops takes rows that were read, Gen writes rows.
--   Decoder   src/decoder.c: rows into messages.
--   Response  src/response.c: answers.
--   Session   src/client.h and src/client.c: what a read event works on.
--   Command   src/command.c and src/command_func.c: the list of commands, GET and PING.
--   Server    src/server.c and src/worker.c: Read is client_event_read, Accept is
--             server_event_accept with the counts of a release, Init is server_init. Read/Requests
--             names the requests of a client, and Read/Protocol is about the server's side of them.
--   Client    src/client.c and client_connection_release: a client of a worker.
--   System    the server with all its clients: connections that come in, send lines and end, as steps
--             in any order. Sound is what holds between two of them.
--   Logging   src/logging.c: the level, the stream and the lines of the log; Events is the log of the
--             event library in src/event_util.c.
--   Setting   src/setting.c: the file of settings, its mandatory options and its defaults.
--   Krouter   src/krouter.c: main, from the command line to the server that waits for events.
--   Base      numbers, lists, bytes and decimal digits that the others share.
--
-- Memory: a pointer to an object of a pool is a number, and the theorems tell which objects are out.
-- Rows of malloc and calloc are counted. Where C leaves an access undefined, a function yields none or
-- sets a flag `fault`; lines that set it end the process, and System has no step for them. Integers wrap
-- where the code's types do.
--
-- Fuel: the search on the ring has numpoints + 1 rounds of fuel, and each round leaves less to search.
-- Every other loop is structural, with the count that bounds it in the code.
--
-- Parameters: MD5 (src/md5.c, another project's code), the share of a server in the points (floating
-- point), qsort, the hash table and the key file of glib, getopt, access, localtime and vfprintf, and
-- listening and write on a socket. Where a theorem relies on documented behaviour of one, that is a
-- hypothesis of it; the tests have an instance of each.
--
-- Not modelled: threads, signals, the clock and the dispatch of events, which are calls of libraries;
-- and what the other parts log. A read event is one step: its worker's pools are its own, and the pools
-- of the server, which the answer to an unknown command uses from any worker, are taken as if no other
-- worker used them meanwhile.
pub mod Base
pub mod Ketama
pub mod Pabuf
pub mod Countque
pub mod Str
pub mod Message
pub mod Decoder
pub mod Response
pub mod Session
pub mod Command
pub mod Server
pub mod Client
pub mod System
pub mod Logging
pub mod Setting
pub mod Krouter
