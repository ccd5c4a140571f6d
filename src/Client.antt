-- ===== src/Client.antt =====
-- src/client.c and `client_connection_release`: a client of one of the workers.
use ketamarouter.Base.{ℕ, Option, none, List, [], get_or}
use ketamarouter.Message.Ops.{Msg, msg_free}
use ketamarouter.Response.{Rows}
use ketamarouter.Session.{Session, Env, Requests}
use ketamarouter.Server.Read.{client_event_read}
use ketamarouter.Server.Accept.{
  Worker, Server, no_requests, worker_init, at_worker, connection_release,
}

-- `client_t`, with the index of its worker. `out` is what its socket took so far.
pub record Client : Type 0 where
  pub worker : ℕ
  pub msg : Option Msg
  pub out : Rows
  pub req : Requests

unfoldable pub client_init : ℕ → Client
client_init w = record { worker = w; msg = none; out = []; req = no_requests }

-- The message goes back to the pools of the worker. The block of the client itself is not freed.
unfoldable pub client_free : Client → Worker → Worker
client_free c w = record w { msg_buf = (msg_free c.msg w.msg_buf).1 }

-- `client_event_error` and the `client_connection_release` that it ends with.
unfoldable pub client_connection_release : Server → Client → Server
unfolding client_free connection_release
client_connection_release s c =
    let t = connection_release s c.worker in
    record t { workers = at_worker (client_free c) c.worker t.workers }

-- What a read event of the client works on, and what it leaves.
abbrev pub session_of : Server → Client → Session
session_of s c =
    let w = get_or s.workers c.worker worker_init in
    record {
      msg = c.msg;
      out = c.out;
      client_req = c.req;
      worker_req = w.req;
      worker_buf = w.msg_buf;
      server_req_ok = s.req_ok;
      server_buf = s.msg_buf;
    }

abbrev pub put_worker : Session → Worker → Worker
put_worker r w = record w { req = r.worker_req; msg_buf = r.worker_buf }

abbrev pub server_after : Session → ℕ → Server → Server
server_after r w s = record s {
  req_ok = r.server_req_ok;
  msg_buf = r.server_buf;
  workers = at_worker (put_worker r) w s.workers;
}

abbrev pub client_after : Session → Client → Client
client_after r c = record c { msg = r.msg; out = r.out; req = r.client_req }

-- `client_event_read` of a client of the server.
unfoldable pub client_read : Env → List (List ℕ) → Server → Client → Server × Client
client_read env lines s c =
    let r = client_event_read env lines (session_of s c) in
    (server_after r c.worker s, client_after r c)
