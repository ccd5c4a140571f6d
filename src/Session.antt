-- ===== src/Session.antt =====
-- What one read event works on: the client of src/client.h with its worker and its server, as far
-- as the event changes them, and what it finds outside.
use ketamarouter.Base.{ℕ, ◌+◌, ◌%◌, Bool, false, ◌≡◌, Option, List, Bytes, u64}
use ketamarouter.Ketama.State.{Ketama}
use ketamarouter.Str.{Str}
use ketamarouter.Message.Buf.{MsgBuf, State}
use ketamarouter.Message.Ops.{Msg}
use ketamarouter.Response.{Rows}

-- `req_all`, `req_ok` and `req_err`, which a client and a worker have each.
pub record Requests : Type 0 where
  pub req_all : ℕ
  pub req_ok : ℕ
  pub req_err : ℕ

-- `client_increase_req_ok` and `worker_increase_req_ok`, and the two that count errors.
unfoldable pub increase_req_ok : Requests → Requests
increase_req_ok r = record r { req_all = (r.req_all + 1) % u64; req_ok = (r.req_ok + 1) % u64 }

unfoldable pub increase_req_err : Requests → Requests
increase_req_err r = record r { req_all = (r.req_all + 1) % u64; req_err = (r.req_err + 1) % u64 }

-- `msg`, `client_req` and the socket are the client's, `worker_req` and `worker_buf` the worker's,
-- `server_req_ok` and `server_buf` the server's. `out` is what the socket took so far.
pub record Session : Type 0 where
  pub msg : Option Msg
  pub out : Rows
  pub client_req : Requests
  pub worker_req : Requests
  pub worker_buf : MsgBuf
  pub server_req_ok : ℕ
  pub server_buf : MsgBuf

-- The two functions that a command may name.
pub data Func : Type 0 where
  get_func ping_func : Func

-- `command_t`.
pub record Command : Type 0 where
  pub name : Str
  pub param_min : ℕ
  pub param_max : ℕ
  pub func : Func

-- `find` is `g_hash_table_lookup` in the command list of the server.
pub record Env : Type 0 where
  pub write_ok : Rows → Bytes → Bool
  pub digest : Bytes → List ℕ
  pub ketama : Option Ketama
  pub find : Str → Option Command

-- A computation on the objects of the worker, or of the server, in a session.
unfoldable pub on_worker : {A : Type 0} → State A → Session → A × Session
on_worker m s = ((m s.worker_buf).0, record s { worker_buf = (m s.worker_buf).1 })

unfoldable pub on_server : {A : Type 0} → State A → Session → A × Session
on_server m s = ((m s.server_buf).0, record s { server_buf = (m s.server_buf).1 })

-- The errors that the client and its worker count.
abbrev pub errors : Session → ℕ × ℕ
errors s = (s.client_req.req_err, s.worker_req.req_err)

-- Whether the worker, or the server, has read or written what it must not. Such an event ends the
-- process, and is survived where both are unset.
abbrev pub faults : Session → Bool × Bool
faults s = (s.worker_buf.fault, s.server_buf.fault)

abbrev pub Survived : Session → Type 0
Survived s = faults s ≡ (false, false)
