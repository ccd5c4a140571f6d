-- ===== src/Server/Read/Tests.antt =====
-- A new client of a server with the ring of three servers.
use ketamarouter.Base.{
  ℕ, List, ◌+◌, ◌%◌, ◌≤◌, ◌≡◌, ◌≢◌, refl, none, some, [], ◌∷◌, arith, u64, codes,
}
use ketamarouter.Message.Buf.{msg_buf_init}
use ketamarouter.Message.Ops.{Msg, done}
use ketamarouter.Message.Keeps.Uses.{BufOwns, uses_msg, IsMsg, nothing, msg_buf_init-BufOwns}
use ketamarouter.Ketama.Route.Samples.{small_digest, ring_of_three}
use ketamarouter.Response.Tests.{takes_all}
use ketamarouter.Session.{Session, Env, Requests}
use ketamarouter.Command.Table.{command_list_load}
use ketamarouter.Command.Tests.{by_function}
use ketamarouter.Server.Read.{client_event_read}
use ketamarouter.Server.Read.Keeps.{lost_rows, client_event_read-Loses}
use ketamarouter.Server.Read.Counted.{Counted}
use ketamarouter.Server.Read.Excess.{HasExcess, client_event_read-Grows}
use ketamarouter.Server.Read.Requests.{Request, get, ping, other, no_command, no_param}

abbrev none_yet : Requests
none_yet = record { req_all = 0; req_ok = 0; req_err = 0 }

abbrev env : Env
env = record {
  write_ok = takes_all;
  digest = small_digest;
  ketama = some ring_of_three;
  find = by_function.lookup (command_list_load by_function);
}

abbrev session : Session
session = record {
  msg = none;
  out = [];
  client_req = none_yet;
  worker_req = none_yet;
  worker_buf = msg_buf_init;
  server_req_ok = 0;
  server_buf = msg_buf_init;
}

-- Two lines, of which the second is refused.
client_event_read-Loses_example :
    let t = client_event_read env (codes "+PING" ∷ codes "?" ∷ []) session in
    (m : Msg) × (n : ℕ) × (t.msg ≡ some m)
    × (IsMsg m × (m.stat ≢ done))
    × (n ≤ 2)
    × (t.client_req.req_err ≡ (0 + n) % u64)
    × (t.worker_req.req_err ≡ (0 + n) % u64)
    × BufOwns t.worker_buf (uses_msg m (lost_rows n nothing))
    × BufOwns t.server_buf nothing
client_event_read-Loses_example =
    client_event_read-Loses env nothing (codes "+PING" ∷ codes "?" ∷ []) session nothing tt
      (omega arith) (omega arith) msg_buf_init-BufOwns msg_buf_init-BufOwns

-- Requests of each kind.
abbrev conversation : List Request
conversation =
    get (codes "foobar42")
    ∷ ping
    ∷ other (codes "SET")
    ∷ no_command (codes "?")
    ∷ no_param (codes "x")
    ∷ []

-- Two commands in a row that fail.
client_event_read-Grows_example :
    (f : ℕ) × (f ≤ 2)
    × (let t = client_event_read env (codes "+SET" ∷ codes "+PUT" ∷ []) session in
        HasExcess 0 (0 + f) t)
client_event_read-Grows_example =
    client_event_read-Grows env (codes "+SET" ∷ codes "+PUT" ∷ []) session 0 0 (refl, refl)
