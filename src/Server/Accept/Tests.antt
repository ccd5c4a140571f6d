-- ===== src/Server/Accept/Tests.antt =====
-- A server with two workers and room for three connections.
use ketamarouter.Base.{ℕ, zero, suc, ◌-◌, ◌≤◌, ◌≡◌, some, List, [], ◌∷◌, arith, u64}
use ketamarouter.Message.Buf.{msg_buf_init}
use ketamarouter.Response.Tests.{takes_all}
use ketamarouter.Server.Accept.{
  Worker, Server, Accepted, taken_by, no_requests, server_event_accept, connection_release,
  least_connection_worker,
}
use ketamarouter.Server.Accept.Least.{IsLeast, least_connection_worker-IsLeast}
use ketamarouter.Server.Accept.Even.{IsEven, server_event_accept-IsEven}
use ketamarouter.Server.Accept.Limit.{
  total_clients, Outcome, server_event_accept-Outcome, accept_release,
}

abbrev busy : ℕ → Worker
busy n = record { num_client = n; req = no_requests; msg_buf = msg_buf_init }

abbrev two_workers : List Worker
two_workers = busy 1 ∷ busy 0 ∷ []

abbrev server : Server
server = record {
  conn_cur_count = 0;
  conn_max = 0;
  max_connections = 3;
  req_ok = 0;
  msg_buf = msg_buf_init;
  workers = two_workers;
}

server_event_accept-Outcome_example :
    (a : Accepted) × (t : Server) × (server_event_accept takes_all server ≡ some (a, t))
    × (total_clients t.workers ≤ 3)
    × Outcome takes_all server t a
server_event_accept-Outcome_example =
    server_event_accept-Outcome takes_all server (omega arith) (omega arith) (omega arith)

accept_release_example :
    (w : ℕ) × (t : Server) × (server_event_accept takes_all server ≡ some (taken_by w, t))
    × (total_clients (connection_release t w).workers ≡ 1)
    × ((connection_release t w).conn_cur_count ≡ u64 - 1)
accept_release_example = accept_release takes_all server (omega arith) (omega arith) (omega arith)

two_workers-IsEven : IsEven two_workers
two_workers-IsEven zero j hi hj = omega arith
two_workers-IsEven (suc zero) j hi hj = omega arith
two_workers-IsEven (suc (suc i)) j hi hj = absurd (omega arith)

server_event_accept-IsEven_example :
    (a : Accepted) × (t : Server) × (server_event_accept takes_all server ≡ some (a, t))
    × IsEven t.workers
server_event_accept-IsEven_example =
    server_event_accept-IsEven takes_all server (omega arith) (omega arith) (omega arith)
      two_workers-IsEven

least_connection_worker-IsLeast_example :
    (r : ℕ) × (least_connection_worker two_workers ≡ some r) × IsLeast two_workers r
least_connection_worker-IsLeast_example = least_connection_worker-IsLeast two_workers (omega arith)
