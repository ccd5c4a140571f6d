-- ===== src/Server/Accept.antt =====
-- `server_event_accept` with the choice of a worker, `worker_add_new_connection` and
-- `client_connection_release`, as far as connections are counted and answered.
pub mod Least
pub mod Limit
pub mod Even
mod Tests
use ketamarouter.Base.{
  ℕ, ◌+◌, ◌-◌, ◌%◌, Bool, Option, none, some, List, [], ◌∷◌, if◌then◌else◌, ltb, leb, Bytes, u32,
  u64, get_or, set,
}
use ketamarouter.Message.Buf.{MsgBuf, msg_buf_init}
use ketamarouter.Response.{Rows, resp_error_max_connection}
use ketamarouter.Session.{Requests}

-- `worker_t`.
pub record Worker : Type 0 where
  pub num_client : ℕ
  pub req : Requests
  pub msg_buf : MsgBuf

-- `server_t`; `max_connections` is what `setting_get_max_connections` gives.
pub record Server : Type 0 where
  pub conn_cur_count : ℕ
  pub conn_max : ℕ
  pub max_connections : ℕ
  pub req_ok : ℕ
  pub msg_buf : MsgBuf
  pub workers : List Worker

unfoldable pub worker_increase_count : Worker → Worker
worker_increase_count w = record w { num_client = (w.num_client + 1) % u32 }

unfoldable pub worker_decrease_count : Worker → Worker
worker_decrease_count w = record w { num_client = (w.num_client + u32 - 1) % u32 }

-- The loop from `i` on, where the worker at `w` with `n` clients is the least so far.
unfoldable pub least_loop : ℕ → ℕ → ℕ → List Worker → ℕ
least_loop i w n [] = w
least_loop i w n (x ∷ workers) =
    let here = least_loop (i + 1) i x.num_client workers in
    let before = least_loop (i + 1) w n workers in if ltb x.num_client n then here else before

-- `server_get_least_connection_worker`, as an index; `none` is a read of `wl[0]` where there is none.
unfoldable pub least_connection_worker : List Worker → Option ℕ
unfolding least_loop
least_connection_worker [] = none
least_connection_worker (w ∷ workers) = some (least_loop 1 0 w.num_client workers)

-- The four sums of `server_get_current_connections` and `server_get_req_all`, `_ok` and `_err`.
unfoldable pub sum_loop : (Worker → ℕ) → ℕ → List Worker → ℕ
sum_loop f acc [] = acc
sum_loop f acc (w ∷ workers) = sum_loop f ((acc + f w) % u64) workers

unfoldable pub current_connections : List Worker → ℕ
unfolding sum_loop
current_connections = sum_loop (λ w. w.num_client) 0

unfoldable pub get_req_all : List Worker → ℕ
unfolding sum_loop
get_req_all = sum_loop (λ w. w.req.req_all) 0

unfoldable pub get_req_ok : List Worker → ℕ
unfolding sum_loop
get_req_ok = sum_loop (λ w. w.req.req_ok) 0

unfoldable pub get_req_err : List Worker → ℕ
unfolding sum_loop
get_req_err = sum_loop (λ w. w.req.req_err) 0

abbrev pub no_requests : Requests
no_requests = record { req_all = 0; req_ok = 0; req_err = 0 }

-- `worker_init`: `calloc` and the pools.
unfoldable pub worker_init : Worker
worker_init = record { num_client = 0; req = no_requests; msg_buf = msg_buf_init }

abbrev pub at_worker : (Worker → Worker) → ℕ → List Worker → List Worker
at_worker f i workers = set workers i (f (get_or workers i worker_init))

-- A connection is refused with an answer and closed, or a worker takes it. `none` is undefined.
pub data Accepted : Type 0 where
  refused : Rows → Accepted
  taken_by : ℕ → Accepted

-- The connection that found room.
unfoldable pub take_connection : Server → Option (Accepted × Server)
unfolding worker_increase_count least_connection_worker
take_connection s = elim (least_connection_worker s.workers) [
  | none ↦ none
  | some w ↦ some (
    taken_by w,
    record s {
      conn_max = if ltb s.conn_max s.conn_cur_count then s.conn_cur_count else s.conn_max;
      workers = at_worker worker_increase_count w s.workers;
    },
  )
]

unfoldable pub refuse_connection : (Rows → Bytes → Bool) → Server → Option (Accepted × Server)
refuse_connection write_ok s =
    let r = resp_error_max_connection write_ok [] s.msg_buf in
    some (refused r.0.1, record s { msg_buf = r.1 })

unfoldable pub answer_accept : (Rows → Bytes → Bool) → Server → Option (Accepted × Server)
unfolding take_connection current_connections refuse_connection
answer_accept write_ok s =
    if leb s.max_connections (current_connections s.workers)
    then refuse_connection write_ok s
    else take_connection s

-- `server_get_current_connections` reads `wl[0]`, which there must be.
unfoldable pub server_event_accept : (Rows → Bytes → Bool) → Server → Option (Accepted × Server)
unfolding answer_accept
server_event_accept write_ok s = elim s.workers [ [] ↦ none | _ ∷ _ ↦ answer_accept write_ok s ]

-- `client_connection_release`, of a client of the worker at `w`.
unfoldable pub connection_release : Server → ℕ → Server
unfolding worker_decrease_count
connection_release s w = record s {
  conn_cur_count = (s.conn_cur_count + u64 - 1) % u64;
  workers = at_worker worker_decrease_count w s.workers;
}
