-- ===== src/Server/Accept/Limit.antt =====
-- The limit of `server_event_accept`, and the counts after a release.
use ketamarouter.Base.{
  ℕ, zero, suc, ◌+◌, ◌-◌, ◌%◌, ◌≤◌, ◌<◌, ◌≡◌, inl, inr, refl, Bool, false, some, List, [], ◌∷◌,
  if◌then◌else◌, ltb, leb, ap, ◌∙◌, List-cases, Bytes, u32, u64, arith, length, get_or, length-set,
  Bool-cases,
}
use ketamarouter.Response.{Rows, resp_error_max_connection}
use ketamarouter.Server.Accept.{
  Worker, Server, worker_init, sum_loop, current_connections, worker_increase_count,
  worker_decrease_count, at_worker, Accepted, refused, taken_by, take_connection, refuse_connection,
  answer_accept, server_event_accept, connection_release,
}
use ketamarouter.Server.Accept.Least.{count_at, IsLeast, least_connection_worker-IsLeast}

-- The clients of all workers.
abbrev pub total_clients : List Worker → ℕ
total_clients [] = 0
total_clients (w ∷ workers) = w.num_client + total_clients workers

sum_loop-total :
    (acc : ℕ) (workers : List Worker)
    → acc < u64
    → sum_loop (λ w. w.num_client) acc workers ≡ (acc + total_clients workers) % u64
unfolding sum_loop
sum_loop-total acc [] h = omega arith
sum_loop-total acc (w ∷ workers) h =
    let ih = sum_loop-total ((acc + w.num_client) % u64) workers (omega arith) in omega (arith, ih)

pub current_connections-total :
    (workers : List Worker)
    → total_clients workers < u64
    → current_connections workers ≡ total_clients workers
unfolding current_connections
current_connections-total workers h = omega (arith, sum_loop-total 0 workers (omega arith))

pub count_at-total :
    (workers : List Worker) (i : ℕ)
    → i < length workers
    → count_at workers i ≤ total_clients workers
count_at-total [] i h = absurd (omega arith)
count_at-total (w ∷ workers) zero h = omega arith
count_at-total (w ∷ workers) (suc i) h = omega (arith, count_at-total workers i (omega arith))

total-increase :
    (workers : List Worker) (i : ℕ)
    → i < length workers
    → count_at workers i + 1 < u32
    → total_clients (at_worker worker_increase_count i workers) ≡ total_clients workers + 1
unfolding worker_increase_count
total-increase [] i h b = absurd (omega arith)
total-increase (w ∷ workers) zero h b = omega arith
total-increase (w ∷ workers) (suc i) h b = omega (arith, total-increase workers i (omega arith) b)

pub total-decrease :
    (workers : List Worker) (i : ℕ)
    → i < length workers
    → 0 < count_at workers i
    → count_at workers i < u32
    → total_clients (at_worker worker_decrease_count i workers) + 1 ≡ total_clients workers
unfolding worker_decrease_count
total-decrease [] i h p b = absurd (omega arith)
total-decrease (w ∷ workers) zero h p b = omega arith
total-decrease (w ∷ workers) (suc i) h p b =
    omega (arith, total-decrease workers i (omega arith) p b)

-- What is known of a server before and after, by what became of the connection.
abbrev pub Outcome : (Rows → Bytes → Bool) → Server → Server → Accepted → Type 0
Outcome write_ok s t (refused rows) =
    (total_clients s.workers ≡ s.max_connections)
    × (t.workers ≡ s.workers)
    × (rows ≡ (resp_error_max_connection write_ok [] s.msg_buf).0.1)
    × (t ≡ record s { msg_buf = (resp_error_max_connection write_ok [] s.msg_buf).1 })
Outcome write_ok s t (taken_by w) =
    IsLeast s.workers w
    × (t.workers ≡ at_worker worker_increase_count w s.workers)
    × (total_clients t.workers ≡ total_clients s.workers + 1)
    × (t ≡ record s {
      conn_max = if ltb s.conn_max s.conn_cur_count then s.conn_cur_count else s.conn_max;
      workers = at_worker worker_increase_count w s.workers;
    })

take_connection-Outcome :
    (write_ok : Rows → Bytes → Bool) (s : Server)
    → 0 < length s.workers
    → s.max_connections < u32
    → total_clients s.workers < s.max_connections
    → (a : Accepted) × (t : Server) × (take_connection s ≡ some (a, t))
      × (total_clients t.workers ≤ s.max_connections)
      × Outcome write_ok s t a
unfolding take_connection
take_connection-Outcome write_ok s some_worker m lt =
    let (r, e, least) = least_connection_worker-IsLeast s.workers some_worker in
    let c = count_at-total s.workers r least.0 in
    let grown = total-increase s.workers r least.0 (omega (arith, c)) in
    let t : Server = record s {
      conn_max = if ltb s.conn_max s.conn_cur_count then s.conn_cur_count else s.conn_max;
      workers = at_worker worker_increase_count r s.workers;
    } in
    (taken_by r, t, rw (e, take_connection) refl, omega (arith, grown), (least, refl, grown, refl))

-- With a worker, the sum may be read.
accept_some :
    (write_ok : Rows → Bytes → Bool) (s : Server)
    → 0 < length s.workers
    → server_event_accept write_ok s ≡ answer_accept write_ok s
unfolding server_event_accept
accept_some write_ok s h = elim (List-cases s.workers) [
  | inl e ↦ absurd (omega (arith, ap length e, h))
  | inr (w, rest, e) ↦ rw e refl
]

-- For a server with a worker, a limit of connections below 2 ^ 32 and no more connections than that,
-- `server_event_accept` is defined and leaves no more connections than the limit. It refuses only
-- where the limit is reached, and then changes nothing but its pools and writes the answer for it;
-- otherwise the first of the workers with the fewest clients takes the connection, which is the only
-- one more.
pub server_event_accept-Outcome :
    (write_ok : Rows → Bytes → Bool) (s : Server)
    → 0 < length s.workers
    → s.max_connections < u32
    → total_clients s.workers ≤ s.max_connections
    → (a : Accepted) × (t : Server) × (server_event_accept write_ok s ≡ some (a, t))
      × (total_clients t.workers ≤ s.max_connections)
      × Outcome write_ok s t a
unfolding answer_accept refuse_connection
server_event_accept-Outcome write_ok s some_worker m le =
    let c = current_connections-total s.workers (omega arith) in
    elim (Bool-cases (leb s.max_connections (total_clients s.workers))) [
      | inl full ↦
          let r = resp_error_max_connection write_ok [] s.msg_buf in
          (
            refused r.0.1,
            record s { msg_buf = r.1 },
            accept_some write_ok s some_worker ∙ rw (c, answer_accept, full) refl,
            le,
            (ground arith, refl, refl, refl),
          )
      | inr room ↦
          let lt : total_clients s.workers < s.max_connections = ground arith in
          let (a, t, e, bound, out) = take_connection-Outcome write_ok s some_worker m lt in
          (a, t, accept_some write_ok s some_worker ∙ rw (c, answer_accept, room) e, bound, out)
    ]

count_at_self :
    (workers : List Worker) (r : ℕ)
    → r < length workers
    → count_at workers r + 1 < u32
    → count_at (at_worker worker_increase_count r workers) r ≡ count_at workers r + 1
unfolding worker_increase_count
count_at_self [] r h b = absurd (omega arith)
count_at_self (w ∷ workers) zero h b = omega arith
count_at_self (w ∷ workers) (suc r) h b = count_at_self workers r (omega arith) b

-- Where there is room, a connection that is accepted and then released leaves as many clients as
-- before, and `conn_cur_count` one less than before, around 2 ^ 64: it is counted down for each
-- release and counted up for no connection.
pub accept_release :
    (write_ok : Rows → Bytes → Bool) (s : Server)
    → 0 < length s.workers
    → s.max_connections < u32
    → total_clients s.workers < s.max_connections
    → (w : ℕ) × (t : Server) × (server_event_accept write_ok s ≡ some (taken_by w, t))
      × (total_clients (connection_release t w).workers ≡ total_clients s.workers)
      × ((connection_release t w).conn_cur_count ≡ (s.conn_cur_count + u64 - 1) % u64)
unfolding answer_accept take_connection connection_release
accept_release write_ok s some_worker m lt =
    let (r, e, least) = least_connection_worker-IsLeast s.workers some_worker in
    let c = count_at-total s.workers r least.0 in
    let ws = at_worker worker_increase_count r s.workers in
    let t : Server = record s {
      conn_max = if ltb s.conn_max s.conn_cur_count then s.conn_cur_count else s.conn_max;
      workers = ws;
    } in
    let room : leb s.max_connections (total_clients s.workers) ≡ false = ground arith in
    let len : length ws ≡ length s.workers =
      length-set s.workers r (worker_increase_count (get_or s.workers r worker_init)) in
    let self = count_at_self s.workers r least.0 (omega (arith, c)) in
    let grown = total-increase s.workers r least.0 (omega (arith, c)) in
    let shrunk =
      total-decrease ws r (omega (arith, len, least.0)) (omega (arith, self))
        (omega (arith, self, c)) in
    (
      r,
      t,
      accept_some write_ok s some_worker
          ∙ rw
              (
                current_connections-total s.workers (omega arith),
                answer_accept,
                room,
                take_connection,
                e,
              )
              refl,
      omega (arith, grown, shrunk),
      refl,
    )
