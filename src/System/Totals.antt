-- ===== src/System/Totals.antt =====
-- The sums over the workers that src/server.c takes: `server_get_current_connections`,
-- `server_get_req_all`, `server_get_req_ok` and `server_get_req_err`.
use ketamarouter.Base.{
  ℕ, suc, ◌+◌, ◌%◌, ◌<◌, ◌≡◌, refl, ◌∙◌, List, [], ◌∷◌, arith, length, get_or, u32, u64,
}
use ketamarouter.Session.{Env}
use ketamarouter.Server.Read.Counts.{Balanced}
use ketamarouter.Server.Accept.{
  Worker, worker_init, sum_loop, current_connections, get_req_all, get_req_ok, get_req_err,
}
use ketamarouter.Server.Accept.Limit.{current_connections-total}
use ketamarouter.Server.Init.{new_server}
use ketamarouter.System.{System, Reach, started}
use ketamarouter.System.Runs.{runs-Sound}

sums-Balanced :
    (workers : List Worker) (all ok err : ℕ)
    → all ≡ (ok + err) % u64
    → ((i : ℕ) → i < length workers → Balanced (get_or workers i worker_init).req)
    → sum_loop (λ w. w.req.req_all) all workers
      ≡ (sum_loop (λ w. w.req.req_ok) ok workers + sum_loop (λ w. w.req.req_err) err workers) % u64
unfolding sum_loop
sums-Balanced [] all ok err e h = e
sums-Balanced (w ∷ workers) all ok err e h =
    let own = h 0 (omega arith) in
    sums-Balanced workers ((all + w.req.req_all) % u64) ((ok + w.req.req_ok) % u64)
      ((err + w.req.req_err) % u64) (omega (arith, e, own)) (λ i b. h (suc i) (omega arith))

-- In every state that a server with a worker and a limit below 2 ^ 32 runs into, the connections that
-- are summed up over the workers are its clients, and the requests that are summed up are those in
-- order and the errors together, around 2 ^ 64.
pub runs-totals :
    (env : Env) (n max : ℕ) (t : System)
    → 0 < n
    → max < u32
    → Reach env (started (new_server n) max) t
    → (current_connections t.server.workers ≡ length t.clients)
      × (get_req_all t.server.workers
          ≡ (get_req_ok t.server.workers + get_req_err t.server.workers) % u64)
unfolding get_req_all get_req_ok get_req_err
runs-totals env n max t some_worker limit run =
    let sound = runs-Sound env n max some_worker limit t run in
    let few = sound.bounded in
    (
      current_connections-total t.server.workers
            (omega (arith, sound.total, sound.bounded, sound.limit))
          ∙ sound.total,
      sums-Balanced t.server.workers 0 0 0 refl (λ i b. (sound.workers i b).1),
    )
