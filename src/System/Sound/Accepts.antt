-- ===== src/System/Sound/Accepts.antt =====
-- A connection that comes in.
use ketamarouter.Base.{
  ℕ, ◌+◌, ◌≤◌, ◌<◌, ◌≡◌, ◌≢◌, sym, ap, ◌∙◌, subst, some, List, [], ◌∷◌, arith, Bool, Bytes,
  some-injective, codes, length, length-set, get_or, All, u32, ◌==◌, true, false,
}
use ketamarouter.Message.Buf.{MsgBuf}
use ketamarouter.Message.Keeps.Uses.{BufOwns, nothing}
use ketamarouter.Response.{Rows, resp_error_max_connection}
use ketamarouter.Response.Keeps.{resp_error-balanced}
use ketamarouter.Server.Accept.{
  Worker, Server, Accepted, refused, taken_by, worker_init, at_worker, worker_increase_count,
  server_event_accept,
}
use ketamarouter.Server.Accept.Least.{count_at}
use ketamarouter.Server.Accept.Limit.{
  Outcome, total_clients, count_at-total, server_event_accept-Outcome,
}
use ketamarouter.Client.{Client, client_init}
use ketamarouter.System.{System, admit}
use ketamarouter.System.Sound.{ClientSound, WorkerSound, Sound, at_worker-WorkerSound}

refused-server_buf :
    (write_ok : Rows → Bytes → Bool) (b : MsgBuf)
    → BufOwns b nothing
    → BufOwns (resp_error_max_connection write_ok [] b).1 nothing
unfolding resp_error_max_connection
refused-server_buf write_ok b o =
    (resp_error-balanced write_ok (codes "2001") (codes "Reached connections to maximum.") [] b
      nothing o).0

-- The worker that takes it.
increase-WorkerSound :
    (i : ℕ) (clients : List Client) (w : Worker)
    → w.num_client + 1 < u32
    → WorkerSound i clients w
    → WorkerSound i (client_init i ∷ clients) (worker_increase_count w)
unfolding worker_increase_count client_init
increase-WorkerSound i clients w lt h =
    let same : (i == i) ≡ true = ground arith in
    (rw same (omega (arith, h.0)), h.1, h.2, h.3, rw same h.4)

-- Any other.
other-WorkerSound :
    (i j : ℕ) (clients : List Client) (w : Worker)
    → i ≢ j
    → WorkerSound j clients w
    → WorkerSound j (client_init i ∷ clients) w
unfolding client_init
other-WorkerSound i j clients w n h =
    let differ : (i == j) ≡ false = ground arith in
    (rw differ (omega (arith, h.0)), h.1, h.2, h.3, rw differ h.4)

taken-WorkerSound :
    (workers : List Worker) (clients : List Client) (r : ℕ)
    → r < length workers
    → count_at workers r + 1 < u32
    → ((j : ℕ) → j < length workers → WorkerSound j clients (get_or workers j worker_init))
    → (j : ℕ) → j < length (at_worker worker_increase_count r workers)
    → WorkerSound j
        (client_init r ∷ clients)
        (get_or (at_worker worker_increase_count r workers) j worker_init)
taken-WorkerSound workers clients r lt room h =
    at_worker-WorkerSound worker_increase_count workers (client_init r ∷ clients) r lt
      (increase-WorkerSound r clients (get_or workers r worker_init) room (h r lt))
      (λ j n b. other-WorkerSound r j clients (get_or workers j worker_init) n (h j b))

module _ (write_ok : Rows → Bytes → Bool) (max : ℕ) (s : System) (sound : Sound max s) where
  admit-Sound :
      (a : Accepted) (t : Server)
      → total_clients t.workers ≤ s.server.max_connections
      → Outcome write_ok s.server t a
      → Sound max (admit a t s)
  unfolding admit client_init
  admit-Sound (refused rows) t bound out = rw out.3 (record {
    some_worker = sound.some_worker;
    limit = sound.limit;
    limited = sound.limited;
    bounded = sound.bounded;
    total = sound.total;
    placed = sound.placed;
    workers = sound.workers;
    server_buf = refused-server_buf write_ok s.server.msg_buf sound.server_buf;
    blocks = sound.blocks;
  })
  admit-Sound (taken_by r) t bound out =
      let ws = at_worker worker_increase_count r s.server.workers in
      let len : length ws ≡ length s.server.workers =
        length-set s.server.workers r
          (worker_increase_count (get_or s.server.workers r worker_init)) in
      let c = count_at-total s.server.workers r out.0.0 in
      let grown : total_clients ws ≡ total_clients s.server.workers + 1 =
        sym (ap total_clients out.1) ∙ out.2 in
      let within : total_clients ws ≤ s.server.max_connections = rw (← out.1) bound in
      rw out.3 (record {
        some_worker = omega (arith, len, sound.some_worker);
        limit = sound.limit;
        limited = sound.limited;
        bounded = omega (arith, within, grown, sound.total);
        total = omega (arith, grown, sound.total);
        placed = (
          (omega (arith, len, out.0.0), tt, omega arith),
          subst (λ n. All (ClientSound n) s.clients) (sym len) sound.placed,
        );
        workers =
            taken-WorkerSound s.server.workers s.clients r out.0.0
              (omega (arith, c, within, grown, sound.limit)) sound.workers;
        server_buf = sound.server_buf;
        blocks = omega (arith, sound.blocks);
      })

  -- Accepting a connection keeps the server sound.
  pub accepts-Sound :
      (a : Accepted) (t : Server)
      → server_event_accept write_ok s.server ≡ some (a, t)
      → Sound max (admit a t s)
  accepts-Sound a t e =
      let (a', t', e', bound, out) =
        server_event_accept-Outcome write_ok s.server sound.some_worker sound.limit
          (omega (arith, sound.total, sound.bounded)) in
      let same = some-injective (a', t') (a, t) (sym e' ∙ e) in
      let k : Sound max (admit a' t' s) = admit-Sound a' t' bound out in
      subst (λ (x : Accepted × Server). Sound max (admit x.0 x.1 s)) same k
