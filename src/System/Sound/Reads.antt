-- ===== src/System/Sound/Reads.antt =====
-- Lines that a client sends.
use ketamarouter.Base.{
  ℕ, ◌+◌, ◌<◌, ◌≡◌, ◌≢◌, refl, sym, ap, ◌∙◌, subst, List, ◌∷◌, ◌++◌, arith, Bytes, length,
  length-set, get_or, All, u64,
}
use ketamarouter.Message.Keeps.Uses.{BufOwns, nothing, uses_maybe}
use ketamarouter.Session.{Session, Env}
use ketamarouter.Server.Read.{client_event_read}
use ketamarouter.Server.Read.Counts.{client_event_read-Balanced}
use ketamarouter.Server.Read.Keeps.{lost_rows, MaybeWaits, client_event_read-Loses}
use ketamarouter.Server.Accept.{Worker, Server, worker_init, at_worker}
use ketamarouter.Client.{Client, session_of, put_worker, client_after, client_read}
use ketamarouter.System.{System, after_read}
use ketamarouter.System.Holdings.{
  uses_clients, All-middle, All-insert, total_clients-at_worker, tell_first, tell_inside, leave_out,
  put_in, clients_of_own, clients_of_other, lose_more, length-middle,
}
use ketamarouter.System.Sound.{ClientSound, WorkerSound, Sound, at_worker-WorkerSound}

-- The worker of another client.
other-WorkerSound :
    (j : ℕ) (before : List Client) (c d : Client) (behind : List Client) (w : Worker)
    → d.worker ≡ c.worker
    → c.worker ≢ j
    → WorkerSound j (before ++ c ∷ behind) w
    → WorkerSound j (before ++ d ∷ behind) w
other-WorkerSound j before c d behind w e n (h, counts, k, q, o) =
    let u = lost_rows k nothing in
    let m : d.worker ≢ j = λ p. n (sym e ∙ p) in
    (
      h
          ∙ clients_of_other j before c behind u w.msg_buf n
          ∙ sym (clients_of_other j before d behind u w.msg_buf m),
      counts,
      k,
      q,
      put_in j before d behind u w.msg_buf m (leave_out j before c behind u w.msg_buf n o),
    )

module _ (env : Env) (lines : List Bytes) (s : Server) (before : List Client) (c : Client)
    (behind : List Client) (p : BufOwns s.msg_buf nothing)
    (waits : MaybeWaits c.msg × (c.req.req_err < u64)) where
  abbrev w : Worker
  w = get_or s.workers c.worker worker_init

  abbrev r : Session
  r = client_event_read env lines (session_of s c)

  -- The worker of the client, and the client.
  Read : Type 0
  Read =
      WorkerSound c.worker (before ++ client_after r c ∷ behind) (put_worker r w)
      × MaybeWaits r.msg
      × (r.client_req.req_err < u64)
      × BufOwns r.server_buf nothing

  read-Sound : WorkerSound c.worker (before ++ c ∷ behind) w → Read
  unfolding Read
  read-Sound (h, counts, k, q, o) =
      let i = c.worker in
      let u = lost_rows k nothing in
      let rest = uses_clients i (before ++ behind) u in
      let held : BufOwns w.msg_buf (uses_maybe c.msg rest) =
        tell_first i before c behind u w.msg_buf refl o in
      let fits : w.req.req_err < u64 = omega (arith, q) in
      let (m, n, e, is, le, ce, we, o1, p1) =
        client_event_read-Loses env nothing lines (session_of s c) rest waits.0 waits.1 fits held
          p in
      let o2 : BufOwns r.worker_buf (uses_maybe r.msg (lost_rows n rest)) = rw e o1 in
      let o3 = lose_more i (before ++ behind) r.msg k n nothing r.worker_buf o2 in
      let d = client_after r c in
      (
        (
          h
              ∙ clients_of_own i before c behind u w.msg_buf refl
              ∙ sym (clients_of_own i before d behind u w.msg_buf refl),
          client_event_read-Balanced env lines (session_of s c) counts,
          k + n,
          omega (arith, we, q),
          tell_inside i before d behind (lost_rows (k + n) nothing) r.worker_buf refl o3,
        ),
        rw e is,
        omega (arith, ce),
        p1,
      )

module _ (env : Env) (lines : List Bytes) (max : ℕ) (s : System) (before : List Client) (c : Client)
    (behind : List Client) (sound : Sound max s) (e : s.clients ≡ before ++ c ∷ behind) where
  -- A read event keeps the server sound, whatever the client sends.
  pub reads-Sound : Sound max (after_read env lines before c behind s)
  unfolding after_read client_read read-Sound
  reads-Sound =
      let placed =
        All-middle (ClientSound (length s.server.workers)) before c behind
          (subst (All (ClientSound (length s.server.workers))) e sound.placed) in
      let r = client_event_read env lines (session_of s.server c) in
      let ws = at_worker (put_worker r) c.worker s.server.workers in
      let len : length ws ≡ length s.server.workers =
        length-set s.server.workers c.worker
          (put_worker r (get_or s.server.workers c.worker worker_init)) in
      let known = λ (j : ℕ) (b : j < length s.server.workers).
        subst (λ cs. WorkerSound j cs (get_or s.server.workers j worker_init)) e
          (sound.workers j b) in
      let x =
        read-Sound env lines s.server before c behind sound.server_buf (placed.0.1, placed.0.2)
          (known c.worker placed.0.0) in
      let d = client_after r c in
      let same : length s.clients ≡ length (before ++ d ∷ behind) =
        ap length e ∙ length-middle before c behind ∙ sym (length-middle before d behind) in
      let total = total_clients-at_worker (put_worker r) s.server.workers c.worker (λ w. refl) in
      record {
        some_worker = omega (arith, len, sound.some_worker);
        limit = sound.limit;
        limited = sound.limited;
        bounded = omega (arith, same, sound.bounded);
        total = total ∙ sound.total ∙ same;
        placed =
            subst (λ n. All (ClientSound n) (before ++ d ∷ behind)) (sym len)
              (All-insert (ClientSound (length s.server.workers)) before d behind
                (placed.0.0, x.1, x.2) placed.1);
        workers =
            at_worker-WorkerSound (put_worker r) s.server.workers (before ++ d ∷ behind) c.worker
              placed.0.0 x.0
              (λ j n b.
                other-WorkerSound j before c d behind (get_or s.server.workers j worker_init) refl n
                  (known j b));
        server_buf = x.3;
        blocks = omega (arith, same, sound.blocks);
      }
