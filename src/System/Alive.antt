-- ===== src/System/Alive.antt =====
-- The process in a run: nothing was read through NULL or outside its memory so far.
use ketamarouter.Base.{
  ℕ, zero, suc, ◌≡◌, refl, sym, ap, subst, ◌∙◌, Bool, false, Option, none, some, List, [], ◌∷◌,
  Bytes, All, get_or, replicate, leb, Bool-cases, Option-cases, List-cases, some-injective, inl,
  inr, codes,
}
use ketamarouter.Message.Ops.{Msg, msg_free}
use ketamarouter.Message.Buf.{MsgBuf, msg_buf_init}
use ketamarouter.Message.Keeps.Free.{msg_free-fault}
use ketamarouter.Response.{Rows, resp_error_max_connection}
use ketamarouter.Response.Faults.{resp_error-fault}
use ketamarouter.Session.{Env, Survived}
use ketamarouter.Server.Read.{client_event_read}
use ketamarouter.Server.Accept.{
  Worker, Server, Accepted, refused, taken_by, worker_init, at_worker, worker_increase_count,
  worker_decrease_count, least_connection_worker, take_connection, refuse_connection,
  current_connections, answer_accept, server_event_accept, connection_release,
}
use ketamarouter.Server.Init.{new_server}
use ketamarouter.Client.{
  Client, client_free, client_connection_release, put_worker, session_of, client_read,
}
use ketamarouter.System.{
  System, Step, accepts, reads, releases, Reach, here, after, admit, after_read, after_release,
}

abbrev WorkerAlive : Worker → Type 0
WorkerAlive w = w.msg_buf.fault ≡ false

abbrev pub Alive : Server → Type 0
Alive s = All WorkerAlive s.workers × (s.msg_buf.fault ≡ false)

freed-fault : (m : Option Msg) (b : MsgBuf) → (msg_free m b).1.fault ≡ b.fault
unfolding msg_free
freed-fault none b = refl
freed-fault (some m) b = msg_free-fault m b

All-at_worker :
    (f : Worker → Worker) (workers : List Worker) (r : ℕ)
    → ((w : Worker) → WorkerAlive w → WorkerAlive (f w))
    → All WorkerAlive workers
    → All WorkerAlive (at_worker f r workers)
All-at_worker f [] r keeps h = tt
All-at_worker f (w ∷ workers) zero keeps h = (keeps w h.0, h.1)
All-at_worker f (w ∷ workers) (suc r) keeps h = (h.0, All-at_worker f workers r keeps h.1)

pub worker-alive :
    (workers : List Worker) (r : ℕ)
    → All WorkerAlive workers
    → (get_or workers r worker_init).msg_buf.fault ≡ false
unfolding worker_init msg_buf_init
worker-alive [] r h = refl
worker-alive (w ∷ workers) zero h = h.0
worker-alive (w ∷ workers) (suc r) h = worker-alive workers r h.1

replicate-Alive : (n : ℕ) → All WorkerAlive (replicate n worker_init)
unfolding worker_init msg_buf_init
replicate-Alive zero = tt
replicate-Alive (suc n) = (refl, replicate-Alive n)

pub new_server-Alive : (n : ℕ) → Alive (new_server n)
unfolding new_server msg_buf_init
new_server-Alive n = (replicate-Alive n, refl)

module _ (write_ok : Rows → Bytes → Bool) (s : Server) (alive : Alive s) where
  take_connection-Alive : (r : Accepted × Server) → take_connection s ≡ some r → Alive r.1
  unfolding take_connection worker_increase_count
  take_connection-Alive r e = elim (Option-cases (least_connection_worker s.workers)) [
    | inl n ↦ cc (rw (n, take_connection) at e)
    | inr (w, l) ↦
        subst (λ (x : Accepted × Server). Alive x.1)
          (some-injective _ r (rw (l, take_connection) at e))
          (All-at_worker worker_increase_count s.workers w (λ x h. h) alive.0, alive.1)
  ]

  refuse_connection-Alive :
      (r : Accepted × Server) → refuse_connection write_ok s ≡ some r → Alive r.1
  unfolding refuse_connection resp_error_max_connection
  refuse_connection-Alive r e =
      subst (λ (x : Accepted × Server). Alive x.1) (some-injective _ r e)
        (
          alive.0,
          resp_error-fault write_ok (codes "2001") (codes "Reached connections to maximum.") []
                s.msg_buf
              ∙ alive.1,
        )

  answer_accept-Alive : (r : Accepted × Server) → answer_accept write_ok s ≡ some r → Alive r.1
  unfolding answer_accept
  answer_accept-Alive r e =
      elim (Bool-cases (leb s.max_connections (current_connections s.workers))) [
        | inl full ↦ refuse_connection-Alive r (rw (full, answer_accept) at e)
        | inr room ↦ take_connection-Alive r (rw (room, answer_accept) at e)
      ]

  pub server_event_accept-Alive :
      (a : Accepted) (t : Server) → server_event_accept write_ok s ≡ some (a, t) → Alive t
  unfolding server_event_accept
  server_event_accept-Alive a t e = elim (List-cases s.workers) [
    | inl n ↦ cc (rw (n, server_event_accept) at e)
    | inr (w, ws, m) ↦
        let same : server_event_accept write_ok s ≡ answer_accept write_ok s = rw m refl in
        answer_accept-Alive (a, t) (sym same ∙ e)
  ]

module _ (env : Env) where
  read-Alive :
      (s : Server) (c : Client) (lines : List Bytes)
      → Survived (client_event_read env lines (session_of s c))
      → Alive s
      → Alive (client_read env lines s c).0
  unfolding client_read
  read-Alive s c lines survived alive =
      let r = client_event_read env lines (session_of s c) in
      (
        All-at_worker (put_worker r) s.workers c.worker (λ w h. ap (λ f. f.0) survived) alive.0,
        ap (λ f. f.1) survived,
      )

  release-Alive : (s : Server) (c : Client) → Alive s → Alive (client_connection_release s c)
  unfolding client_connection_release connection_release worker_decrease_count client_free
  release-Alive s c alive =
      let left = All-at_worker worker_decrease_count s.workers c.worker (λ w h. h) alive.0 in
      (
        All-at_worker (client_free c) (at_worker worker_decrease_count c.worker s.workers) c.worker
            (λ w h. freed-fault c.msg w.msg_buf ∙ h) left,
        alive.1,
      )

  Step-Alive : (s t : System) → Step env s t → Alive s.server → Alive t.server
  unfolding admit after_read after_release
  Step-Alive s t (accepts {t = u} {a = refused rows} e) alive =
      server_event_accept-Alive env.write_ok s.server alive (refused rows) u e
  Step-Alive s t (accepts {t = u} {a = taken_by w} e) alive =
      server_event_accept-Alive env.write_ok s.server alive (taken_by w) u e
  Step-Alive s t (reads lines before c behind e survived) alive =
      read-Alive s.server c lines survived alive
  Step-Alive s t (releases before c behind e) alive = release-Alive s.server c alive

  pub Reach-Alive : (s t : System) → Reach env s t → Alive s.server → Alive t.server
  Reach-Alive s t here alive = alive
  Reach-Alive s t (after {t = m} step run) alive = Reach-Alive m t run (Step-Alive s m step alive)
