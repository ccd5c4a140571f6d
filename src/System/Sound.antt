-- ===== src/System/Sound.antt =====
-- What holds of the whole server between two events.
pub mod Accepts
pub mod Reads
pub mod Releases
use ketamarouter.Base.{
  ℕ, ◌%◌, ◌≤◌, ◌<◌, ◌≡◌, ◌≢◌, sym, subst, ◌∙◌, List, arith, length, length-set, get_or, All, u32,
  u64, ==_iff, Bool-cases, inl, inr, ◌⊎◌, ◌==◌, true, false,
}
use ketamarouter.Message.Keeps.Uses.{BufOwns, nothing}
use ketamarouter.Server.Read.Keeps.{lost_rows, MaybeWaits}
use ketamarouter.Server.Read.Counts.{Balanced}
use ketamarouter.Server.Accept.{Worker, worker_init, at_worker}
use ketamarouter.Server.Accept.Limit.{total_clients}
use ketamarouter.Client.{Client}
use ketamarouter.System.{System}
use ketamarouter.System.Holdings.{
  clients_of, uses_clients, get_or-at_worker_self, get_or-at_worker_other,
}

-- The client's worker exists, and its message is one that waits for rows.
abbrev pub ClientSound : ℕ → Client → Type 0
ClientSound workers c = (c.worker < workers) × MaybeWaits c.msg × (c.req.req_err < u64)

-- The worker counts its clients and each request once, and its pools have out the objects of their messages, and beside
-- them one row for each error it counted, around 2 ^ 64.
abbrev pub WorkerSound : ℕ → List Client → Worker → Type 0
WorkerSound i clients w =
    (w.num_client ≡ clients_of i clients)
    × Balanced w.req
    × (n : ℕ) × (w.req.req_err ≡ n % u64)
    × BufOwns w.msg_buf (uses_clients i clients (lost_rows n nothing))

-- All clients are counted, and the pools of the server itself have nothing out.
pub record Sound (max : ℕ) (s : System) : Type 0 where
  pub some_worker : 0 < length s.server.workers
  pub limit : s.server.max_connections < u32
  pub limited : s.server.max_connections ≡ max
  pub bounded : length s.clients ≤ s.server.max_connections
  pub total : total_clients s.server.workers ≡ length s.clients
  pub placed : All (ClientSound (length s.server.workers)) s.clients
  pub workers :
      (i : ℕ)
      → i < length s.server.workers
      → WorkerSound i s.clients (get_or s.server.workers i worker_init)
  pub server_buf : BufOwns s.server.msg_buf nothing
  pub blocks : length s.clients ≤ s.client_blocks

-- To tell the worker of an event from the others.
pub worker-cases : (i j : ℕ) → ((i == j ≡ true) × (i ≡ j)) ⊎ ((i == j ≡ false) × (i ≢ j))
worker-cases i j = elim (Bool-cases (i == j)) [
  | inl e ↦ inl (e, (==_iff i j).0 e)
  | inr n ↦ inr (n, λ e. let t = (==_iff i j).1 e in cc (sym n ∙ t))
]

-- An event changes one worker, and the others have the same clients as before.
pub at_worker-WorkerSound :
    (f : Worker → Worker) (workers : List Worker) (clients : List Client) (r : ℕ)
    → r < length workers
    → WorkerSound r clients (f (get_or workers r worker_init))
    → ((j : ℕ) → r ≢ j → j < length workers → WorkerSound j clients (get_or workers j worker_init))
    → (j : ℕ) → j < length (at_worker f r workers)
    → WorkerSound j clients (get_or (at_worker f r workers) j worker_init)
at_worker-WorkerSound f workers clients r lt self others j b = elim (worker-cases r j) [
  | inl (_, e) ↦
      subst (λ j. WorkerSound j clients (get_or (at_worker f r workers) j worker_init)) e
        (subst (WorkerSound r clients) (sym (get_or-at_worker_self f workers r lt)) self)
  | inr (_, n) ↦
      subst (WorkerSound j clients) (sym (get_or-at_worker_other f workers r j n))
        (others j n (omega (arith, b, length-set workers r (f (get_or workers r worker_init)))))
]
