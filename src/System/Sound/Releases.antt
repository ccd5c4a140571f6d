-- ===== src/System/Sound/Releases.antt =====
-- The end of a connection.
use ketamarouter.Base.{
  ℕ, suc, ◌<◌, ◌≡◌, ◌≢◌, refl, sym, ap, ◌∙◌, subst, Option, none, some, List, ◌∷◌, ◌++◌, arith,
  length, length-set, get_or, All, u32,
}
use ketamarouter.Message.Ops.{Msg}
use ketamarouter.Message.Keeps.Uses.{nothing, MaybeIsMsg}
use ketamarouter.Message.Keeps.Free.{msg_free-BufOwns}
use ketamarouter.Server.Read.Keeps.{lost_rows, MaybeWaits}
use ketamarouter.Server.Accept.{
  Worker, Server, worker_init, at_worker, worker_decrease_count, connection_release,
}
use ketamarouter.Server.Accept.Limit.{count_at-total, total-decrease}
use ketamarouter.Client.{Client, client_free, client_connection_release}
use ketamarouter.System.{System, after_release}
use ketamarouter.System.Holdings.{
  uses_clients, All-middle, total_clients-at_worker, at_worker-twice, tell_first, leave_out,
  clients_of_own, clients_of_other, length-middle,
}
use ketamarouter.System.Sound.{ClientSound, WorkerSound, Sound, at_worker-WorkerSound}

-- What the release makes of the client's worker.
abbrev pub leave : Client → Worker → Worker
unfolding client_free worker_decrease_count
leave c w = client_free c (worker_decrease_count w)

released_workers :
    (s : Server) (c : Client)
    → (client_connection_release s c).workers ≡ at_worker (leave c) c.worker s.workers
unfolding client_connection_release connection_release
released_workers s c = at_worker-twice (client_free c) worker_decrease_count s.workers c.worker

MaybeWaits-MaybeIsMsg : (m : Option Msg) → MaybeWaits m → MaybeIsMsg m
MaybeWaits-MaybeIsMsg none h = tt
MaybeWaits-MaybeIsMsg (some m) h = h.0

module _ (before : List Client) (c : Client) (behind : List Client) (w : Worker) where
  leave-WorkerSound :
      w.num_client < u32
      → MaybeWaits c.msg
      → WorkerSound c.worker (before ++ c ∷ behind) w
      → WorkerSound c.worker (before ++ behind) (leave c w)
  unfolding client_free worker_decrease_count
  leave-WorkerSound lt waits (h, counts, k, q, o) =
      let i = c.worker in
      let u = lost_rows k nothing in
      let one = clients_of_own i before c behind u w.msg_buf refl in
      let held = tell_first i before c behind u w.msg_buf refl o in
      (
        omega (arith, h, one),
        counts,
        k,
        q,
        msg_free-BufOwns c.msg w.msg_buf (uses_clients i (before ++ behind) u)
            (MaybeWaits-MaybeIsMsg c.msg waits) held,
      )

  other-WorkerSound :
      (j : ℕ)
      → c.worker ≢ j
      → WorkerSound j (before ++ c ∷ behind) w
      → WorkerSound j (before ++ behind) w
  other-WorkerSound j n (h, counts, k, q, o) =
      let u = lost_rows k nothing in
      (
        h ∙ clients_of_other j before c behind u w.msg_buf n,
        counts,
        k,
        q,
        leave_out j before c behind u w.msg_buf n o,
      )

module _ (max : ℕ) (s : System) (before : List Client) (c : Client) (behind : List Client)
    (sound : Sound max s) (e : s.clients ≡ before ++ c ∷ behind) where
  -- The end of a connection keeps the server sound.
  pub releases-Sound : Sound max (after_release before c behind s)
  unfolding after_release client_connection_release connection_release client_free
  releases-Sound =
      let placed =
        All-middle (ClientSound (length s.server.workers)) before c behind
          (subst (All (ClientSound (length s.server.workers))) e sound.placed) in
      let i = c.worker in
      let w = get_or s.server.workers i worker_init in
      let ws = at_worker (leave c) i s.server.workers in
      let same : (client_connection_release s.server c).workers ≡ ws =
        released_workers s.server c in
      let len : length ws ≡ length s.server.workers = length-set s.server.workers i (leave c w) in
      let known = λ (j : ℕ) (b : j < length s.server.workers).
        subst (λ cs. WorkerSound j cs (get_or s.server.workers j worker_init)) e
          (sound.workers j b) in
      let count = count_at-total s.server.workers i placed.0.0 in
      let low = known i placed.0.0 in
      let one = clients_of_own i before c behind nothing w.msg_buf refl in
      let fewer : length s.clients ≡ suc (length (before ++ behind)) =
        ap length e ∙ length-middle before c behind in
      let bound : w.num_client < u32 =
        omega (arith, count, sound.total, sound.bounded, sound.limit) in
      let down = total-decrease s.server.workers i placed.0.0 (omega (arith, low.0, one)) bound in
      let freed =
        total_clients-at_worker (client_free c) (at_worker worker_decrease_count i s.server.workers)
          i (λ w. refl) in
      record {
        some_worker = rw same (omega (arith, len, sound.some_worker));
        limit = sound.limit;
        limited = sound.limited;
        bounded = omega (arith, fewer, sound.bounded);
        total = omega (arith, freed, down, fewer, sound.total);
        placed = rw same (subst (λ n. All (ClientSound n) (before ++ behind)) (sym len) placed.1);
        workers = rw same (
            at_worker-WorkerSound (leave c) s.server.workers (before ++ behind) i placed.0.0
              (leave-WorkerSound before c behind w bound placed.0.1 low)
              (λ j n b.
                other-WorkerSound before c behind (get_or s.server.workers j worker_init) j n
                  (known j b)));
        server_buf = sound.server_buf;
        blocks = omega (arith, fewer, sound.blocks);
      }
