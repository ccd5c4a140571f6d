-- ===== src/System/Runs.antt =====
-- Runs of the server from the state that src/server.c and src/krouter.c start it in.
use ketamarouter.Base.{
  ℕ, zero, suc, ◌<◌, ◌≡◌, refl, sym, ap, subst, some, List, [], ◌∷◌, arith, length, get_or,
  replicate, length-replicate, u32,
}
use ketamarouter.Message.Keeps.Uses.{msg_buf_init-BufOwns}
use ketamarouter.Session.{Env}
use ketamarouter.Server.Accept.{Server, taken_by, worker_init, server_event_accept}
use ketamarouter.Server.Accept.Limit.{total_clients, accept_release}
use ketamarouter.Server.Init.{new_server}
use ketamarouter.Client.{Client}
use ketamarouter.System.{
  System, Step, accepts, reads, releases, Reach, here, after, after_release, started,
}
use ketamarouter.System.Sound.{Sound, WorkerSound}
use ketamarouter.System.Sound.Accepts.{accepts-Sound}
use ketamarouter.System.Sound.Reads.{reads-Sound}
use ketamarouter.System.Sound.Releases.{releases-Sound}

module _ (env : Env) (max : ℕ) where
  Step-Sound : (s t : System) → Step env s t → Sound max s → Sound max t
  Step-Sound s t (accepts {t = u} {a} e) sound = accepts-Sound env.write_ok max s sound a u e
  Step-Sound s t (reads lines before c behind e _) sound =
      reads-Sound env lines max s before c behind sound e
  Step-Sound s t (releases before c behind e) sound = releases-Sound max s before c behind sound e

  Reach-Sound : (s t : System) → Reach env s t → Sound max s → Sound max t
  Reach-Sound s t here sound = sound
  Reach-Sound s t (after {t = m} step run) sound = Reach-Sound m t run (Step-Sound s m step sound)

-- No worker has a client yet.
total_clients-replicate : (n : ℕ) → total_clients (replicate n worker_init) ≡ 0
unfolding worker_init
total_clients-replicate zero = refl
total_clients-replicate (suc n) = omega (arith, total_clients-replicate n)

get_or-replicate : (n i : ℕ) → get_or (replicate n worker_init) i worker_init ≡ worker_init
get_or-replicate zero i = refl
get_or-replicate (suc n) zero = refl
get_or-replicate (suc n) (suc i) = get_or-replicate n i

worker_init-Sound : (i : ℕ) → WorkerSound i [] worker_init
unfolding worker_init
worker_init-Sound i = (refl, refl, 0, refl, msg_buf_init-BufOwns)

started-Sound : (n max : ℕ) → 0 < n → max < u32 → Sound max (started (new_server n) max)
unfolding new_server
started-Sound n max some_worker limit =
    let len = length-replicate n worker_init in
    record {
      some_worker = omega (arith, len, some_worker);
      limit = limit;
      limited = refl;
      bounded = omega arith;
      total = total_clients-replicate n;
      placed = tt;
      workers = λ i b. subst (WorkerSound i []) (sym (get_or-replicate n i)) (worker_init-Sound i);
      server_buf = msg_buf_init-BufOwns;
      blocks = omega arith;
    }

module _ (env : Env) (n max : ℕ) (some_worker : 0 < n) (limit : max < u32) where
  -- Whatever connections come in, whatever their clients send without ending the process and whichever
  -- of them end, in any order, a server with a worker and a limit below 2 ^ 32 stays sound. There are never more clients than the
  -- limit; each worker counts its own, and each request once; its pools have out exactly the objects
  -- that the messages of its clients hold, and one row for each error it counted, around 2 ^ 64; and
  -- the pools of the server have nothing out.
  pub runs-Sound : (t : System) → Reach env (started (new_server n) max) t → Sound max t
  runs-Sound t run =
      Reach-Sound env max (started (new_server n) max) t run (started-Sound n max some_worker limit)

-- The clients end one after the other.
module _ (env : Env) where
  releases-all :
      (clients : List Client) (s : System)
      → s.clients ≡ clients
      → (t : System) × Reach env s t × (t.clients ≡ [])
  unfolding after_release
  releases-all [] s e = (s, here, e)
  releases-all (c ∷ clients) s e =
      let (t, run, none_left) = releases-all clients (after_release [] c clients s) refl in
      (t, after (releases [] c clients e) run, none_left)

  -- From every state that a server with a worker and a limit between 1 and 2 ^ 32 - 1 runs into by
  -- events that do not end the process, the
  -- end of its connections leads to one without clients, where each worker counts none and has out
  -- only the rows of refused lines, one for each error, and where a worker takes the next connection.
  pub runs-drained :
      (n max : ℕ) (t : System)
      → 0 < n
      → 0 < max
      → max < u32
      → Reach env (started (new_server n) max) t
      → (u : System) × Reach env t u
        × (u.clients ≡ [])
        × Sound max u
        × (w : ℕ) × (v : Server) × (server_event_accept env.write_ok u.server
            ≡ some (taken_by w, v))
  runs-drained n max t some_worker room limit run =
      let sound = runs-Sound env n max some_worker limit t run in
      let (u, more, none_left) = releases-all t.clients t refl in
      let sound' = Reach-Sound env max t u more sound in
      let (w, v, e, _, _) =
        accept_release env.write_ok u.server sound'.some_worker sound'.limit
          (omega (arith, sound'.total, ap length none_left, sound'.limited, room)) in
      (u, more, none_left, sound', w, v, e)
