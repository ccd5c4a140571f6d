-- ===== src/System/Serves.antt =====
-- A new connection of a running server that src/server.c initialised, and its requests.
use ketamarouter.Base.{
  ℕ, All, ◌<◌, ◌≡◌, refl, ap, ap₂, ◌∙◌, subst, some, List, [], ◌∷◌, Bool, Bytes, arith, length,
  get_or, u32,
}
use ketamarouter.Base.Int.{ℤ, pos}
use ketamarouter.Ketama.Servers.Holds.{no_server}
use ketamarouter.Ketama.Lookup.{get_server_ordinal}
use ketamarouter.Ketama.Continuum.Fits.{Rounds}
use ketamarouter.Ketama.Continuum.Sorted.{Qsort}
use ketamarouter.Response.{Rows}
use ketamarouter.Session.{Env}
use ketamarouter.Command.Table.{TableOps, IsTable}
use ketamarouter.Server.Read.{client_event_read}
use ketamarouter.Server.Read.Requests.{Request, IsRequest, all_lines, replies}
use ketamarouter.Server.Read.Protocol.{client_event_read-replies}
use ketamarouter.Server.Accept.{taken_by}
use ketamarouter.Server.Accept.Limit.{accept_release}
use ketamarouter.Server.Init.{three_nodes, new_server, Made, server_init}
use ketamarouter.Server.Init.Ready.{server_init-IsReady}
use ketamarouter.Client.{Client, client_init, session_of, client_after, client_read}
use ketamarouter.System.{System, accepts, reads, Reach, here, after, started, admit, after_read}
use ketamarouter.System.Runs.{runs-Sound}
use ketamarouter.System.Alive.{
  Reach-Alive, new_server-Alive, server_event_accept-Alive, worker-alive,
}

module _ {T : Type 0} (ops : TableOps T) (write_ok : Rows → Bytes → Bool)
    (digest : Bytes → List ℕ) where
  -- What the events find outside.
  abbrev pub env_of : Made T → Env
  env_of made = record {
    write_ok = write_ok;
    digest = digest;
    ketama = some made.ketama;
    find = ops.lookup made.command_list;
  }

  -- To a server that `server_init` made with a worker, a loaded list of commands in a hash table and a
  -- ring whose share is rounded as IEEE arithmetic rounds it and gives each server a point, and that
  -- has run through any events that did not end the process, with a limit below 2 ^ 32, a new client can connect while there are
  -- fewer clients than the limit. It sends any requests and is replied to in turn, as far as `write`
  -- takes the rows, to GET with the address of the server that owns the key on the ring; the other
  -- clients keep their messages and what they were answered.
  pub runs-serves :
      (share : ℕ → ℕ → ℕ → ℕ) (q : Qsort) (port : ℤ) (n max : ℕ) (made : Made T)
      (requests : List Request) (t : System)
      → IsTable ops
      → Rounds share
      → 0 < share 100 300 3
      → 0 < n
      → max < u32
      → server_init ops digest share q.sort port n ≡ some made
      → Reach (env_of made) (started made.server max) t
      → length t.clients < max
      → All IsRequest requests
      → (u : System) × (c : Client) × (owner : Bytes → ℕ) × Reach (env_of made) t u
        × (u.clients ≡ c ∷ t.clients)
        × ((key : Bytes)
            → (owner key < 3)
              × (get_server_ordinal digest made.ketama key ≡ some (pos (owner key))))
        × (c.out
            ≡ replies write_ok (λ key. (get_or three_nodes (owner key) no_server).addr) requests [])
  unfolding admit after_read client_init client_read
  runs-serves share q port n max made requests t laws rounds positive some_worker limit init run
        room valid =
      let (cells, server, list, built, some_cell) =
        server_init-IsReady ops digest share q port n made rounds positive init in
      let env = env_of made in
      let run' : Reach env (started (new_server n) max) t =
        subst (λ s. Reach env (started s max) t) server run in
      let sound = runs-Sound env n max some_worker limit t run' in
      let (w, v, e, _, _) =
        accept_release write_ok t.server sound.some_worker sound.limit
          (omega (arith, sound.total, sound.limited, room)) in
      let mid = admit (taken_by w) v t in
      let lines = all_lines requests in
      let session = session_of v (client_init w) in
      let (owner, owners, replied) =
        client_event_read-replies ops share q env three_nodes made.ketama cells requests session
          laws (ap ops.lookup list) refl built some_cell tt valid in
      let alive = Reach-Alive env (started (new_server n) max) t run' (new_server-Alive n) in
      let alive' = server_event_accept-Alive write_ok t.server alive (taken_by w) v e in
      let survived = replied.3 ∙ ap₂ (λ f g. (f, g)) (worker-alive v.workers w alive'.0) alive'.1 in
      (
        after_read env lines [] (client_init w) t.clients mid,
        client_after (client_event_read env lines session) (client_init w),
        owner,
        after (accepts e) (after (reads lines [] (client_init w) t.clients refl survived) here),
        refl,
        owners,
        replied.1,
      )
