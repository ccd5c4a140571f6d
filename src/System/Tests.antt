-- ===== src/System/Tests.antt =====
-- A server with two workers and room for three connections, on which a client connected and sent two
-- lines, of which one is refused.
use ketamarouter.Base.{
  ℕ, All, u64, subst, ◌+◌, ◌%◌, ap, Bytes, Option, ◌<◌, ◌≡◌, some, List, [], ◌∷◌, arith, codes,
  length, get_or,
}
use ketamarouter.Base.Int.{pos}
use ketamarouter.Ketama.Servers.Holds.{no_server}
use ketamarouter.Ketama.Lookup.{get_server_ordinal}
use ketamarouter.Ketama.Route.Samples.{
  small_digest, one_round, one_round-Rounds, insertion, by_insertion,
}
use ketamarouter.Response.Tests.{takes_all}
use ketamarouter.Session.{Env, Command}
use ketamarouter.Str.{Str}
use ketamarouter.Command.Tests.{by_function, by_function-IsTable}
use ketamarouter.Server.Accept.{
  current_connections, get_req_all, get_req_ok, get_req_err, Server, taken_by, server_event_accept,
}
use ketamarouter.Server.Init.{three_nodes, new_server, Made, server_init}
use ketamarouter.Server.Init.Ready.{server_init-Made, server_init-IsReady}
use ketamarouter.Client.{Client}
use ketamarouter.Server.Read.Requests.{Request, no_command, get, ping, IsRequest, replies}
use ketamarouter.System.{System, Reach, here, started}
use ketamarouter.System.Sound.{Sound}
use ketamarouter.System.Runs.{runs-Sound, runs-drained}
use ketamarouter.System.Totals.{runs-totals}
use ketamarouter.System.Serves.{env_of, runs-serves}

abbrev made : Made (Str → Option Command)
made =
    (server_init-Made by_function small_digest one_round by_insertion (pos 7758) 2 one_round-Rounds
      (omega arith) (omega arith)).0

is_made : server_init by_function small_digest one_round insertion (pos 7758) 2 ≡ some made
is_made =
    (server_init-Made by_function small_digest one_round by_insertion (pos 7758) 2 one_round-Rounds
      (omega arith) (omega arith)).2

is_new : made.server ≡ new_server 2
is_new =
    (server_init-IsReady by_function small_digest one_round by_insertion (pos 7758) 2 made
      one_round-Rounds (omega arith) is_made).1

abbrev env : Env
env = env_of by_function takes_all small_digest made

-- A command, and a line that is refused.
abbrev mixed : List Request
mixed = ping ∷ no_command (codes "?") ∷ []

abbrev Served : List Request → System → Type 0
Served requests t =
    (u : System) × (c : Client) × (owner : Bytes → ℕ) × Reach env t u
    × (u.clients ≡ c ∷ t.clients)
    × ((key : Bytes)
        → (owner key < 3)
          × (get_server_ordinal small_digest made.ketama key ≡ some (pos (owner key))))
    × (c.out
        ≡ replies takes_all (λ key. (get_or three_nodes (owner key) no_server).addr) requests [])

conversed : Served mixed (started made.server 3)
conversed =
    runs-serves by_function takes_all small_digest one_round by_insertion (pos 7758) 2 3 made mixed
      (started made.server 3) by_function-IsTable one_round-Rounds (omega arith) (omega arith)
      (omega arith) is_made here (omega arith) (tt, (omega arith, tt))

abbrev asked : System
asked = conversed.0

ran : Reach env (started (new_server 2) 3) asked
ran = subst (λ s. Reach env (started s 3) asked) is_new conversed.3

runs-Sound_example : Sound 3 asked
runs-Sound_example = runs-Sound env 2 3 (omega arith) (omega arith) asked ran

runs-totals_example :
    (current_connections asked.server.workers ≡ length asked.clients)
    × (get_req_all asked.server.workers
        ≡ (get_req_ok asked.server.workers + get_req_err asked.server.workers) % u64)
runs-totals_example = runs-totals env 2 3 asked (omega arith) (omega arith) ran

runs-drained_example :
    (u : System) × Reach env asked u
    × (u.clients ≡ [])
    × Sound 3 u
    × (w : ℕ) × (v : Server) × (server_event_accept takes_all u.server ≡ some (taken_by w, v))
runs-drained_example = runs-drained env 2 3 asked (omega arith) (omega arith) (omega arith) ran

abbrev questions : List Request
questions = get (codes "foobar42") ∷ ping ∷ get (codes "a") ∷ []

questions-IsRequest : All IsRequest questions
questions-IsRequest = (tt, (tt, (tt, tt)))

first_served : Served questions (started made.server 3)
first_served =
    runs-serves by_function takes_all small_digest one_round by_insertion (pos 7758) 2 3 made
      questions (started made.server 3) by_function-IsTable one_round-Rounds (omega arith)
      (omega arith) (omega arith) is_made here (omega arith) questions-IsRequest

-- A second client is served behind the first.
runs-serves_example : Served questions first_served.0
runs-serves_example =
    runs-serves by_function takes_all small_digest one_round by_insertion (pos 7758) 2 3 made
      questions first_served.0 by_function-IsTable one_round-Rounds (omega arith) (omega arith)
      (omega arith) is_made first_served.3 (omega (arith, ap length first_served.4))
      questions-IsRequest
