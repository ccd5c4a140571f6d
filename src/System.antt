-- ===== src/System.antt =====
-- The whole server: its workers and their clients, under the events of src/server.c in any order.
pub mod Holdings
pub mod Sound
pub mod Runs
pub mod Alive
pub mod Serves
pub mod Totals
mod Tests
use ketamarouter.Base.{ℕ, ◌+◌, ◌≡◌, some, List, [], ◌∷◌, ◌++◌, Bytes}
use ketamarouter.Session.{Env, Survived}
use ketamarouter.Server.Read.{client_event_read}
use ketamarouter.Client.{Client, client_init, client_connection_release, client_read, session_of}
use ketamarouter.Server.Accept.{Server, Accepted, refused, taken_by, server_event_accept}

-- `client_blocks` counts the blocks that `client_init` allocated and nothing has freed.
pub record System : Type 0 where
  pub server : Server
  pub clients : List Client
  pub client_blocks : ℕ

-- A server before any event, with the limit of its settings.
abbrev pub started : Server → ℕ → System
started s max = record {
  server = record s { max_connections = max };
  clients = [];
  client_blocks = 0;
}

-- What becomes of a connection: `client_init` for the one that a worker takes.
unfoldable pub admit : Accepted → Server → System → System
unfolding client_init
admit (refused rows) t s = record s { server = t }
admit (taken_by w) t s = record s {
  server = t;
  clients = client_init w ∷ s.clients;
  client_blocks = s.client_blocks + 1;
}

unfoldable pub after_read : Env → List Bytes → List Client → Client → List Client → System → System
unfolding client_read
after_read env lines before c behind s =
    let r = client_read env lines s.server c in
    record s { server = r.0; clients = before ++ r.1 ∷ behind }

unfoldable pub after_release : List Client → Client → List Client → System → System
unfolding client_connection_release
after_release before c behind s = record s {
  server = client_connection_release s.server c;
  clients = before ++ behind;
}

-- A connection comes in, a client sends lines, or the connection of a client ends. Lines that make the
-- server read through NULL or outside its memory end the process, and are no step.
pub data Step (env : Env) : System → System → Type 0 where
  accepts :
      {s : System} {t : Server} {a : Accepted}
      → server_event_accept env.write_ok s.server ≡ some (a, t)
      → Step env s (admit a t s)
  reads :
      {s : System} (lines : List Bytes) (before : List Client) (c : Client) (behind : List Client)
      → s.clients ≡ before ++ c ∷ behind
      → Survived (client_event_read env lines (session_of s.server c))
      → Step env s (after_read env lines before c behind s)
  releases :
      {s : System} (before : List Client) (c : Client) (behind : List Client)
      → s.clients ≡ before ++ c ∷ behind
      → Step env s (after_release before c behind s)

-- Any number of events, one after the other.
pub data Reach (env : Env) : System → System → Type 0 where
  here : {s : System} → Reach env s s
  after : {s t u : System} → Step env s t → Reach env t u → Reach env s u
