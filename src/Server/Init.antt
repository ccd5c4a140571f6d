-- ===== src/Server/Init.antt =====
-- `server_init` and `server_addr_init`: the workers, the list of commands and the ring.
pub mod Ready
mod Tests
use ketamarouter.Base.{
  ℕ, ◌-◌, ◌%◌, ◌^◌, ltb, if◌then◌else◌, replicate, u16, ◌≡◌, refl, sym, ap, ◌∙◌, Option, none, some,
  List, [], ◌∷◌, ◌>>=◌, arith, Bytes, codes,
}
use ketamarouter.Base.Int.{ℤ, pos, negsuc}
use ketamarouter.Message.Buf.{msg_buf_init}
use ketamarouter.Command.Table.{TableOps, command_list_load}
use ketamarouter.Server.Accept.{Server, worker_init}
use ketamarouter.Ketama.State.{Mcs, ServerInfo, Ketama, ketama_new}
use ketamarouter.Ketama.Servers.{add_server, server_addr, init_servers, expand_servers, put_server}
use ketamarouter.Ketama.Servers.Holds.{Holds, ketama_new-Holds, add_server-Holds}
use ketamarouter.Ketama.Continuum.{create_continuum}
use ketamarouter.Ketama.Continuum.Fits.{Rounds}
use ketamarouter.Ketama.Continuum.Sorted.{Qsort, IsBuilt, create_continuum-IsBuilt}

-- The three calls of `Ketama_add_server`.
unfoldable pub add_servers : Option Ketama
add_servers = do
  k1 ← add_server ketama_new (codes "127.0.0.1") (pos 6379) 100
  k2 ← add_server k1 (codes "127.0.0.2") (pos 6379) 100
  add_server k2 (codes "127.0.0.3") (pos 6379) 100

unfoldable pub init_ring :
    (Bytes → List ℕ) → (ℕ → ℕ → ℕ → ℕ) → (List Mcs → List Mcs) → Option Ketama
unfolding add_servers
init_ring digest share sort = do k ← add_servers; create_continuum digest share sort k

-- The server with `n` workers; it has no settings yet.
unfoldable pub new_server : ℕ → Server
new_server n = record {
  conn_cur_count = 0;
  conn_max = 0;
  max_connections = 0;
  req_ok = 0;
  msg_buf = msg_buf_init;
  workers = replicate n worker_init;
}

-- `server_addr_init`: the number that `htons` takes of an `int`.
unfoldable pub server_port : ℤ → ℕ
server_port (pos n) = n % u16
server_port (negsuc n) = u16 - 1 - n % u16

-- What `server_init` makes, with a list of commands of type `T`.
pub record Made (T : Type 0) : Type 0 where
  pub port : ℕ
  pub server : Server
  pub command_list : T
  pub ketama : Ketama

module _ {T : Type 0} (ops : TableOps T) where
  -- The loop over the workers has an `int` for its index, which may not pass 2 ^ 31.
  unfoldable pub server_init :
      (Bytes → List ℕ) → (ℕ → ℕ → ℕ → ℕ) → (List Mcs → List Mcs) → ℤ → ℕ → Option (Made T)
  unfolding init_ring new_server server_port command_list_load
  server_init digest share sort port n =
      if ltb n (2 ^ 31)
      then (init_ring digest share sort >>= λ ring. some (record {
        port = server_port port;
        server = new_server n;
        command_list = command_list_load ops;
        ketama = ring;
      }))
      else none

abbrev pub node : Bytes → ServerInfo
node addr = record { addr = server_addr addr (pos 6379); memory = 100 }

-- The servers of the ring.
abbrev pub three_nodes : List ServerInfo
three_nodes = node (codes "127.0.0.1") ∷ node (codes "127.0.0.2") ∷ node (codes "127.0.0.3") ∷ []

abbrev continuum_of : Option Ketama → Option (List Mcs)
continuum_of none = none
continuum_of (some k) = k.continuum

no_continuum : continuum_of add_servers ≡ none
unfolding add_servers add_server init_servers expand_servers put_server ketama_new
no_continuum = refl

add_servers-Holds : (k : Ketama) × (add_servers ≡ some k) × Holds k three_nodes
unfolding add_servers
add_servers-Holds =
    let (k1, e1, h1) =
      add_server-Holds ketama_new [] (codes "127.0.0.1") (pos 6379) 100 (omega arith)
        ketama_new-Holds in
    let (k2, e2, h2) = add_server-Holds k1 _ (codes "127.0.0.2") (pos 6379) 100 (omega arith) h1 in
    let (k3, e3, h3) = add_server-Holds k2 _ (codes "127.0.0.3") (pos 6379) 100 (omega arith) h2 in
    let last = λ (k : Ketama). add_server k (codes "127.0.0.3") (pos 6379) 100 in
    (
      k3,
      ap (λ o. o >>= λ k. add_server k (codes "127.0.0.2") (pos 6379) 100 >>= last) e1
          ∙ ap (λ o. o >>= last) e2
          ∙ e3,
      h3,
    )

-- With a share that is rounded as IEEE arithmetic rounds it, the ring of `server_init` is made without
-- a failing assertion or a write outside its arrays, and is a ring built for its three servers.
pub init_ring-IsBuilt :
    (digest : Bytes → List ℕ) (share : ℕ → ℕ → ℕ → ℕ) (q : Qsort)
    → Rounds share
    → (k : Ketama) × (cells : List Mcs) × (init_ring digest share q.sort ≡ some k)
      × IsBuilt digest share q three_nodes k cells
unfolding init_ring
init_ring-IsBuilt digest share q rounds =
    let (k, e, h) = add_servers-Holds in
    let fresh : k.continuum ≡ none = sym (ap continuum_of e) ∙ no_continuum in
    let (k', cells, e', built) =
      create_continuum-IsBuilt digest share q k three_nodes h fresh rounds (omega arith)
        (omega arith) (omega arith) in
    (k', cells, ap (λ o. o >>= create_continuum digest share q.sort) e ∙ e', built)
