-- ===== src/Server/Init/Tests.antt =====
-- The ring over the sample digest, and a server with four workers.
use ketamarouter.Base.{◌≡◌, ◌<◌, Option, some, List, length, arith}
use ketamarouter.Base.Int.{pos}
use ketamarouter.Str.{Str}
use ketamarouter.Session.{Command}
use ketamarouter.Command.Table.{command_list_load}
use ketamarouter.Command.Tests.{by_function}
use ketamarouter.Ketama.State.{Mcs, Ketama}
use ketamarouter.Ketama.Continuum.Sorted.{IsBuilt}
use ketamarouter.Ketama.Route.Samples.{
  small_digest, one_round, one_round-Rounds, insertion, by_insertion,
}
use ketamarouter.Server.Init.{
  init_ring, init_ring-IsBuilt, three_nodes, new_server, server_port, Made, server_init,
}
use ketamarouter.Server.Init.Ready.{server_init-Made}

init_ring-IsBuilt_example :
    (k : Ketama) × (cells : List Mcs) × (init_ring small_digest one_round insertion ≡ some k)
    × IsBuilt small_digest one_round by_insertion three_nodes k cells
init_ring-IsBuilt_example = init_ring-IsBuilt small_digest one_round by_insertion one_round-Rounds

server_init-Made_example :
    (made : Made (Str → Option Command)) × (cells : List Mcs) × (server_init by_function
        small_digest one_round insertion
        (pos 7758)
        4
      ≡ some made)
    × (made.port ≡ server_port (pos 7758))
    × (made.server ≡ new_server 4)
    × (made.command_list ≡ command_list_load by_function)
    × IsBuilt small_digest one_round by_insertion three_nodes made.ketama cells
    × (0 < length cells)
server_init-Made_example =
    server_init-Made by_function small_digest one_round by_insertion (pos 7758) 4 one_round-Rounds
      (omega arith) (omega arith)
