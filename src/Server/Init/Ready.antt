-- ===== src/Server/Init/Ready.antt =====
-- What `server_init` makes for a number of workers.
use ketamarouter.Base.{
  ℕ, ◌^◌, ◌<◌, ◌≡◌, refl, sym, subst, ◌∙◌, true, some, Bool-cases, some-injective, inl, inr, List,
  arith, Bytes, length, ltb,
}
use ketamarouter.Base.Int.{ℤ}
use ketamarouter.Ketama.State.{Mcs, Ketama}
use ketamarouter.Ketama.Continuum.Points.{length-ring_points}
use ketamarouter.Ketama.Continuum.Fits.{Rounds}
use ketamarouter.Ketama.Continuum.Sorted.{Qsort, IsBuilt, length-perm}
use ketamarouter.Command.Table.{TableOps, command_list_load}
use ketamarouter.Server.Init.{
  init_ring-IsBuilt, three_nodes, new_server, server_port, Made, server_init,
}

module _ {T : Type 0} (ops : TableOps T) (digest : Bytes → List ℕ) (share : ℕ → ℕ → ℕ → ℕ)
    (q : Qsort) where
  -- The ring has a point, where the rounded share of a server is not 0.
  some_point :
      (k : Ketama) (cells : List Mcs)
      → 0 < share 100 300 3
      → IsBuilt digest share q three_nodes k cells
      → 0 < length cells
  some_point k cells positive built =
      omega (
        arith,
        length-perm built.perm,
        length-ring_points digest share 300 3 0 three_nodes,
        positive,
      )

  -- For fewer than 2 ^ 31 workers, with a share that is rounded as IEEE arithmetic rounds it and gives
  -- each of the three servers a point, `server_init` returns: with the workers, the loaded list of
  -- commands, and a ring that is built for the three servers and has a point.
  pub server_init-Made :
      (port : ℤ) (n : ℕ)
      → Rounds share
      → 0 < share 100 300 3
      → n < 2 ^ 31
      → (made : Made T) × (cells : List Mcs) × (server_init ops digest share q.sort port n
          ≡ some made)
        × (made.port ≡ server_port port)
        × (made.server ≡ new_server n)
        × (made.command_list ≡ command_list_load ops)
        × IsBuilt digest share q three_nodes made.ketama cells
        × (0 < length cells)
  unfolding server_init
  server_init-Made port n rounds positive small =
      let (k, cells, e, built) = init_ring-IsBuilt digest share q rounds in
      let lt : ltb n (2 ^ 31) ≡ true = ground arith in
      let made : Made T = record {
        port = server_port port;
        server = new_server n;
        command_list = command_list_load ops;
        ketama = k;
      } in
      (made, cells, rw (lt, e) refl, refl, refl, refl, built, some_point k cells positive built)

  -- What is known of a server that was made.
  abbrev pub IsReady : ℕ → Made T → Type 0
  IsReady n made =
      (cells : List Mcs) × (made.server ≡ new_server n)
      × (made.command_list ≡ command_list_load ops)
      × IsBuilt digest share q three_nodes made.ketama cells
      × (0 < length cells)

  few_workers :
      (port : ℤ) (n : ℕ) (made : Made T)
      → server_init ops digest share q.sort port n ≡ some made
      → n < 2 ^ 31
  unfolding server_init
  few_workers port n made e = elim (Bool-cases (ltb n (2 ^ 31))) [
    | inl lt ↦ ground arith
    | inr ge ↦ cc (rw ge at e)
  ]

  pub server_init-IsReady :
      (port : ℤ) (n : ℕ) (made : Made T)
      → Rounds share
      → 0 < share 100 300 3
      → server_init ops digest share q.sort port n ≡ some made
      → IsReady n made
  server_init-IsReady port n made rounds positive e =
      let (made', cells, e', _, server, list, built, some_cell) =
        server_init-Made port n rounds positive (few_workers port n made e) in
      subst (IsReady n) (some-injective made' made (sym e' ∙ e))
        (cells, server, list, built, some_cell)
