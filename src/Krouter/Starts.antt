-- ===== src/Krouter/Starts.antt =====
-- A command line and a file of settings from which `main` comes to wait for events.
use ketamarouter.Base.{
  ℕ, ◌^◌, ◌<◌, ◌≡◌, refl, ap, ap₂, ◌∙◌, inl, inr, Bool, true, Option, none, some, List, ◌∷◌, ◌>>=◌,
  if◌then◌else◌, ◌==◌, Bytes, codes, get_elem?, Bool-cases,
}
use ketamarouter.Base.Int.{pos}
use ketamarouter.Ketama.Continuum.Fits.{Rounds}
use ketamarouter.Ketama.Continuum.Sorted.{Qsort}
use ketamarouter.Command.Table.{TableOps}
use ketamarouter.Server.Init.{server_init, server_port}
use ketamarouter.Server.Init.Ready.{server_init-Made}
use ketamarouter.Setting.KeyFile.{KeyFileOps, IsKeyFile}
use ketamarouter.Setting.{Setting, Blocks, global, to_u64}
use ketamarouter.Setting.Defaults.{complete}
use ketamarouter.Setting.Loads.{Gives, maybe_level, setting_load-loaded}
use ketamarouter.Krouter.{
  Found, Running, runs, read_options, to_size, worker_number, make_server, server_start,
  load_and_start, after_options, main,
}

module _ {F T : Type 0} (files : KeyFileOps F) (tables : TableOps T) (digest : Bytes → List ℕ)
    (share : ℕ → ℕ → ℕ → ℕ) (q : Qsort) (can_bind : ℕ → Bool) where
  -- The number of workers, from `-t`, from the file, or the default.
  abbrev pub chosen_workers : F → ℕ → ℕ
  chosen_workers ini wt =
      if wt == 0
      then to_u64 (
          if files.has_key ini global (codes "number-of-workers")
          then files.get_integer ini global (codes "number-of-workers")
          else pos 4)
      else to_size wt

  abbrev pub chosen_level : F → Option ℕ
  chosen_level ini = maybe_level (
      if files.has_key ini global (codes "log-level")
      then files.get_string ini global (codes "log-level")
      else some (codes "warn"))

  abbrev pub chosen_limit : F → ℕ
  chosen_limit ini = to_u64 (
      if files.has_key ini global (codes "max-connections")
      then files.get_int64 ini global (codes "max-connections")
      else pos 10000)

  -- A server that runs with what was chosen.
  abbrev pub RunsWith : F → ℕ → ℕ → Running T → Type 0
  RunsWith ini wt level r =
      (r.level ≡ level)
      × (r.workers ≡ chosen_workers ini wt)
      × (r.max_connections ≡ chosen_limit ini)
      × (server_init tables digest share q.sort (files.get_integer ini global (codes "port"))
            r.workers
          ≡ some r.made)
      × (r.made.port ≡ server_port (files.get_integer ini global (codes "port")))

  worker_number_lem :
      (ini : F) (set : Setting F) (wt : ℕ)
      → Gives files ini set
      → worker_number files tables digest share q.sort set wt ≡ some (chosen_workers ini wt)
  worker_number_lem ini set wt g = elim (Bool-cases (wt == 0)) [
    | inl z ↦ rw z (ap (λ o. o >>= λ n. some (to_u64 n)) g.2)
    | inr n ↦ rw n refl
  ]

  make_server-RunsWith :
      (ini : F) (set : Setting F) (wt level : ℕ)
      → Rounds share
      → 0 < share 100 300 3
      → Gives files ini set
      → chosen_level ini ≡ some level
      → chosen_workers ini wt < 2 ^ 31
      → (r : Running T) × (make_server files tables digest share q.sort set wt ≡ some r)
        × RunsWith ini wt level r
  unfolding make_server
  make_server-RunsWith ini set wt level rounds positive g l few =
      let (made, cells, e, port, _, _, _, _) =
        server_init-Made tables digest share q (files.get_integer ini global (codes "port"))
          (chosen_workers ini wt) rounds positive few in
      (
        record {
          level = level;
          workers = chosen_workers ini wt;
          max_connections = chosen_limit ini;
          made = made;
        },
        rw (make_server, g.4, l, g.0, worker_number_lem ini set wt g, e, g.3) refl,
        (refl, refl, refl, e, port),
      )

  -- Where `getopt` finds no `-h` and no `-v`, the argument that it leaves first names a file that can be
  -- read and loaded, with both groups and the port, the log level is no NULL, the number of workers is
  -- below 2 ^ 31, and the port can be listened on, `main` comes to wait for events. It does so with the log level, the limit of
  -- connections and the port of the file, or their defaults; with the number of workers of the last
  -- `-t`, unless that is 0 or missing, and else of the file or its default; and with what `server_init`
  -- makes of them. The share is rounded as IEEE arithmetic rounds it and gives each server a point.
  pub main-runs :
      (getopt : List Bytes → List Found × List Bytes) (access : Bytes → Bool)
      (command arg conf_file : Bytes) (args : List Bytes) (b : Blocks) (ini : F) (wt level : ℕ)
      → IsKeyFile files
      → Rounds share
      → 0 < share 100 300 3
      → read_options command (getopt (command ∷ arg ∷ args)).0 0 ≡ (none, wt)
      → get_elem? (getopt (command ∷ arg ∷ args)).1 1 ≡ some conf_file
      → access conf_file ≡ true
      → files.load_from_file files.new conf_file ≡ some ini
      → complete files ini ≡ true
      → chosen_level ini ≡ some level
      → chosen_workers ini wt < 2 ^ 31
      → can_bind (server_port (files.get_integer ini global (codes "port"))) ≡ true
      → (r : Running T) × (main files tables digest share q.sort can_bind getopt access
            (command ∷ arg ∷ args)
            b
          ≡ runs r)
        × RunsWith ini wt level r
  unfolding main after_options load_and_start server_start
  main-runs getopt access command arg conf_file args b ini wt level laws rounds positive options
        file readable load full l few bind =
      let (set, e, g) = setting_load-loaded files laws access conf_file b ini readable load full in
      let (r, e', with) = make_server-RunsWith ini set wt level rounds positive g l few in
      let started = λ (o : Option Bytes × ℕ) (f : Option Bytes).
        after_options files tables digest share q.sort can_bind access o f b in
      let bound : can_bind r.made.port ≡ true = ap can_bind with.4 ∙ bind in
      (r, ap₂ started options file ∙ rw (load_and_start, e, e', server_start, bound) refl, with)
