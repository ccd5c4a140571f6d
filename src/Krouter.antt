-- ===== src/Krouter.antt =====
-- src/krouter.c: `main` up to the dispatch of events. `getopt`, `access` and glib are parameters; what
-- is logged is left out, and threads are taken to start.
pub mod Starts
mod Tests
use ketamarouter.Base.{
  ℕ, ◌+◌, ◌-◌, ◌^◌, Bool, Option, none, some, List, [], ◌∷◌, ◌++◌, if◌then◌else◌, ltb, ◌==◌, ◌>>=◌,
  Bytes, codes, get_elem?, u32, u64,
}
use ketamarouter.Base.Decimal.{atoi, print_nat}
use ketamarouter.Ketama.State.{Mcs}
use ketamarouter.Command.Table.{TableOps}
use ketamarouter.Server.Init.{Made, server_init}
use ketamarouter.Setting.KeyFile.{KeyFileOps}
use ketamarouter.Setting.{
  Setting, Blocks, exited, failed, loaded, setting_load, setting_get_port,
  setting_get_number_of_workers, setting_get_max_connections, to_u64, setting_get_log_level,
}

-- What `getopt` finds for "hvt:"; `other` is an option that it does not know.
pub data Found : Type 0 where
  help version other : Found
  threads : Bytes → Found

-- A server that waits for events: the level of its log, the number of its workers, its limit of
-- connections, and what `server_init` made.
pub record Running (T : Type 0) : Type 0 where
  pub level : ℕ
  pub workers : ℕ
  pub max_connections : ℕ
  pub made : Made T

-- The process ends with a status, after it printed a text; or its behaviour is undefined; or it runs.
pub data Course (T : Type 0) : Type 0 where
  ends : ℕ → Bytes → Course T
  undefined : Course T
  runs : Running T → Course T

-- `_VER_MAJOR`, `_VER_MINOR` and `_VER_PATCH`.
unfoldable pub print_version : Bytes
print_version =
    b'\n' ∷ codes "Krouter. version "
    ++ print_nat 0
    ++ b'.' ∷ print_nat 1
    ++ b'.' ∷ print_nat 1
    ++ b'\n' ∷ []

unfoldable pub print_help : Bytes → Bytes
unfolding print_version
print_help command =
    print_version
    ++ codes "Usage: "
    ++ command
    ++ codes " [CONFIG_FILE | -v | -h ]\n"
    ++ codes "    -v        Print version.\n"
    ++ codes "    -h        This help.\n"
    ++ codes "Example:\n"
    ++ codes "    "
    ++ command
    ++ codes " ./file.conf \n"
    ++ codes "    "
    ++ command
    ++ codes " -v\n"
    ++ codes "    "
    ++ command
    ++ codes " -h\n"

-- The loop over the options: a text to print before `exit(0)`, or the value of `wt`.
unfoldable pub read_options : Bytes → List Found → ℕ → Option Bytes × ℕ
unfolding print_help print_version
read_options command [] wt = (none, wt)
read_options command (help ∷ opts) wt = (some (print_help command), wt)
read_options command (version ∷ opts) wt = (some print_version, wt)
read_options command (other ∷ opts) wt = read_options command opts wt
read_options command (threads arg ∷ opts) wt = read_options command opts (atoi arg)

-- An `int` with these 32 bits, as a `size_t`.
abbrev pub to_size : ℕ → ℕ
to_size n = if ltb n (2 ^ 31) then n else u64 - u32 + n

-- The thread of the server: `evconnlistener_new_bind` on its port, without which the process exits.
unfoldable pub server_start : {T : Type 0} → (ℕ → Bool) → Running T → Course T
server_start can_bind r = if can_bind r.made.port then runs r else ends 255 []

abbrev pub course_of : {T : Type 0} → (ℕ → Bool) → Option (Running T) → Course T
course_of can_bind none = undefined
course_of can_bind (some r) = server_start can_bind r

module _ {F T : Type 0} (files : KeyFileOps F) (tables : TableOps T) (digest : Bytes → List ℕ)
    (share : ℕ → ℕ → ℕ → ℕ) (sort : List Mcs → List Mcs) where
  -- The number of workers: that of the option `-t`, unless it is 0.
  abbrev pub worker_number : Setting F → ℕ → Option ℕ
  worker_number set wt =
      if wt == 0
      then (setting_get_number_of_workers files set >>= λ n. some (to_u64 n))
      else some (to_size wt)

  -- From the settings to the server.
  unfoldable pub make_server : Setting F → ℕ → Option (Running T)
  make_server set wt = do
    level ← setting_get_log_level files set
    port ← setting_get_port files set
    n ← worker_number set wt
    made ← server_init tables digest share sort port n
    max ← setting_get_max_connections files set
    some (record { level = level; workers = n; max_connections = max; made = made })

module _ {F T : Type 0} (files : KeyFileOps F) (tables : TableOps T) (digest : Bytes → List ℕ)
    (share : ℕ → ℕ → ℕ → ℕ) (sort : List Mcs → List Mcs) (can_bind : ℕ → Bool) where
  unfoldable pub load_and_start : (Bytes → Bool) → Bytes → ℕ → Blocks → Course T
  unfolding make_server server_start
  load_and_start access conf_file wt b = elim (setting_load files access conf_file b).0 [
    | exited ↦ ends 255 []
    | failed ↦ ends 1 []
    | loaded set ↦ course_of can_bind (make_server files tables digest share sort set wt)
  ]

  -- With the text to print or the value of `wt`, and with `argv[1]`.
  unfoldable pub after_options :
      (Bytes → Bool) → Option Bytes × ℕ → Option Bytes → Blocks → Course T
  unfolding load_and_start
  after_options access r file b = elim r.0 [
    | some text ↦ ends 0 text
    | none ↦ elim file [ none ↦ undefined | some conf_file ↦ load_and_start access conf_file r.1 b ]
  ]

  -- `getopt` yields the options it finds, and `argv` as it leaves it.
  unfoldable pub main :
      (List Bytes → List Found × List Bytes) → (Bytes → Bool) → List Bytes → Blocks → Course T
  unfolding after_options read_options print_help
  main getopt access [] b = undefined
  main getopt access (command ∷ []) b = ends 0 (print_help command)
  main getopt access (command ∷ arg ∷ args) b =
      let found = getopt (command ∷ arg ∷ args) in
      after_options access (read_options command found.0 0) (get_elem? found.1 1) b
