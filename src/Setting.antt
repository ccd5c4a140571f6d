-- ===== src/Setting.antt =====
-- src/setting.c. What is logged is left out.
pub mod KeyFile
pub mod Defaults
pub mod Loads
pub mod Level
pub mod Tests
use ketamarouter.Base.{
  ℕ, ◌+◌, ◌-◌, ◌%◌, Bool, true, false, Option, none, some, List, [], ◌∷◌, if◌then◌else◌, ◌>>=◌,
  Bytes, codes, leb, ◌&&◌, map, u64,
}
use ketamarouter.Base.Int.{ℤ, pos, negsuc}
use ketamarouter.Str.{strncmp_eq}
use ketamarouter.Logging.{
  debug, info, warn, err, name_of, log_debug_level, log_info_level, log_warn_level, log_err_level,
  log_default,
}
use KeyFile.{KeyFileOps}

pub data OptType : Type 0 where
  opt_mandatory opt_optional : OptType

-- `setting_opt_t`.
pub record Opt : Type 0 where
  pub group : Bytes
  pub key : Bytes
  pub type : OptType
  pub defval : Bytes

abbrev pub global : Bytes
global = codes "global"

abbrev pub cluster : Bytes
cluster = codes "cluster"

-- The two tables, without the entries of NULL that end them.
abbrev pub groups : List Bytes
groups = global ∷ cluster ∷ []

abbrev pub optional : Bytes → Bytes → Opt
optional key defval = record { group = global; key = key; type = opt_optional; defval = defval }

abbrev pub port_option : Opt
port_option = record { group = global; key = codes "port"; type = opt_mandatory; defval = [] }

abbrev pub qps_option : Opt
qps_option = optional (codes "qps-queue-seconds") (codes "10")

abbrev pub workers_option : Opt
workers_option = optional (codes "number-of-workers") (codes "4")

abbrev pub connections_option : Opt
connections_option = optional (codes "max-connections") (codes "10000")

abbrev pub level_option : Opt
level_option = optional (codes "log-level") (codes "warn")

abbrev pub options : List Opt
options = port_option ∷ qps_option ∷ workers_option ∷ connections_option ∷ level_option ∷ []

-- The blocks that are allocated: key files, settings and tables of clusters.
pub record Blocks : Type 0 where
  pub key_files : ℕ
  pub settings : ℕ
  pub clusters : ℕ

-- `setting_t`, with a table of clusters that nothing is put into.
pub record Setting (T : Type 0) : Type 0 where
  pub ini : Option T

-- The process ends with `exit(-1)`, or NULL is returned, or settings.
pub data Loaded (T : Type 0) : Type 0 where
  exited failed : Loaded T
  loaded : Setting T → Loaded T

-- `strncasecmp(a, b, n) == 0`.
abbrev pub to_lower : ℕ → ℕ
to_lower c = if leb 65 c && leb c 90 then c + 32 else c

abbrev pub lower : Bytes → Bytes
lower = map to_lower

unfoldable pub strncasecmp_eq : ℕ → Bytes → Bytes → Bool
strncasecmp_eq n a b = strncmp_eq n (lower a) (lower b)

-- The comparisons of `setting_get_log_level`.
unfoldable pub level_of_text : Bytes → ℕ
unfolding strncasecmp_eq
level_of_text lstr =
    if strncasecmp_eq 5 lstr (name_of debug)
    then log_debug_level
    else if strncasecmp_eq 4 lstr (name_of info)
    then log_info_level
    else if strncasecmp_eq 4 lstr (name_of warn)
    then log_warn_level
    else if strncasecmp_eq 5 lstr (name_of err)
    then log_err_level
    else log_default

-- The cast to `uint64_t`.
abbrev pub to_u64 : ℤ → ℕ
to_u64 (pos n) = n % u64
to_u64 (negsuc n) = u64 - 1 - n % u64

module _ {T : Type 0} (ops : KeyFileOps T) where
  -- The loop over the groups; false is an exit.
  unfoldable pub check_groups : T → List Bytes → Bool
  check_groups ini [] = true
  check_groups ini (g ∷ rest) =
      let later = check_groups ini rest in if ops.has_group ini g then later else false

  -- One round of the loop over the options; `none` is an exit.
  unfoldable pub check_option : T → Opt → Option T
  check_option ini opt = elim opt.type [
    | opt_mandatory ↦ if ops.has_key ini opt.group opt.key then some ini else none
    | opt_optional ↦
        if ops.has_key ini opt.group opt.key
        then some ini
        else some (ops.set_value ini opt.group opt.key opt.defval)
  ]

  unfoldable pub check_options : T → List Opt → Option T
  unfolding check_option
  check_options ini [] = some ini
  check_options ini (opt ∷ opts) = do ini' ← check_option ini opt; check_options ini' opts

  unfoldable pub setting_check_mandatory : T → Option T
  unfolding check_groups check_options
  setting_check_mandatory ini = if check_groups ini groups then check_options ini options else none

  -- NULL is nothing to free; the table of clusters is not freed.
  unfoldable pub setting_free : Option (Setting T) → Blocks → Blocks
  setting_free none b = b
  setting_free (some set) b = elim set.ini [
    | none ↦ record b { settings = b.settings - 1 }
    | some _ ↦ record b { key_files = b.key_files - 1; settings = b.settings - 1 }
  ]

  -- `access` tells whether the file can be read. The setting has no key file before the end.
  unfoldable pub setting_load : (Bytes → Bool) → Bytes → Blocks → Loaded T × Blocks
  unfolding setting_check_mandatory setting_free
  setting_load access file b =
      let made : Blocks = record {
        key_files = b.key_files + 1;
        settings = b.settings + 1;
        clusters = b.clusters + 1;
      } in
      if access file
      then (elim (ops.load_from_file ops.new file) [
        | none ↦ (failed, setting_free (some (record { ini = none })) made)
        | some ini ↦ elim (setting_check_mandatory ini) [
          | none ↦ (exited, made)
          | some ini' ↦ (loaded (record { ini = some ini' }), made)
        ]
      ])
      else (failed, b)

  -- The getters; `none` is a key file or a text that is NULL.
  unfoldable pub setting_get_port : Setting T → Option ℤ
  setting_get_port set = do ini ← set.ini; some (ops.get_integer ini global (codes "port"))

  unfoldable pub setting_get_qps_queue_seconds : Setting T → Option ℤ
  setting_get_qps_queue_seconds set = do
    ini ← set.ini
    some (ops.get_integer ini global (codes "qps-queue-seconds"))

  unfoldable pub setting_get_number_of_workers : Setting T → Option ℤ
  setting_get_number_of_workers set = do
    ini ← set.ini
    some (ops.get_integer ini global (codes "number-of-workers"))

  unfoldable pub setting_get_max_connections : Setting T → Option ℕ
  setting_get_max_connections set = do
    ini ← set.ini
    some (to_u64 (ops.get_int64 ini global (codes "max-connections")))

  unfoldable pub setting_get_log_level : Setting T → Option ℕ
  unfolding level_of_text
  setting_get_log_level set = do
    ini ← set.ini
    lstr ← ops.get_string ini global (codes "log-level")
    some (level_of_text lstr)
