-- ===== src/Logging.antt =====
-- src/logging.c. The text of a call is the one that `vfprintf` makes of its format and arguments, and
-- the time is the one that `time` and `localtime` give.
pub mod Levels
pub mod Events
mod Tests
use ketamarouter.Base.{
  ℕ, ◌+◌, Bool, true, Option, none, some, List, [], ◌∷◌, ◌++◌, if◌then◌else◌, ltb, leb, ◌==◌, Bytes,
  codes,
}
use ketamarouter.Base.Decimal.{print_nat}

abbrev pub log_debug_level : ℕ
log_debug_level = 1

abbrev pub log_info_level : ℕ
log_info_level = 2

abbrev pub log_warn_level : ℕ
log_warn_level = 3

abbrev pub log_err_level : ℕ
log_err_level = 4

abbrev pub log_msg_level : ℕ
log_msg_level = 5

abbrev pub log_default : ℕ
log_default = log_warn_level

-- `FILE *`, where it is not NULL.
pub data Stream : Type 0 where
  stdout : Stream
  stream : ℕ → Stream

-- `_LOG_LEVEL` and `_LOG_FD`, and what was printed: each text with the stream that took it, the first
-- one first.
pub record Log : Type 0 where
  pub level : ℕ
  pub fd : Option Stream
  pub printed : List (Stream × Bytes)

abbrev pub initial : Log
initial = record { level = log_default; fd = none; printed = [] }

-- `struct tm`, the fields that are printed.
pub record Tm : Type 0 where
  pub year : ℕ
  pub mon : ℕ
  pub mday : ℕ
  pub hour : ℕ
  pub min : ℕ
  pub sec : ℕ

-- The place of a call: `__FILE__` and `__LINE__`.
pub record Place : Type 0 where
  pub file : Bytes
  pub line : ℕ

-- `log_level`: 0 asks for the level.
unfoldable pub log_level : ℕ → Log → ℕ × Log
log_level level l =
    let set = if level == 0 then l else record l { level = level } in (set.level, set)

unfoldable pub log_fd : Option Stream → Log → Option Stream × Log
log_fd none l = (l.fd, l)
log_fd (some fd) l = (some fd, record l { fd = some fd })

-- `%02d`.
abbrev two_digits : ℕ → Bytes
two_digits n = if ltb n 10 then b'0' ∷ print_nat n else print_nat n

-- The build sets LOG_FILELINE.
abbrev log_fileline : Bool
log_fileline = true

unfoldable pub prefix : Tm → Place → Bytes → Bytes
prefix tm place level_str =
    let stamp =
      print_nat (tm.year + 1900)
      ++ b'-' ∷ two_digits (tm.mon + 1)
      ++ b'-' ∷ two_digits tm.mday
      ++ b' ' ∷ two_digits tm.hour
      ++ b':' ∷ two_digits tm.min
      ++ b':' ∷ two_digits tm.sec
      ++ b' ' ∷ b'[' ∷ level_str
      ++ b']' ∷ b' ' ∷ [] in
    if log_fileline
    then stamp ++ place.file ++ b'(' ∷ print_nat place.line ++ b')' ∷ b' ' ∷ []
    else stamp

abbrev pub stream_of : Log → Stream
stream_of l = elim l.fd [ none ↦ stdout | some fd ↦ fd ]

-- What follows the text: a new line, or nothing in `log_nstr`.
abbrev print_on : Bytes → Tm → ℕ → Place → Bytes → Bytes → Log → Log
print_on ending tm level place level_str text l = if ltb level l.level then l else record l {
  fd = some (stream_of l);
  printed = l.printed ++ (stream_of l, prefix tm place level_str ++ text ++ ending) ∷ [];
}

unfoldable pub log_str : Tm → ℕ → Place → Bytes → Bytes → Log → Log
unfolding prefix
log_str = print_on (b'\n' ∷ [])

unfoldable pub log_nstr : Tm → ℕ → Place → Bytes → Bytes → Log → Log
unfolding prefix
log_nstr = print_on []

unfoldable pub log_level_compare : ℕ → ℕ → Bool
log_level_compare cur_level cmp_level = leb cur_level cmp_level

-- `log_debug_enable`, `log_info_enable`, `log_warn_enable` and `log_err_enable`.
unfoldable pub log_enable : ℕ → Log → Bool
unfolding log_level_compare log_level
log_enable level l = log_level_compare (log_level 0 l).0 level

unfoldable pub log_debug_enable : Log → Bool
unfolding log_enable
log_debug_enable = log_enable log_debug_level

unfoldable pub log_info_enable : Log → Bool
unfolding log_enable
log_info_enable = log_enable log_info_level

unfoldable pub log_warn_enable : Log → Bool
unfolding log_enable
log_warn_enable = log_enable log_warn_level

unfoldable pub log_err_enable : Log → Bool
unfolding log_enable
log_err_enable = log_enable log_err_level

unfoldable pub log_msg_enable : Log → Bool
log_msg_enable l = true

-- A line of the log, which one of the macros writes.
pub data Severity : Type 0 where
  debug info warn err msg : Severity

abbrev pub level_of : Severity → ℕ
level_of debug = log_debug_level
level_of info = log_info_level
level_of warn = log_warn_level
level_of err = log_err_level
level_of msg = log_msg_level

abbrev pub name_of : Severity → Bytes
name_of debug = codes "DEBUG"
name_of info = codes "INFO "
name_of warn = codes "WARN "
name_of err = codes "ERROR"
name_of msg = codes "MSG  "

-- `log_debug`, `log_info`, `log_warn`, `log_err` and `log_msg`.
unfoldable pub log : Severity → Tm → Place → Bytes → Log → Log
unfolding log_str
log s tm place text = log_str tm (level_of s) place (name_of s) text

unfoldable pub log_enabled : Severity → Log → Bool
unfolding log_debug_enable log_info_enable log_warn_enable log_err_enable log_msg_enable
log_enabled debug = log_debug_enable
log_enabled info = log_info_enable
log_enabled warn = log_warn_enable
log_enabled err = log_err_enable
log_enabled msg = log_msg_enable
