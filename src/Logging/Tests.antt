-- ===== src/Logging/Tests.antt =====
-- Three calls of a log at its first level, and messages of the event library.
use ketamarouter.Base.{refl, none, some, ◌≡◌, List, [], ◌∷◌, ◌++◌, codes, arith, if◌then◌else◌, leb}
use ketamarouter.Logging.{
  Place, Tm, Severity, debug, warn, err, initial, stream_of, log_enabled, log_warn_level, log,
  level_of,
}
use ketamarouter.Logging.Events.{
  EventCodes, severity_of, print_format, event_log_callback, event_log_callback-percent,
}
use ketamarouter.Logging.Levels.{Call, log_calls, enabled_lines, log_calls-enabled}

abbrev noon : Tm
noon = record { year = 114; mon = 0; mday = 2; hour = 12; min = 0; sec = 9 }

abbrev call_at : Severity → Call
call_at s = record {
  severity = s;
  tm = noon;
  place = record { file = codes "krouter.c"; line = 19 };
  text = codes "Start";
}

abbrev calls : List Call
calls = call_at debug ∷ call_at err ∷ call_at warn ∷ []

log_calls-enabled_example :
    ((log_calls calls initial).level ≡ log_warn_level)
    × ((log_calls calls initial).printed
        ≡ [] ++ enabled_lines (λ s. log_enabled s initial) (stream_of initial) calls)
log_calls-enabled_example = log_calls-enabled calls initial (omega arith)

abbrev event_codes : EventCodes
event_codes = record { code_debug = 0; code_msg = 1; code_warn = 2; code_err = 3 }

abbrev place : Place
place = record { file = codes "event_util.c"; line = 11 }

event_log_callback-percent_example :
    (event_log_callback event_codes noon place 2 (codes "use ") initial
      ≡ some (log (severity_of event_codes 2) noon place (codes "use ") initial))
    × (event_log_callback event_codes noon place 2 (codes "use %s") initial
        ≡ (if leb initial.level (level_of (severity_of event_codes 2)) then none else some initial))
event_log_callback-percent_example =
    event_log_callback-percent event_codes noon place 2 (codes "use ") [] b's' initial
      (omega arith, (omega arith, (omega arith, (omega arith, tt)))) (omega arith)

-- A message for debugging, which the level of the log does not let through.
quiet : event_log_callback event_codes noon place 0 (codes "use %s") initial ≡ some initial
unfolding event_log_callback severity_of print_format
quiet = refl
