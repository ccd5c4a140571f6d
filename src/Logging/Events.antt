-- ===== src/Logging/Events.antt =====
-- src/event_util.c: the log of the event library. The message is passed on as the format of a call
-- without arguments.
use ketamarouter.Base.{
  ℕ, ◌≡◌, ◌≢◌, refl, Option, none, some, [], ◌∷◌, ◌++◌, ◌>>=◌, ◌==◌, if◌then◌else◌, Bytes, Lacks,
  true, false, arith, ltb, leb, Bool-cases, inl, inr,
}
use ketamarouter.Logging.{Log, Tm, Place, Severity, debug, info, warn, err, level_of, log, log_str}

-- What `vfprintf` prints of a format without arguments: a doubled % is one, and any other
-- specification asks for an argument that is not there, which is undefined.
unfoldable pub print_format : Bytes → Option Bytes
print_format [] = some []
print_format (c ∷ []) = if c == b'%' then none else some (c ∷ [])
print_format (c ∷ d ∷ rest) =
    let two = print_format rest >>= λ text. some (b'%' ∷ text) in
    let one = print_format (d ∷ rest) >>= λ text. some (c ∷ text) in
    if c == b'%' then (if d == b'%' then two else none) else one

-- `_EVENT_LOG_DEBUG`, `_EVENT_LOG_MSG`, `_EVENT_LOG_WARN` and `_EVENT_LOG_ERR` of the event library.
pub record EventCodes : Type 0 where
  pub code_debug : ℕ
  pub code_msg : ℕ
  pub code_warn : ℕ
  pub code_err : ℕ

unfoldable pub severity_of : EventCodes → ℕ → Severity
severity_of codes s =
    if s == codes.code_debug
    then debug
    else if s == codes.code_msg
    then info
    else if s == codes.code_warn
    then warn
    else if s == codes.code_err
    then err
    else debug

-- The level is tested before the format is read.
unfoldable pub event_log_callback : EventCodes → Tm → Place → ℕ → Bytes → Log → Option Log
unfolding print_format severity_of
event_log_callback codes tm place s msg l =
    let severity = severity_of codes s in
    let printed = print_format msg >>= λ text. some (log severity tm place text l) in
    if ltb (level_of severity) l.level then some l else printed

print_format-Lacks : (msg : Bytes) → Lacks b'%' msg → print_format msg ≡ some msg
unfolding print_format
print_format-Lacks [] h = refl
print_format-Lacks (c ∷ []) h = let f : (c == b'%') ≡ false = ground arith in rw f refl
print_format-Lacks (c ∷ d ∷ rest) h =
    let f : (c == b'%') ≡ false = ground arith in rw (f, print_format-Lacks (d ∷ rest) h.1) refl

print_format-percent :
    (before rest : Bytes) (d : ℕ)
    → Lacks b'%' before
    → d ≢ b'%'
    → print_format (before ++ b'%' ∷ d ∷ rest) ≡ none
unfolding print_format
print_format-percent [] rest d h n = let f : (d == b'%') ≡ false = ground arith in rw f refl
print_format-percent (c ∷ []) rest d h n =
    let f : (c == b'%') ≡ false = ground arith in rw (f, print_format-percent [] rest d tt n) refl
print_format-percent (c ∷ e ∷ before) rest d h n =
    let f : (c == b'%') ≡ false = ground arith in
    rw (f, print_format-percent (e ∷ before) rest d h.1 n) refl

-- A message of the event library without % is logged as it is, with the severity of its code. One in
-- which % stands before another byte, behind a part without %, is taken for a format: it is undefined
-- where the level of the log lets its severity through, and nothing is logged otherwise.
pub event_log_callback-percent :
    (codes : EventCodes) (tm : Tm) (place : Place) (s : ℕ) (msg rest : Bytes) (d : ℕ) (l : Log)
    → Lacks b'%' msg
    → d ≢ b'%'
    → (event_log_callback codes tm place s msg l ≡ some (log (severity_of codes s) tm place msg l))
      × (event_log_callback codes tm place s (msg ++ b'%' ∷ d ∷ rest) l
          ≡ (if leb l.level (level_of (severity_of codes s)) then none else some l))
unfolding event_log_callback log log_str
event_log_callback-percent codes tm place s msg rest d l lacks n =
    let severity = severity_of codes s in
    let plain = print_format-Lacks msg lacks in
    let bad = print_format-percent msg rest d lacks n in
    elim (Bool-cases (ltb (level_of severity) l.level)) [
      | inl low ↦
          let below : leb l.level (level_of severity) ≡ false = ground arith in
          (
            rw (low, event_log_callback, log, log_str) refl,
            rw (low, event_log_callback, below) refl,
          )
      | inr high ↦
          let reached : leb l.level (level_of severity) ≡ true = ground arith in
          (
            rw (high, event_log_callback, plain) refl,
            rw (high, event_log_callback, bad, reached) refl,
          )
    ]
