-- ===== src/Logging/Levels.antt =====
-- Which calls of the log write.
use ketamarouter.Base.{
  ℕ, ◌≤◌, ◌≡◌, refl, sym, ap, ap₂, ◌∙◌, Bool, true, false, List, [], ◌∷◌, ◌++◌, append_assoc,
  append-nil, if◌then◌else◌, ltb, leb, arith, Bytes, Bool-cases, inl, inr,
}
use ketamarouter.Logging.{
  Log, Stream, Tm, Place, Severity, debug, info, warn, err, msg, level_of, name_of, log,
  log_enabled, log_str, prefix, stream_of, log_msg_level,
}

-- A call of a macro: its severity, the time, its place and its text.
pub record Call : Type 0 where
  pub severity : Severity
  pub tm : Tm
  pub place : Place
  pub text : Bytes

abbrev pub log_call : Call → Log → Log
log_call c l = log c.severity c.tm c.place c.text l

abbrev pub log_calls : List Call → Log → Log
log_calls [] l = l
log_calls (c ∷ calls) l = log_calls calls (log_call c l)

-- The line of a call.
abbrev pub line_of : Call → Bytes
line_of c = prefix c.tm c.place (name_of c.severity) ++ c.text ++ b'\n' ∷ []

-- What the calls whose severity is enabled write to the stream.
abbrev pub enabled_lines : (Severity → Bool) → Stream → List Call → List (Stream × Bytes)
enabled_lines enabled fd [] = []
enabled_lines enabled fd (c ∷ calls) =
    let rest = enabled_lines enabled fd calls in
    if enabled c.severity then (fd, line_of c) ∷ rest else rest

log_enabled-leb :
    (s : Severity) (l : Log) → l.level ≤ log_msg_level → log_enabled s l ≡ leb l.level (level_of s)
unfolding log_enabled
log_enabled-leb debug l h = refl
log_enabled-leb info l h = refl
log_enabled-leb warn l h = refl
log_enabled-leb err l h = refl
log_enabled-leb msg l h = ground arith

enabled_lines-same :
    (p q : Severity → Bool) (fd : Stream) (calls : List Call)
    → ((s : Severity) → p s ≡ q s)
    → enabled_lines p fd calls ≡ enabled_lines q fd calls
enabled_lines-same p q fd [] h = refl
enabled_lines-same p q fd (c ∷ calls) h = rw (h c.severity, enabled_lines-same p q fd calls h) refl

abbrev reaches : ℕ → Severity → Bool
reaches level s = leb level (level_of s)

-- One call keeps the level and the stream, and writes its line where its level is reached.
log_call_lem :
    (c : Call) (l : Log)
    → ((log_call c l).level ≡ l.level)
      × (stream_of (log_call c l) ≡ stream_of l)
      × ((log_call c l).printed
          ≡ l.printed ++ enabled_lines (reaches l.level) (stream_of l) (c ∷ []))
unfolding log log_str
log_call_lem c l = elim (Bool-cases (ltb (level_of c.severity) l.level)) [
  | inl low ↦
      let below : leb l.level (level_of c.severity) ≡ false = ground arith in
      (
        rw (low, log, log_str) refl,
        rw (low, log, log_str) refl,
        rw (low, log, log_str, below) (sym (append-nil l.printed)),
      )
  | inr high ↦
      let reached : leb l.level (level_of c.severity) ≡ true = ground arith in
      (
        rw (high, log, log_str) refl,
        rw (high, log, log_str) refl,
        rw (high, log, log_str, reached) refl,
      )
]

enabled_lines-cons :
    (p : Severity → Bool) (fd : Stream) (c : Call) (calls : List Call)
    → enabled_lines p fd (c ∷ []) ++ enabled_lines p fd calls ≡ enabled_lines p fd (c ∷ calls)
enabled_lines-cons p fd c calls = elim (Bool-cases (p c.severity)) [
  | inl t ↦ rw t refl
  | inr f ↦ rw f refl
]

log_calls-reached :
    (calls : List Call) (l : Log)
    → ((log_calls calls l).level ≡ l.level)
      × ((log_calls calls l).printed
          ≡ l.printed ++ enabled_lines (reaches l.level) (stream_of l) calls)
log_calls-reached [] l = (refl, sym (append-nil l.printed))
log_calls-reached (c ∷ calls) l =
    let (level, fd, printed) = log_call_lem c l in
    let (level', printed') = log_calls-reached calls (log_call c l) in
    let p = reaches l.level in
    let lines = enabled_lines p (stream_of l) in
    let later : enabled_lines (reaches (log_call c l).level) (stream_of (log_call c l)) calls
        ≡ lines calls =
      rw (level, fd) refl in
    (
      level' ∙ level,
      printed'
          ∙ ap₂ (λ a b. a ++ b) printed later
          ∙ append_assoc l.printed (lines (c ∷ [])) (lines calls)
          ∙ ap (λ x. l.printed ++ x) (enabled_lines-cons p (stream_of l) c calls),
    )

-- Calls of the log write the lines of those whose severity is enabled, in order, each whole, to the
-- stream that is set or else to the standard output, and nothing else; the level stays. The level is
-- one of those that the log names, or below.
pub log_calls-enabled :
    (calls : List Call) (l : Log)
    → l.level ≤ log_msg_level
    → ((log_calls calls l).level ≡ l.level)
      × ((log_calls calls l).printed
          ≡ l.printed ++ enabled_lines (λ s. log_enabled s l) (stream_of l) calls)
log_calls-enabled calls l h =
    let (level, printed) = log_calls-reached calls l in
    let same =
      enabled_lines-same (reaches l.level) (λ s. log_enabled s l) (stream_of l) calls
        (λ s. sym (log_enabled-leb s l h)) in
    (level, printed ∙ ap (λ x. l.printed ++ x) same)
