-- ===== src/Decoder.antt =====
-- src/decoder.h and src/decoder.c: one row of the protocol at a time, into a message. A row is a C
-- string.
pub mod RoundTrip
pub mod Keeps
pub mod Faults
mod Tests
use ketamarouter.Base.{
  ℕ, zero, suc, ◌+◌, ◌%◌, ◌≡◌, Bool, Option, none, some, List, [], ◌∷◌, ◌==◌, if◌then◌else◌, Bytes,
  length, drop, u16,
}
use ketamarouter.Base.Decimal.{atoi}
use ketamarouter.Message.Buf.{State, pure, ◌>>=◌}
use ketamarouter.Message.Ops.{
  Msg, MsgStat, idle, data_more, done, msg_init_cmd, msg_set_cmd, msg_init_param_str,
  msg_init_param_kv, msg_add_param, msg_get_stat,
}
use ketamarouter.Message.Gen.{cmd_header, str_header, kv_header, kv_sept}

-- DR_OK, DR_ERR_FORMAT and DR_ERR_PARAM_FORMAT.
pub data DecodeResult : Type 0 where
  ok err_format err_param_format : DecodeResult

-- `strchr`, as the offset of the first `c`.
unfoldable pub strchr : Bytes → ℕ → Option ℕ
strchr [] c = none
strchr (d ∷ s) c =
    let rest = strchr s c in
    if d == c then some 0 else elim rest [ none ↦ none | some i ↦ some (i + 1) ]

-- From `s++` on, where `c` is the row behind its header and has its first blank at `clen`.
unfoldable pub command_count : Msg → Bytes → Bytes → ℕ → State (DecodeResult × Msg)
command_count m row c clen =
    let s = drop (clen + 1) c in
    if length s == 0
    then pure (err_format, m)
    else if atoi s == 0
    then pure (err_format, m)
    else do cmd ← msg_init_cmd c clen (atoi s % u16) row; pure (ok, msg_set_cmd m cmd)

-- From the test of the header on.
unfoldable pub command_body : Msg → Bytes → Bytes → State (DecodeResult × Msg)
command_body m row [] = pure (err_format, m)
command_body m row (x ∷ xs) =
    let c = x ∷ xs in
    elim (strchr c b' ') [
      | none ↦ do cmd ← msg_init_cmd c (length c) 0 row; pure (ok, msg_set_cmd m cmd)
      | some clen ↦ command_count m row c clen
    ]

unfoldable pub decoder_command : Msg → Bytes → State (DecodeResult × Msg)
decoder_command m [] = pure (err_format, m)
decoder_command m (h ∷ c) =
    if h == cmd_header then command_body m (h ∷ c) c else pure (err_format, m)

-- MSG_STR_HEADER's case.
unfoldable pub param_str_body : Msg → Bytes → Bytes → State (DecodeResult × Msg)
param_str_body m row s = do
  param ← msg_init_param_str s (length s) row
  m' ← msg_add_param m param
  pure (ok, m')

-- MSG_KV_HEADER's case, where `k` is the row behind its header.
unfoldable pub param_kv_body : Msg → Bytes → Bytes → State (DecodeResult × Msg)
param_kv_body m row k = elim (strchr k kv_sept) [
  | none ↦ pure (err_param_format, m)
  | some klen ↦
      let v = drop (klen + 1) k in
      do
        param ← msg_init_param_kv k klen v (length v) row
        m' ← msg_add_param m param
        pure (ok, m')
]

unfoldable pub decoder_param : Msg → Bytes → State (DecodeResult × Msg)
decoder_param m [] = pure (err_param_format, m)
decoder_param m (h ∷ s) =
    if h == str_header
    then param_str_body m (h ∷ s) s
    else if h == kv_header
    then param_kv_body m (h ∷ s) s
    else pure (err_param_format, m)

unfoldable pub decoder_at : MsgStat → Msg → Bytes → State (DecodeResult × Msg)
decoder_at idle m row = decoder_command m row
decoder_at data_more m row = decoder_param m row
decoder_at done m row = pure (ok, m)

-- The state of the message selects the case.
unfoldable pub decoder_run : Msg → Bytes → State (DecodeResult × Msg)
unfolding decoder_at msg_get_stat
decoder_run m row = decoder_at (msg_get_stat m) m row
