-- ===== src/Message/Gen.antt =====
-- The operations that write a row: `msg_gen_cmd`, `msg_gen_param_str` and `msg_gen_param_kv`.
use ketamarouter.Base.{ℕ, ◌+◌, [], ◌∷◌, ◌++◌, ◌==◌, if◌then◌else◌, Bytes, take, drop}
use ketamarouter.Base.Decimal.{print_nat}
use ketamarouter.Message.Buf.{State, pure, ◌>>=◌, get_cmd, get_param, get_kv, get_str, sprintf}
use ketamarouter.Message.Ops.{Cmd, Param, string, key_value}

-- MSG_CMD_HEADER, MSG_STR_HEADER, MSG_KV_HEADER, MSG_KV_SEPT and MSG_CRLF.
abbrev pub cmd_header : ℕ
cmd_header = b'+'

abbrev pub str_header : ℕ
str_header = b'$'

abbrev pub kv_header : ℕ
kv_header = b'%'

abbrev pub kv_sept : ℕ
kv_sept = b'='

abbrev pub crlf : Bytes
crlf = 13 ∷ 10 ∷ []

-- The texts that `sprintf` writes.
unfoldable pub cmd_text : Bytes → ℕ → ℕ → Bytes
cmd_text name len param_count =
    if param_count == 0
    then cmd_header ∷ take len name ++ crlf
    else cmd_header ∷ take len name ++ b' ' ∷ print_nat param_count ++ crlf

unfoldable pub str_text : Bytes → ℕ → Bytes
str_text text len = str_header ∷ take len text ++ crlf

unfoldable pub kv_text : Bytes → ℕ → Bytes → ℕ → Bytes
kv_text key key_len value value_len =
    kv_header ∷ take key_len key ++ kv_sept ∷ take value_len value ++ crlf

unfoldable pub msg_gen_cmd : Bytes → ℕ → ℕ → State Cmd
msg_gen_cmd name len param_count = do
  row ← sprintf (len + 10) (cmd_text name len param_count)
  addr ← get_cmd
  str ← get_str (drop 1 row) len
  pure (record { addr = addr; name = str; param_count = param_count; row = row })

unfoldable pub msg_gen_param_str : Bytes → ℕ → State Param
msg_gen_param_str text len = do
  row ← sprintf (len + 4) (str_text text len)
  addr ← get_param
  str ← get_str (drop 1 row) len
  pure (record { addr = addr; value = string str; row = row })

unfoldable pub msg_gen_param_kv : Bytes → ℕ → Bytes → ℕ → State Param
msg_gen_param_kv key key_len value value_len = do
  row ← sprintf (key_len + value_len + 5) (kv_text key key_len value value_len)
  addr ← get_param
  kv ← get_kv
  k ← get_str (drop 1 row) key_len
  v ← get_str (drop (1 + key_len + 1) row) value_len
  pure (record { addr = addr; value = key_value kv k v; row = row })
