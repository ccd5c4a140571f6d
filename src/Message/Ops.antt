-- ===== src/Message/Ops.antt =====
-- Messages, and the operations that take a row that was read: `msg_init`, `msg_clean`, `msg_free`,
-- `msg_init_cmd`, `msg_set_cmd`, `msg_init_param_str`, `msg_init_param_kv`, `msg_add_param`.
use ketamarouter.Base.{
  ℕ, ◌+◌, ◌%◌, Option, none, some, List, [], ◌∷◌, ◌++◌, leb, ◌==◌, if◌then◌else◌, Bytes, u16,
}
use ketamarouter.Str.{Str}
use ketamarouter.Message.Buf.{
  State, pure, ◌>>=◌, ◌>>◌, get_msg, back_msg, get_cmd, back_cmd, get_param, back_param, get_kv,
  back_kv, get_str, back_str, free_row, null_read,
}

-- `cmd_t`. Both of its makers set `name`, so it is not NULL. `row` is `data`, the block that holds
-- the text of `name`.
pub record Cmd : Type 0 where
  pub addr : ℕ
  pub name : Str
  pub param_count : ℕ
  pub row : Bytes

-- `param_type`, with the member that it makes valid: `str`, or `kv` with its own address.
pub data Value : Type 0 where
  string : Str → Value
  key_value : ℕ → Str → Str → Value

pub record Param : Type 0 where
  pub addr : ℕ
  pub value : Value
  pub row : Bytes

-- MSG_STAT_NONE, MSG_STAT_DATA_MORE and MSG_STAT_DONE.
pub data MsgStat : Type 0 where
  idle data_more done : MsgStat

-- `params` is the list from `param_first` to `param_last`.
pub record Msg : Type 0 where
  pub addr : ℕ
  pub cmd : Option Cmd
  pub param_count : ℕ
  pub params : List Param
  pub stat : MsgStat

abbrev pub empty_msg : ℕ → Msg
empty_msg addr = record { addr = addr; cmd = none; param_count = 0; params = []; stat = idle }

unfoldable pub msg_init : State Msg
msg_init = do addr ← get_msg; pure (empty_msg addr)

-- What one round of the loop of `msg_clean` gives back.
unfoldable pub free_value : Value → State (Unit {0})
free_value (string s) = back_str s
free_value (key_value addr key value) = do back_str key; back_str value; back_kv addr

unfoldable pub free_params : List Param → State (Unit {0})
free_params [] = pure tt
free_params (p ∷ params) = do free_value p.value; free_row; back_param p.addr; free_params params

unfoldable pub free_cmd : Option Cmd → State (Unit {0})
free_cmd none = pure tt
free_cmd (some c) = do back_str c.name; free_row; back_cmd c.addr

-- The parameters are freed where there is one.
unfoldable pub msg_clean_params : Msg → State (Unit {0})
msg_clean_params m = if m.param_count == 0 then pure tt else free_params m.params

unfoldable pub msg_clean : Msg → State Msg
msg_clean m = do msg_clean_params m; free_cmd m.cmd; pure (empty_msg m.addr)

unfoldable pub msg_put_paramlist : Msg → Param → Msg
msg_put_paramlist m p = record m {
  params = m.params ++ p ∷ [];
  param_count = (m.param_count + 1) % u16;
}

unfoldable pub msg_init_cmd : Bytes → ℕ → ℕ → Bytes → State Cmd
msg_init_cmd name len param_count row = do
  addr ← get_cmd
  str ← get_str name len
  pure (record { addr = addr; name = str; param_count = param_count; row = row })

unfoldable pub msg_set_cmd : Msg → Cmd → Msg
msg_set_cmd m c = record m { cmd = some c; stat = if c.param_count == 0 then done else data_more }

unfoldable pub msg_init_param_str : Bytes → ℕ → Bytes → State Param
msg_init_param_str text len row = do
  addr ← get_param
  str ← get_str text len
  pure (record { addr = addr; value = string str; row = row })

unfoldable pub msg_init_param_kv : Bytes → ℕ → Bytes → ℕ → Bytes → State Param
msg_init_param_kv key key_len value value_len row = do
  addr ← get_param
  kv ← get_kv
  k ← get_str key key_len
  v ← get_str value value_len
  pure (record { addr = addr; value = key_value kv k v; row = row })

-- `msg->cmd->param_count` is read through `msg->cmd`.
unfoldable pub msg_add_param : Msg → Param → State Msg
unfolding msg_put_paramlist
msg_add_param m p =
    let put = msg_put_paramlist m p in
    elim m.cmd [
      | none ↦ do null_read; pure put
      | some c ↦
          pure (record put { stat = if leb c.param_count put.param_count then done else data_more })
    ]

unfoldable pub msg_get_param_count : Msg → ℕ
msg_get_param_count m = m.param_count

unfoldable pub msg_get_stat : Msg → MsgStat
msg_get_stat m = m.stat

-- `msg_free`, of a pointer that may be NULL.
unfoldable pub msg_free : Option Msg → State (Unit {0})
msg_free none = pure tt
msg_free (some m) = do m' ← msg_clean m; back_msg m'.addr
