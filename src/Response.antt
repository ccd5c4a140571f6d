-- ===== src/Response.antt =====
-- src/response.h, src/response.c and src/error_str.h: the answers. A socket is told by the rows that
-- `write` took, and `write_ok` says for the rows written so far and the next one whether `write` of
-- it succeeds. How much of a row `write` takes is not looked at by the code.
pub mod Keeps
pub mod Rows
pub mod Faults
pub mod Tests
use ketamarouter.Base.{
  ℕ, ◌≡◌, Bool, Option, none, some, List, [], ◌∷◌, ◌++◌, map, if◌then◌else◌, Bytes, codes, length,
}
use ketamarouter.Message.Buf.{State, pure, ◌>>=◌, ◌>>◌, null_read}
use ketamarouter.Message.Ops.{
  Cmd, Param, Msg, MsgStat, idle, data_more, done, msg_init, msg_set_cmd, msg_add_param, msg_free,
}
use ketamarouter.Message.Gen.{msg_gen_cmd, msg_gen_param_str}

-- RESP_RES_OK, RESP_RES_SOCK_ERR and RESP_RES_MSG_ERR.
pub data RespRes : Type 0 where
  resp_ok sock_err msg_err : RespRes

abbrev pub Rows : Type 0
Rows = List Bytes

unfoldable pub write_rows : (Rows → Bytes → Bool) → Rows → Rows → RespRes × Rows
write_rows write_ok [] out = (resp_ok, out)
write_rows write_ok (row ∷ rows) out =
    let rest = write_rows write_ok rows (out ++ row ∷ []) in
    if write_ok out row then rest else (sock_err, out)

abbrev pub param_rows : List Param → Rows
param_rows = map (λ p. p.row)

-- The row of the command goes first.
unfoldable pub write_msg :
    (Rows → Bytes → Bool) → Option Cmd → List Param → Rows → State (RespRes × Rows)
unfolding write_rows
write_msg write_ok none params out = do null_read; pure (msg_err, out)
write_msg write_ok (some c) params out = pure (write_rows write_ok (c.row ∷ param_rows params) out)

unfoldable pub send_at :
    (Rows → Bytes → Bool) → MsgStat → Option Cmd → List Param → Rows → State (RespRes × Rows)
unfolding write_msg
send_at write_ok idle cmd params out = pure (msg_err, out)
send_at write_ok data_more cmd params out = pure (msg_err, out)
send_at write_ok done cmd params out = write_msg write_ok cmd params out

-- Only a message that is done is sent.
unfoldable pub resp_msg : (Rows → Bytes → Bool) → Msg → Rows → State (RespRes × Rows)
unfolding send_at
resp_msg write_ok m out = send_at write_ok m.stat m.cmd m.params out

-- COMMAND_STR_ERR, COMMAND_STR_NODE and COMMAND_STR_PONG.
abbrev pub str_err : Bytes
str_err = codes "ERROR"

abbrev pub str_node : Bytes
str_node = codes "NODE"

abbrev pub str_pong : Bytes
str_pong = codes "PONG"

-- The three messages that are sent.
unfoldable pub error_msg : Bytes → Bytes → State Msg
error_msg errno error = do
  msg ← msg_init
  cmd ← msg_gen_cmd str_err (length str_err) 2
  no_param ← msg_gen_param_str errno (length errno)
  msg' ← msg_add_param (msg_set_cmd msg cmd) no_param
  text_param ← msg_gen_param_str error (length error)
  msg_add_param msg' text_param

unfoldable pub node_msg : Bytes → State Msg
node_msg node = do
  msg ← msg_init
  cmd ← msg_gen_cmd str_node (length str_node) 1
  param ← msg_gen_param_str node (length node)
  msg_add_param (msg_set_cmd msg cmd) param

unfoldable pub pong_msg : State Msg
pong_msg = do
  msg ← msg_init
  cmd ← msg_gen_cmd str_pong (length str_pong) 0
  pure (msg_set_cmd msg cmd)

-- `resp_msg` and `msg_free`, with which each of them ends.
unfoldable pub send_and_free : (Rows → Bytes → Bool) → Rows → Msg → State (RespRes × Rows)
unfolding resp_msg
send_and_free write_ok out msg = do res ← resp_msg write_ok msg out; msg_free (some msg); pure res

unfoldable pub resp_error : (Rows → Bytes → Bool) → Bytes → Bytes → Rows → State (RespRes × Rows)
unfolding error_msg send_and_free
resp_error write_ok errno error out = do msg ← error_msg errno error; send_and_free write_ok out msg

unfoldable pub resp_node : (Rows → Bytes → Bool) → Bytes → Rows → State (RespRes × Rows)
unfolding node_msg send_and_free
resp_node write_ok node out = do msg ← node_msg node; send_and_free write_ok out msg

unfoldable pub resp_pong : (Rows → Bytes → Bool) → Rows → State (RespRes × Rows)
unfolding pong_msg send_and_free
resp_pong write_ok out = do msg ← pong_msg; send_and_free write_ok out msg

unfoldable pub resp_error_unknown_command : (Rows → Bytes → Bool) → Rows → State (RespRes × Rows)
unfolding resp_error
resp_error_unknown_command write_ok = resp_error write_ok (codes "99") (codes "Unknown command.")

unfoldable pub resp_error_wrong_msg_format : (Rows → Bytes → Bool) → Rows → State (RespRes × Rows)
unfolding resp_error
resp_error_wrong_msg_format write_ok =
    resp_error write_ok (codes "1001") (codes "Wrong message format.")

unfoldable pub resp_error_param_format : (Rows → Bytes → Bool) → Rows → State (RespRes × Rows)
unfolding resp_error
resp_error_param_format write_ok =
    resp_error write_ok (codes "1002") (codes "Wrong parameter format.")

unfoldable pub resp_error_max_connection : (Rows → Bytes → Bool) → Rows → State (RespRes × Rows)
unfolding resp_error
resp_error_max_connection write_ok =
    resp_error write_ok (codes "2001") (codes "Reached connections to maximum.")
