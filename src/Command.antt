-- ===== src/Command.antt =====
-- src/command.h, src/command.c, src/command_func.h and src/command_func.c: the list of commands, and
-- what GET and PING do. The list is a hash table of glib, a parameter.
pub mod Table
pub mod Tests
use ketamarouter.Base.{
  ℕ, ◌≡◌, Bool, true, false, Option, none, some, List, [], ◌∷◌, ◌==◌, if◌then◌else◌, Bytes, codes,
  length, take,
}
use ketamarouter.Ketama.State.{Ketama}
use ketamarouter.Ketama.Servers.{get_server_num, get_server_address}
use ketamarouter.Ketama.Lookup.{get_server_ordinal}
use ketamarouter.Pabuf.{null}
use ketamarouter.Str.{Str, borrowed, allocated, str_at, str_equal}
use ketamarouter.Str.Equal.{text_of}
use ketamarouter.Message.Buf.{State, pure, ◌>>=◌, ◌>>◌, null_read}
use ketamarouter.Message.Ops.{Cmd, Value, Param, string, key_value, Msg}
use ketamarouter.Response.{Rows, RespRes, resp_node, resp_pong, resp_error_unknown_command}
use ketamarouter.Session.{Session, Env, Command, Func, get_func, ping_func, on_worker, on_server}

-- `cmd_func_ret`.
pub data CmdRet : Type 0 where
  func_done func_unknown func_err_param_type func_zero_nodes func_err_unknown : CmdRet

-- From the look into the ring on, for a key. An ordinal or an address that is undefined stands for a
-- read outside the arrays.
unfoldable pub route_get : Env → Ketama → Str → Session → CmdRet × Session
route_get env k key s = elim (get_server_ordinal env.digest k (text_of key)) [
  | none ↦ (func_done, (on_worker null_read s).1)
  | some ordinal ↦ elim (get_server_address k ordinal) [
    | none ↦ (func_done, (on_worker null_read s).1)
    | some server_addr ↦
        let r = on_worker (resp_node env.write_ok server_addr s.out) s in
        (func_done, record r.1 { out = r.0.1 })
  ]
]

unfoldable pub get_nodes : Env → Str → Session → CmdRet × Session
unfolding route_get
get_nodes env key s = elim env.ketama [
  | none ↦ (func_zero_nodes, s)
  | some k ↦ if get_server_num (some k) == 0 then (func_zero_nodes, s) else route_get env k key s
]

unfoldable pub get_value : Env → Value → Session → CmdRet × Session
unfolding get_nodes
get_value env (string key) s = get_nodes env key s
get_value env (key_value addr key value) s = (func_err_param_type, s)

-- `command_GET`. With no parameter it reads `param->type` through NULL.
unfoldable pub command_get : Env → List Param → Session → CmdRet × Session
unfolding get_value
command_get env [] s = (func_err_param_type, (on_worker null_read s).1)
command_get env (p ∷ params) s = get_value env p.value s

unfoldable pub command_ping : Env → Session → CmdRet × Session
command_ping env s =
    let r = on_worker (resp_pong env.write_ok s.out) s in (func_done, record r.1 { out = r.0.1 })

unfoldable pub call : Func → Env → List Param → Session → CmdRet × Session
unfolding command_get command_ping
call get_func env params s = command_get env params s
call ping_func env params s = command_ping env s

-- An unknown command is answered with objects of the server's pools.
unfoldable pub unknown : Env → Session → CmdRet × Session
unknown env s =
    let r = on_server (resp_error_unknown_command env.write_ok s.out) s in
    (func_unknown, record r.1 { out = r.0.1 })

-- `command_list_getl` makes a key of the name, and frees it before it returns.
unfoldable pub command_list_getl : (Str → Option Command) → Bytes → ℕ → Option Command
command_list_getl find name len = find (str_at null borrowed name len)

-- `command_proc`, on a message with the command `c`.
unfoldable pub command_proc : Env → Cmd → List Param → Session → CmdRet × Session
unfolding call unknown command_list_getl
command_proc env c params s = elim (command_list_getl env.find c.name.text c.name.len) [
  | none ↦ unknown env s
  | some cmd ↦ call cmd.func env params s
]
