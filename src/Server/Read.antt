-- ===== src/Server/Read.antt =====
-- `client_event_read`. `lines` are the lines that `evbuffer_readln` finds in the input, each in a
-- block of its own. What is logged is left out.
pub mod Keeps
pub mod Get
pub mod Route
pub mod Counts
pub mod Excess
pub mod Answers
pub mod Replies
pub mod Requests
pub mod Counted
pub mod Protocol
pub mod Bare
mod Tests
use ketamarouter.Base.{
  ◌+◌, ◌%◌, Bool, true, false, Option, none, some, List, [], ◌∷◌, if◌then◌else◌, Bytes, u64,
}
use ketamarouter.Message.Buf.{null_read}
use ketamarouter.Message.Ops.{
  Msg, MsgStat, Cmd, Param, idle, data_more, done, msg_init, msg_clean, msg_get_stat,
}
use ketamarouter.Decoder.{DecodeResult, ok, err_format, err_param_format, decoder_run}
use ketamarouter.Response.{resp_error_wrong_msg_format, resp_error_param_format}
use ketamarouter.Session.{Session, Env, increase_req_ok, increase_req_err, on_worker}
use ketamarouter.Command.{
  CmdRet, func_done, func_unknown, func_err_param_type, func_zero_nodes, func_err_unknown,
  command_proc,
}

-- The line's block is allocated.
abbrev pub readln : Session → Session
readln s = record s { worker_buf = record s.worker_buf { blocks = s.worker_buf.blocks + 1 } }

unfoldable pub count_err : Session → Session
unfolding increase_req_err
count_err s = record s {
  client_req = increase_req_err s.client_req;
  worker_req = increase_req_err s.worker_req;
}

unfoldable pub count_ok : Session → Session
unfolding increase_req_ok
count_ok s = record s {
  client_req = increase_req_ok s.client_req;
  worker_req = increase_req_ok s.worker_req;
}

-- The first `switch`, on the result of the decoder.
unfoldable pub answer_format : Env → DecodeResult → Msg → Session → Msg × Session
unfolding count_err on_worker
answer_format env ok m s = (m, s)
answer_format env err_format m s =
    let c = on_worker (msg_clean m) (count_err s) in
    let r = on_worker (resp_error_wrong_msg_format env.write_ok c.1.out) c.1 in
    (c.0, record r.1 { out = r.0.1 })
answer_format env err_param_format m s =
    let c = on_worker (msg_clean m) (count_err s) in
    let r = on_worker (resp_error_param_format env.write_ok c.1.out) c.1 in
    (c.0, record r.1 { out = r.0.1 })

abbrev is_done : CmdRet → Bool
is_done func_done = true
is_done func_unknown = false
is_done func_err_param_type = false
is_done func_zero_nodes = false
is_done func_err_unknown = false

-- `c->req_ok++` and `s->req_ok++`.
unfoldable pub count_failed : Session → Session
count_failed s = record s {
  client_req = record s.client_req { req_ok = (s.client_req.req_ok + 1) % u64 };
  server_req_ok = (s.server_req_ok + 1) % u64;
}

-- `msg->cmd->name` is read through `msg->cmd`.
unfoldable pub run_command : Env → Option Cmd → List Param → Session → Session
unfolding count_failed on_worker
run_command env none params s = (on_worker null_read s).1
run_command env (some c) params s =
    let r = command_proc env c params s in if is_done r.0 then r.1 else count_failed r.1

-- The second `switch`, on the state of the message.
unfoldable pub execute : Env → MsgStat → Msg → Session → Msg × Session
unfolding count_ok run_command on_worker
execute env idle m s = (m, s)
execute env data_more m s = (m, s)
execute env done m s = on_worker (msg_clean m) (run_command env m.cmd m.params (count_ok s))

-- One round of the loop.
unfoldable pub handle_line : Env → Msg → Bytes → Session → Msg × Session
unfolding answer_format execute msg_get_stat
handle_line env m line s =
    let d = on_worker (decoder_run m line) (readln s) in
    let a = answer_format env d.0.0 d.0.1 d.1 in execute env (msg_get_stat a.0) a.0 a.1

unfoldable pub read_lines : Env → Msg → List Bytes → Session → Msg × Session
unfolding handle_line
read_lines env m [] s = (m, s)
read_lines env m (line ∷ lines) s = let r = handle_line env m line s in read_lines env r.0 lines r.1

-- The message of the client is made by its first event.
unfoldable pub first_msg : Option Msg → Session → Msg × Session
unfolding on_worker
first_msg none s = on_worker msg_init s
first_msg (some m) s = (m, s)

unfoldable pub client_event_read : Env → List Bytes → Session → Session
unfolding read_lines first_msg
client_event_read env lines s =
    let start = first_msg s.msg s in
    let r = read_lines env start.0 lines start.1 in record r.1 { msg = some r.0 }
