-- ===== src/Response/Faults.antt =====
-- The answers write past no block and read nothing through NULL, whatever the pools have out.
use ketamarouter.Base.{◌≡◌, ◌∙◌, Bool, Bytes, length, arith}
use ketamarouter.Message.Buf.{MsgBuf}
use ketamarouter.Message.Ops.{msg_init, msg_set_cmd, msg_add_param, msg_put_paramlist}
use ketamarouter.Message.Gen.{msg_gen_cmd, msg_gen_param_str}
use ketamarouter.Message.Keeps.Free.{msg_free-fault}
use ketamarouter.Message.Keeps.Gen.{msg_gen_cmd-fault, msg_gen_param_str-fault}
use ketamarouter.Response.{
  Rows, resp_msg, send_at, write_msg, error_msg, node_msg, pong_msg, send_and_free, resp_error,
  resp_node, resp_pong, str_err, str_node, str_pong,
}

error_msg-fault : (errno error : Bytes) (b : MsgBuf) → (error_msg errno error b).1.fault ≡ b.fault
unfolding error_msg msg_init msg_set_cmd msg_add_param msg_put_paramlist msg_gen_cmd
    msg_gen_param_str
error_msg-fault errno error b =
    let i = msg_init b in
    let c = msg_gen_cmd str_err (length str_err) 2 i.1 in
    let p = msg_gen_param_str errno (length errno) c.1 in
    msg_gen_param_str-fault error (length error) p.1
    ∙ msg_gen_param_str-fault errno (length errno) c.1
    ∙ msg_gen_cmd-fault str_err (length str_err) 2 i.1 (omega arith)

node_msg-fault : (node : Bytes) (b : MsgBuf) → (node_msg node b).1.fault ≡ b.fault
unfolding node_msg msg_init msg_set_cmd msg_add_param msg_put_paramlist msg_gen_cmd
    msg_gen_param_str
node_msg-fault node b =
    let i = msg_init b in
    let c = msg_gen_cmd str_node (length str_node) 1 i.1 in
    msg_gen_param_str-fault node (length node) c.1
    ∙ msg_gen_cmd-fault str_node (length str_node) 1 i.1 (omega arith)

module _ (write_ok : Rows → Bytes → Bool) where
  pub resp_error-fault :
      (errno error : Bytes) (out : Rows) (b : MsgBuf)
      → (resp_error write_ok errno error out b).1.fault ≡ b.fault
  unfolding resp_error send_and_free resp_msg send_at write_msg error_msg msg_init msg_set_cmd
      msg_add_param msg_put_paramlist msg_gen_cmd msg_gen_param_str
  resp_error-fault errno error out b =
      let m = error_msg errno error b in msg_free-fault m.0 m.1 ∙ error_msg-fault errno error b

  pub resp_node-fault :
      (node : Bytes) (out : Rows) (b : MsgBuf) → (resp_node write_ok node out b).1.fault ≡ b.fault
  unfolding resp_node send_and_free resp_msg send_at write_msg node_msg msg_init msg_set_cmd
      msg_add_param msg_put_paramlist msg_gen_cmd msg_gen_param_str
  resp_node-fault node out b =
      let m = node_msg node b in msg_free-fault m.0 m.1 ∙ node_msg-fault node b

  pub resp_pong-fault : (out : Rows) (b : MsgBuf) → (resp_pong write_ok out b).1.fault ≡ b.fault
  unfolding resp_pong send_and_free resp_msg send_at write_msg pong_msg msg_init msg_set_cmd
      msg_gen_cmd
  resp_pong-fault out b =
      let m = pong_msg b in
      msg_free-fault m.0 m.1
      ∙ msg_gen_cmd-fault str_pong (length str_pong) 0 (msg_init b).1 (omega arith)
