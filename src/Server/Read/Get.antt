-- ===== src/Server/Read/Get.antt =====
-- A GET request from its two lines to the answer.
use ketamarouter.Base.{
  ℕ, ◌<◌, ◌≡◌, ◌==◌, refl, ap, false, some, [], ◌∷◌, Bytes, arith, length, codes, take-length,
}
use ketamarouter.Base.Int.{ℤ}
use ketamarouter.Str.{Str, bstr_init, init_in}
use ketamarouter.Str.Equal.{text_of}
use ketamarouter.Message.Buf.{MsgBuf}
use ketamarouter.Message.Ops.{
  Msg, Cmd, Param, string, data_more, done, msg_get_stat, empty_msg, msg_init_cmd, msg_set_cmd,
  msg_init_param_str, msg_add_param, msg_put_paramlist,
}
use ketamarouter.Base.Decimal.{atoi}
use ketamarouter.Ketama.State.{Ketama}
use ketamarouter.Ketama.Servers.{get_server_num, get_server_address}
use ketamarouter.Ketama.Lookup.{get_server_ordinal}
use ketamarouter.Response.{write_rows}
use ketamarouter.Response.Rows.{node_rows, resp_node-rows}
use ketamarouter.Response.Faults.{resp_node-fault}
use ketamarouter.Session.{faults, Session, Env, Command, get_func, on_worker}
use ketamarouter.Command.{
  func_done, command_proc, call, command_get, get_value, get_nodes, route_get, command_list_getl,
}
use ketamarouter.Server.Read.{readln, answer_format, execute, handle_line}
use ketamarouter.Decoder.{
  ok, decoder_run, decoder_at, decoder_command, command_body, command_count, decoder_param,
  param_str_body, strchr,
}

-- The two lines of a request for a key.
abbrev pub get_line : Bytes
get_line = codes "+GET 1"

abbrev pub key_line : Bytes → Bytes
key_line key = b'$' ∷ key

-- The message between the two lines, and after both.
abbrev pub waiting : ℕ → Cmd → Msg
waiting addr c = record {
  addr = addr;
  cmd = some c;
  param_count = 0;
  params = [];
  stat = data_more;
}

abbrev pub asked : ℕ → Cmd → Param → Msg
asked addr c p = record { addr = addr; cmd = some c; param_count = 1; params = p ∷ []; stat = done }

pub get_line-decoded :
    (addr : ℕ) (b : MsgBuf)
    → (c : Cmd) × (c.name.text ≡ codes "GET 1")
      × (c.name.len ≡ 3)
      × (c.param_count ≡ 1)
      × ((decoder_run (empty_msg addr) get_line b).0 ≡ (ok, waiting addr c))
unfolding decoder_run decoder_at decoder_command command_body command_count strchr msg_get_stat
    msg_init_cmd msg_set_cmd bstr_init init_in atoi
get_line-decoded addr b = ((msg_init_cmd (codes "GET 1") 3 1 get_line b).0, refl, refl, refl, refl)

pub key_line-decoded :
    (addr : ℕ) (c : Cmd) (key : Bytes) (b : MsgBuf)
    → c.param_count ≡ 1
    → (p : Param) × (str : Str) × (p.value ≡ string str)
      × (text_of str ≡ key)
      × ((decoder_run (waiting addr c) (key_line key) b).0 ≡ (ok, asked addr c p))
unfolding decoder_run decoder_at decoder_param param_str_body msg_get_stat msg_init_param_str
    msg_add_param msg_put_paramlist bstr_init init_in
key_line-decoded addr c key b e =
    let p = (msg_init_param_str key (length key) (key_line key) b).0 in
    let str = (bstr_init b.str key (length key)).0 in (p, str, refl, take-length key, rw e refl)

-- The session, once a line is decoded.
abbrev pub decoded : Msg → Bytes → Session → Session
decoded m line s = record (readln s) { worker_buf = (decoder_run m line (readln s).worker_buf).1 }

pub handle_line-decoded :
    (env : Env) (m : Msg) (line : Bytes) (s : Session) (m' : Msg)
    → (decoder_run m line (readln s).worker_buf).0 ≡ (ok, m')
    → handle_line env m line s ≡ execute env m'.stat m' (decoded m line s)
unfolding handle_line answer_format on_worker msg_get_stat
handle_line-decoded env m line s m' e =
    ap (λ x. let a = answer_format env x.0 x.1 (decoded m line s) in execute env a.0.stat a.0 a.1) e

module _ (env : Env) (k : Ketama) (command : Command) (ordinal : ℤ) (addr : Bytes) (key : Bytes)
    (ring : env.ketama ≡ some k) (some_server : 0 < k.numservers)
    (owner : get_server_ordinal env.digest k key ≡ some ordinal)
    (registered : get_server_address k ordinal ≡ some addr)
    (found : command_list_getl env.find (codes "GET 1") 3 ≡ some command)
    (is_get : command.func ≡ get_func) where
  get_nodes-out :
      (str : Str) (s : Session)
      → text_of str ≡ key
      → ((get_nodes env str s).0 ≡ func_done)
        × ((get_nodes env str s).1.out ≡ (write_rows env.write_ok (node_rows addr) s.out).1)
        × (faults (get_nodes env str s).1 ≡ faults s)
  unfolding get_nodes route_get get_server_num on_worker
  get_nodes-out str s e =
      let nz : k.numservers == 0 ≡ false = ground arith in
      rw (ring, get_nodes, nz, e, owner, route_get, registered)
        (
          refl,
          ap (λ r. r.1) (resp_node-rows env.write_ok addr s.out s.worker_buf),
          ap (λ f. (f, s.server_buf.fault)) (resp_node-fault env.write_ok addr s.out s.worker_buf),
        )

  pub command_proc-out :
      (c : Cmd) (p : Param) (str : Str) (s : Session)
      → c.name.text ≡ codes "GET 1"
      → c.name.len ≡ 3
      → p.value ≡ string str
      → text_of str ≡ key
      → ((command_proc env c (p ∷ []) s).0 ≡ func_done)
        × ((command_proc env c (p ∷ []) s).1.out
            ≡ (write_rows env.write_ok (node_rows addr) s.out).1)
        × (faults (command_proc env c (p ∷ []) s).1 ≡ faults s)
  unfolding command_proc call command_get get_value
  command_proc-out c p str s text len v e =
      rw (text, len, found, command_proc, is_get, call, v) (get_nodes-out str s e)
