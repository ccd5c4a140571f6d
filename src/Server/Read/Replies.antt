-- ===== src/Server/Read/Replies.antt =====
-- What one request does to the message of the client and to what is written to its socket.
use ketamarouter.Base.{
  ℕ, suc, Bool, true, ◌<◌, ◌≡◌, ◌≢◌, refl, sym, ap, subst, ◌∙◌, none, some, [], ◌∷◌, ◌==◌, false,
  Bytes, codes, length, arith,
}
use ketamarouter.Base.Int.{ℤ}
use ketamarouter.Str.{bstr_init, init_in}
use ketamarouter.Message.Buf.{MsgBuf}
use ketamarouter.Message.Ops.{Msg, Cmd, done, msg_get_stat, empty_msg, msg_init_cmd, msg_set_cmd}
use ketamarouter.Ketama.State.{Ketama}
use ketamarouter.Ketama.Servers.{get_server_address}
use ketamarouter.Ketama.Lookup.{get_server_ordinal}
use ketamarouter.Response.{Rows, resp_error_unknown_command}
use ketamarouter.Response.Rows.{error_rows, resp_error-rows, node_rows, pong_rows, resp_pong-rows}
use ketamarouter.Session.{Session, Env, Command, get_func, ping_func, on_worker, on_server}
use ketamarouter.Command.{command_proc, call, command_ping, unknown, command_list_getl}
use ketamarouter.Decoder.{
  ok, err_format, err_param_format, decoder_run, decoder_at, decoder_command, command_body,
  decoder_param, strchr,
}
use ketamarouter.Server.Read.{readln, count_ok, is_done, execute, handle_line, read_lines}
use ketamarouter.Decoder.Faults.{command-fault, param-fault}
use ketamarouter.Response.Faults.{resp_error-fault, resp_pong-fault}
use ketamarouter.Server.Read.Answers.{
  Kind, decoded-Answers, after_refusal, served, refused, by_end, Answers, handle_line-result,
  wrong_format, wrong_param, Ends, execute_done,
}
use ketamarouter.Server.Read.Get.{
  get_line, key_line, waiting, asked, decoded, handle_line-decoded, get_line-decoded,
  key_line-decoded, command_proc-out,
}

-- A command without parameters, once its line is decoded.
abbrev pub single : ℕ → Cmd → Msg
single addr c = record { addr = addr; cmd = some c; param_count = 0; params = []; stat = done }

command_body-single :
    (addr : ℕ) (row : Bytes) (x : ℕ) (xs : Bytes) (b : MsgBuf)
    → strchr (x ∷ xs) b' ' ≡ none
    → let c = msg_init_cmd (x ∷ xs) (suc (length xs)) 0 row b in
      command_body (empty_msg addr) row (x ∷ xs) b ≡ ((ok, msg_set_cmd (empty_msg addr) c.0), c.1)
unfolding command_body
command_body-single addr row x xs b e = rw (e, command_body) refl

pub single-decoded :
    (addr : ℕ) (x : ℕ) (xs : Bytes) (b : MsgBuf)
    → strchr (x ∷ xs) b' ' ≡ none
    → (c : Cmd) × (c.name.text ≡ x ∷ xs)
      × (c.name.len ≡ suc (length xs))
      × ((decoder_run (empty_msg addr) (b'+' ∷ x ∷ xs) b).0 ≡ (ok, single addr c))
unfolding decoder_run decoder_at decoder_command msg_get_stat msg_init_cmd msg_set_cmd bstr_init
    init_in
single-decoded addr x xs b e =
    let row = b'+' ∷ x ∷ xs in
    let c = msg_init_cmd (x ∷ xs) (suc (length xs)) 0 row b in
    (c.0, refl, refl, ap (λ r. r.0) (command_body-single addr row x xs b e))

module _ (env : Env) where
  -- The answer to a command without parameters.
  pub single-Answers :
      (b : Bool) (a x : ℕ) (xs : Bytes) (rows : Rows) (s : Session)
      → strchr (x ∷ xs) b' ' ≡ none
      → ((c : Cmd) (t : Session)
          → c.name.text ≡ x ∷ xs
          → c.name.len ≡ suc (length xs)
          → Ends env b rows c [] t)
      → Answers env (by_end b) rows s (handle_line env (empty_msg a) (b'+' ∷ x ∷ xs) s)
  unfolding count_ok
  single-Answers b a x xs rows s no_blank proc =
      let (c, text, len, e) = single-decoded a x xs (readln s).worker_buf no_blank in
      let line = b'+' ∷ x ∷ xs in
      let m = single a c in
      let t = decoded (empty_msg a) line s in
      subst (Answers env (by_end b) rows s) (sym (handle_line-decoded env (empty_msg a) line s m e))
        (decoded-Answers env (by_end b) rows (empty_msg a) line s (execute env done m t)
          (command-fault a line (readln s).worker_buf)
          (execute_done env b m c rows t refl (proc c (count_ok t) text len)))

  pub unknown-out :
      (c : Cmd) (s : Session)
      → command_list_getl env.find c.name.text c.name.len ≡ none
      → Ends env false (error_rows (codes "99") (codes "Unknown command.")) c [] s
  unfolding command_proc unknown on_server resp_error_unknown_command
  unknown-out c s n =
      rw (n, command_proc)
        (
          refl,
          ap (λ r. r.1)
              (resp_error-rows env.write_ok (codes "99") (codes "Unknown command.") s.out
                s.server_buf),
          ap (λ f. (s.worker_buf.fault, f))
              (resp_error-fault env.write_ok (codes "99") (codes "Unknown command.") s.out
                s.server_buf),
        )

  pub ping-out :
      (c : Cmd) (s : Session) (command : Command)
      → command_list_getl env.find c.name.text c.name.len ≡ some command
      → command.func ≡ ping_func
      → Ends env true pong_rows c [] s
  unfolding command_proc call command_ping on_worker
  ping-out c s command found is_ping =
      rw (found, command_proc, is_ping, call)
        (
          refl,
          ap (λ r. r.1) (resp_pong-rows env.write_ok s.out s.worker_buf),
          ap (λ f. (f, s.server_buf.fault)) (resp_pong-fault env.write_ok s.out s.worker_buf),
        )

-- The row does not begin with the header of a command, or of a parameter.
abbrev pub NoCommand : Bytes → Type 0
NoCommand [] = Unit
NoCommand (h ∷ rest) = h ≢ b'+'

abbrev pub NoParam : Bytes → Type 0
NoParam [] = Unit
NoParam (h ∷ rest) = (h ≢ b'$') × (h ≢ b'%')

NoCommand-decoded :
    (a : ℕ) (line : Bytes) (b : MsgBuf)
    → NoCommand line
    → (decoder_run (empty_msg a) line b).0 ≡ (err_format, empty_msg a)
unfolding decoder_run decoder_at decoder_command msg_get_stat
NoCommand-decoded a [] b n = refl
NoCommand-decoded a (h ∷ rest) b n =
    let f : (h == b'+') ≡ false = ground arith in
    rw (decoder_run, decoder_at, decoder_command, f) refl

NoParam-decoded :
    (a : ℕ) (c : Cmd) (line : Bytes) (b : MsgBuf)
    → NoParam line
    → (decoder_run (waiting a c) line b).0 ≡ (err_param_format, waiting a c)
unfolding decoder_run decoder_at decoder_param msg_get_stat
NoParam-decoded a c [] b n = refl
NoParam-decoded a c (h ∷ rest) b n =
    let f : (h == b'$') ≡ false = ground arith in
    let g : (h == b'%') ≡ false = ground arith in
    rw (decoder_run, decoder_at, decoder_param, f, g) refl

-- The first line of GET, and one behind it.
two_lines-Answers :
    (env : Env) (kind : Kind) (rows : Rows) (a : ℕ) (c : Cmd) (line : Bytes) (s : Session)
    (r : Msg × Session)
    → Answers env kind rows (decoded (waiting a c) line (decoded (empty_msg a) get_line s)) r
    → Answers env kind rows s r
two_lines-Answers env kind rows a c line s r h =
    let t = decoded (empty_msg a) get_line s in
    let m = waiting a c in
    decoded-Answers env kind rows (empty_msg a) get_line s r
      (command-fault a get_line (readln s).worker_buf)
      (decoded-Answers env kind rows m line t r
        (param-fault m c refl line (readln t).worker_buf refl) h)

module _ (env : Env) where
  pub NoCommand-Answers :
      (a : ℕ) (line : Bytes) (s : Session)
      → NoCommand line
      → Answers env refused
          (error_rows (codes "1001") (codes "Wrong message format."))
          s
          (handle_line env (empty_msg a) line s)
  NoCommand-Answers a line s n =
      let m = empty_msg a in
      subst (Answers env refused (error_rows (codes "1001") (codes "Wrong message format.")) s)
        (sym (
          handle_line-result env m m err_format line s
            (NoCommand-decoded a line (readln s).worker_buf n)))
        (decoded-Answers env refused _ m line s (after_refusal env err_format m (decoded m line s))
          (command-fault a line (readln s).worker_buf) (wrong_format env m (decoded m line s)))

  pub NoParam-Answers :
      (a : ℕ) (line : Bytes) (s : Session)
      → NoParam line
      → Answers env refused
          (error_rows (codes "1002") (codes "Wrong parameter format."))
          s
          (read_lines env (empty_msg a) (get_line ∷ line ∷ []) s)
  unfolding read_lines execute
  NoParam-Answers a line s n =
      let (c, text, len, count, e) = get_line-decoded a (readln s).worker_buf in
      let first = handle_line-decoded env (empty_msg a) get_line s (waiting a c) e in
      let t = decoded (empty_msg a) get_line s in
      let m = waiting a c in
      let second =
        handle_line-result env m m err_param_format line t
          (NoParam-decoded a c line (readln t).worker_buf n) in
      let rows = error_rows (codes "1002") (codes "Wrong parameter format.") in
      subst (Answers env refused rows s)
        (sym (ap (λ r. handle_line env r.0 line r.1) first ∙ second))
        (two_lines-Answers env refused rows a c line s
          (after_refusal env err_param_format m (decoded m line t))
          (wrong_param env m (decoded m line t)))

module _ (env : Env) (k : Ketama) (command : Command) (ordinal : ℤ) (addr : Bytes) (key : Bytes)
    (ring : env.ketama ≡ some k) (some_server : 0 < k.numservers)
    (owner : get_server_ordinal env.digest k key ≡ some ordinal)
    (registered : get_server_address k ordinal ≡ some addr)
    (found : command_list_getl env.find (codes "GET 1") 3 ≡ some command)
    (is_get : command.func ≡ get_func) where
  pub get-Answers :
      (a : ℕ) (s : Session)
      → Answers env served
          (node_rows addr)
          s
          (read_lines env (empty_msg a) (get_line ∷ key_line key ∷ []) s)
  unfolding read_lines execute count_ok
  get-Answers a s =
      let (c, text, len, count, e) = get_line-decoded a (readln s).worker_buf in
      let first = handle_line-decoded env (empty_msg a) get_line s (waiting a c) e in
      let t = decoded (empty_msg a) get_line s in
      let (p, str, v, key_text, e') = key_line-decoded a c key (readln t).worker_buf count in
      let second = handle_line-decoded env (waiting a c) (key_line key) t (asked a c p) e' in
      let u = decoded (waiting a c) (key_line key) t in
      let proc =
        command_proc-out env k command ordinal addr key ring some_server owner registered found
          is_get c p str (count_ok u) text len v key_text in
      subst (Answers env served (node_rows addr) s)
        (sym (ap (λ r. handle_line env r.0 (key_line key) r.1) first ∙ second))
        (two_lines-Answers env served (node_rows addr) a c (key_line key) s
          (execute env done (asked a c p) u)
          (execute_done env true (asked a c p) c (node_rows addr) u refl
            (ap is_done proc.0, proc.1, proc.2)))
