-- ===== src/Server/Read/Counts.antt =====
-- The counts of requests that a worker keeps.
use ketamarouter.Base.{
  ◌+◌, ◌%◌, ◌≡◌, refl, sym, ap, subst, ℕ, Option, none, some, List, [], ◌∷◌, ◌==◌, Bool-cases,
  Option-cases, inl, inr, Bytes, u64, arith,
}
use ketamarouter.Ketama.State.{Ketama}
use ketamarouter.Ketama.Servers.{get_server_num, get_server_address}
use ketamarouter.Ketama.Lookup.{get_server_ordinal}
use ketamarouter.Str.{Str}
use ketamarouter.Str.Equal.{text_of}
use ketamarouter.Message.Ops.{
  Msg, MsgStat, Cmd, Param, Value, string, key_value, idle, data_more, done, msg_get_stat,
}
use ketamarouter.Decoder.{DecodeResult, ok, err_format, err_param_format, decoder_run}
use ketamarouter.Session.{
  Session, Env, Requests, Func, get_func, ping_func, increase_req_ok, increase_req_err, on_worker,
  on_server,
}
use ketamarouter.Command.{
  route_get, get_nodes, get_value, command_get, command_ping, call, unknown, command_list_getl,
  command_proc,
}
use ketamarouter.Server.Read.{
  readln, count_err, count_ok, count_failed, is_done, answer_format, run_command, execute,
  handle_line, read_lines, first_msg, client_event_read,
}

-- Each request is counted once, as one that is in order or as an error.
abbrev pub Balanced : Requests → Type 0
Balanced r = r.req_all ≡ (r.req_ok + r.req_err) % u64

-- The counters that a read event changes.
abbrev pub counts : Session → Requests × Requests × ℕ
counts s = (s.client_req, s.worker_req, s.server_req_ok)

module _ (env : Env) (s : Session) where
  route_get-counts : (k : Ketama) (key : Str) → counts (route_get env k key s).1 ≡ counts s
  unfolding route_get on_worker
  route_get-counts k key = elim (Option-cases (get_server_ordinal env.digest k (text_of key))) [
    | inl n ↦ rw (n, route_get) refl
    | inr (ordinal, e) ↦ elim (Option-cases (get_server_address k ordinal)) [
      | inl n ↦ rw (e, route_get, n) refl
      | inr (addr, f) ↦ rw (e, route_get, f) refl
    ]
  ]

  get_nodes-counts : (key : Str) → counts (get_nodes env key s).1 ≡ counts s
  unfolding get_nodes
  get_nodes-counts key = elim (Option-cases env.ketama) [
    | inl n ↦ rw (n, get_nodes) refl
    | inr (k, e) ↦ elim (Bool-cases (get_server_num (some k) == 0)) [
      | inl z ↦ rw (e, get_nodes, z) refl
      | inr nz ↦ rw (e, get_nodes, nz) (route_get-counts k key)
    ]
  ]

  get_value-counts : (v : Value) → counts (get_value env v s).1 ≡ counts s
  unfolding get_value
  get_value-counts (string key) = get_nodes-counts key
  get_value-counts (key_value addr key v) = refl

  call-counts : (f : Func) (params : List Param) → counts (call f env params s).1 ≡ counts s
  unfolding call command_get command_ping get_value on_worker
  call-counts get_func [] = refl
  call-counts get_func (q ∷ params) = get_value-counts q.value
  call-counts ping_func params = refl

  pub command_proc-counts :
      (c : Cmd) (params : List Param) → counts (command_proc env c params s).1 ≡ counts s
  unfolding command_proc unknown on_server
  command_proc-counts c params =
      elim (Option-cases (command_list_getl env.find c.name.text c.name.len)) [
        | inl n ↦ rw (n, command_proc) refl
        | inr (cmd, e) ↦ rw (e, command_proc) (call-counts cmd.func params)
      ]

  run_command-worker_req :
      (c : Option Cmd) (params : List Param)
      → (run_command env c params s).worker_req ≡ s.worker_req
  unfolding run_command count_failed on_worker
  run_command-worker_req none params = refl
  run_command-worker_req (some c) params =
      let k = ap (λ t. t.1) (command_proc-counts c params) in
      elim (Bool-cases (is_done (command_proc env c params s).0)) [
        | inl d ↦ rw (d, run_command) k
        | inr f ↦ rw (f, run_command) k
      ]

ok-Balanced : (r : Requests) → Balanced r → Balanced (increase_req_ok r)
unfolding increase_req_ok
ok-Balanced r h = omega (arith, h)

err-Balanced : (r : Requests) → Balanced r → Balanced (increase_req_err r)
unfolding increase_req_err
err-Balanced r h = omega (arith, h)

module _ (env : Env) where
  answer_format-Balanced :
      (res : DecodeResult) (m : Msg) (s : Session)
      → Balanced s.worker_req
      → Balanced (answer_format env res m s).1.worker_req
  unfolding answer_format count_err on_worker
  answer_format-Balanced ok m s h = h
  answer_format-Balanced err_format m s h = err-Balanced s.worker_req h
  answer_format-Balanced err_param_format m s h = err-Balanced s.worker_req h

  execute-Balanced :
      (stat : MsgStat) (m : Msg) (s : Session)
      → Balanced s.worker_req
      → Balanced (execute env stat m s).1.worker_req
  unfolding execute count_ok on_worker
  execute-Balanced idle m s h = h
  execute-Balanced data_more m s h = h
  execute-Balanced done m s h =
      subst Balanced (sym (run_command-worker_req env (count_ok s) m.cmd m.params))
        (ok-Balanced s.worker_req h)

  read_lines-Balanced :
      (lines : List Bytes) (m : Msg) (s : Session)
      → Balanced s.worker_req
      → Balanced (read_lines env m lines s).1.worker_req
  unfolding read_lines handle_line on_worker
  read_lines-Balanced [] m s h = h
  read_lines-Balanced (line ∷ lines) m s h =
      let d = on_worker (decoder_run m line) (readln s) in
      let a = answer_format env d.0.0 d.0.1 d.1 in
      let r = execute env (msg_get_stat a.0) a.0 a.1 in
      read_lines-Balanced lines r.0 r.1
        (execute-Balanced (msg_get_stat a.0) a.0 a.1 (answer_format-Balanced d.0.0 d.0.1 d.1 h))

  first_msg-Balanced :
      (o : Option Msg) (s : Session) → Balanced s.worker_req → Balanced (first_msg o s).1.worker_req
  unfolding first_msg on_worker
  first_msg-Balanced none s h = h
  first_msg-Balanced (some m) s h = h

  pub client_event_read-Balanced :
      (lines : List Bytes) (s : Session)
      → Balanced s.worker_req
      → Balanced (client_event_read env lines s).worker_req
  unfolding client_event_read
  client_event_read-Balanced lines s h =
      let first = first_msg s.msg s in
      read_lines-Balanced lines first.0 first.1 (first_msg-Balanced s.msg s h)
