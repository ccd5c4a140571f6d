-- ===== src/Server/Read/Keeps/Call.antt =====
-- What a command does to the pools of the worker and of the server.
use ketamarouter.Base.{
  ◌≡◌, ◌==◌, refl, Option, none, some, List, [], ◌∷◌, Option-cases, Bool-cases, inl, inr, codes,
}
use ketamarouter.Ketama.State.{Ketama}
use ketamarouter.Ketama.Servers.{get_server_num, get_server_address}
use ketamarouter.Ketama.Lookup.{get_server_ordinal}
use ketamarouter.Str.{Str}
use ketamarouter.Str.Equal.{text_of}
use ketamarouter.Message.Buf.{MsgBuf, null_read}
use ketamarouter.Message.Ops.{Cmd, Value, Param, string, key_value}
use ketamarouter.Message.Keeps.Uses.{Uses, BufOwns}
use ketamarouter.Response.{resp_error_unknown_command}
use ketamarouter.Response.Keeps.{resp_error-balanced, resp_node-balanced, resp_pong-balanced}
use ketamarouter.Session.{Session, Env, Func, get_func, ping_func, errors, on_worker, on_server}
use ketamarouter.Command.{
  command_proc, call, command_get, command_ping, get_value, get_nodes, route_get, unknown,
  command_list_getl,
}
use ketamarouter.Server.Read.{count_failed, is_done, run_command}

-- Both pools have the same objects out as before, and the same errors are counted.
abbrev pub Leaves : Uses → Uses → Session → Session → Type 0
Leaves u v s r = BufOwns r.worker_buf u × BufOwns r.server_buf v × (errors r ≡ errors s)

null_read-BufOwns : (b : MsgBuf) (u : Uses) → BufOwns b u → BufOwns (null_read b).1 u
null_read-BufOwns b u o = record {
  msgs = o.msgs;
  cmds = o.cmds;
  strs = o.strs;
  params = o.params;
  kvs = o.kvs;
  blocks = o.blocks;
}

module _ (env : Env) (u v : Uses) (s : Session) (o : BufOwns s.worker_buf u)
    (p : BufOwns s.server_buf v) where
  route_get-Leaves : (k : Ketama) (key : Str) → Leaves u v s (route_get env k key s).1
  unfolding route_get on_worker
  route_get-Leaves k key = elim (Option-cases (get_server_ordinal env.digest k (text_of key))) [
    | inl n ↦ rw (n, route_get) (null_read-BufOwns s.worker_buf u o, p, refl)
    | inr (ordinal, e) ↦ elim (Option-cases (get_server_address k ordinal)) [
      | inl n ↦ rw (e, route_get, n) (null_read-BufOwns s.worker_buf u o, p, refl)
      | inr (addr, f) ↦
          rw (e, route_get, f)
            ((resp_node-balanced env.write_ok addr s.out s.worker_buf u o).0, p, refl)
    ]
  ]

  get_nodes-Leaves : (key : Str) → Leaves u v s (get_nodes env key s).1
  unfolding get_nodes
  get_nodes-Leaves key = elim (Option-cases env.ketama) [
    | inl n ↦ rw (n, get_nodes) (o, p, refl)
    | inr (k, e) ↦ elim (Bool-cases (get_server_num (some k) == 0)) [
      | inl z ↦ rw (e, get_nodes, z) (o, p, refl)
      | inr nz ↦ rw (e, get_nodes, nz) (route_get-Leaves k key)
    ]
  ]

  get_value-Leaves : (value : Value) → Leaves u v s (get_value env value s).1
  unfolding get_value
  get_value-Leaves (string key) = get_nodes-Leaves key
  get_value-Leaves (key_value addr key value) = (o, p, refl)

  call-Leaves : (f : Func) (params : List Param) → Leaves u v s (call f env params s).1
  unfolding call command_get command_ping on_worker
  call-Leaves get_func [] = (null_read-BufOwns s.worker_buf u o, p, refl)
  call-Leaves get_func (q ∷ params) = get_value-Leaves q.value
  call-Leaves ping_func params =
      ((resp_pong-balanced env.write_ok s.out s.worker_buf u o).0, p, refl)

  unknown-Leaves : Leaves u v s (unknown env s).1
  unfolding unknown on_server resp_error_unknown_command
  unknown-Leaves = (
    o,
    (resp_error-balanced env.write_ok (codes "99") (codes "Unknown command.") s.out s.server_buf v
        p).0,
    refl,
  )

  command_proc-Leaves :
      (c : Cmd) (params : List Param) → Leaves u v s (command_proc env c params s).1
  unfolding command_proc
  command_proc-Leaves c params =
      elim (Option-cases (command_list_getl env.find c.name.text c.name.len)) [
        | inl n ↦ rw (n, command_proc) unknown-Leaves
        | inr (cmd, e) ↦ rw (e, command_proc) (call-Leaves cmd.func params)
      ]

  pub run_command-Leaves :
      (c : Option Cmd) (params : List Param) → Leaves u v s (run_command env c params s)
  unfolding run_command count_failed on_worker
  run_command-Leaves none params = (null_read-BufOwns s.worker_buf u o, p, refl)
  run_command-Leaves (some c) params =
      let k = command_proc-Leaves c params in
      elim (Bool-cases (is_done (command_proc env c params s).0)) [
        | inl d ↦ rw (d, run_command) k
        | inr f ↦ rw (f, run_command) k
      ]
