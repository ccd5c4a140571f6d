-- ===== src/Server/Read/Keeps/Line.antt =====
-- What one line does to the pools of the worker and of the server.
use ketamarouter.Base.{ℕ, ◌+◌, ◌%◌, ◌≡◌, ◌≢◌, refl, sym, ◌∙◌, ap, subst, Bytes, u64, arith, codes}
use ketamarouter.Message.Buf.{MsgBuf}
use ketamarouter.Message.Ops.{
  Msg, MsgStat, idle, data_more, done, msg_clean, msg_get_stat, empty_msg,
}
use ketamarouter.Message.Keeps.Uses.{Uses, BufOwns, with_row, uses_msg, IsMsg}
use ketamarouter.Message.Keeps.Free.{msg_clean-BufOwns}
use ketamarouter.Decoder.{DecodeResult, ok, err_format, err_param_format, decoder_run}
use ketamarouter.Decoder.Keeps.{Handles, decoder_run-Handles}
use ketamarouter.Response.{resp_error_wrong_msg_format, resp_error_param_format}
use ketamarouter.Response.Keeps.{resp_error-balanced}
use ketamarouter.Session.{Session, Env, increase_req_ok, increase_req_err, errors, on_worker}
use ketamarouter.Server.Read.{
  readln, count_err, count_ok, answer_format, run_command, execute, handle_line,
}
use ketamarouter.Server.Read.Keeps.Call.{run_command-Leaves}
use ketamarouter.Server.Read.Keeps.Lost.{with_row-uses_msg}

-- The rows that a refused line leaves behind: its own.
abbrev pub lost : DecodeResult → Uses → Uses
lost ok u = u
lost err_format u = with_row u
lost err_param_format u = with_row u

-- Between two lines, with the message `m`; `e` are the errors counted.
abbrev pub Between : Uses → Uses → ℕ × ℕ → Msg × Session → Type 0
Between u v e r =
    IsMsg r.0
    × BufOwns r.1.worker_buf (uses_msg r.0 u)
    × BufOwns r.1.server_buf v
    × (errors r.1 ≡ e)

empty_msg-IsMsg : (addr : ℕ) → IsMsg (empty_msg addr)
empty_msg-IsMsg addr = record {
  counted = refl;
  borrows = tt;
  cmd_borrows = tt;
  agrees = (refl, refl);
}

-- The message is cleaned on the worker's pools.
clean-Between :
    (m : Msg) (s : Session) (u v : Uses)
    → IsMsg m
    → BufOwns s.worker_buf (uses_msg m u)
    → BufOwns s.server_buf v
    → Between u v (errors s) (on_worker (msg_clean m) s)
unfolding on_worker
clean-Between m s u v h o p =
    let c = msg_clean-BufOwns m s.worker_buf u h o in
    (
      rw c.0 (empty_msg-IsMsg m.addr),
      subst (λ m'. BufOwns (msg_clean m s.worker_buf).1 (uses_msg m' u)) (sym c.0) c.1,
      p,
      refl,
    )

-- One more error, where the line is refused.
abbrev pub counted_after : DecodeResult → ℕ × ℕ → ℕ × ℕ
counted_after ok e = e
counted_after err_format e = ((e.0 + 1) % u64, (e.1 + 1) % u64)
counted_after err_param_format e = ((e.0 + 1) % u64, (e.1 + 1) % u64)

module _ (env : Env) (u v : Uses) where
  refused-Between :
      (m m' : Msg) (b : MsgBuf)
      → m' ≡ m
      → BufOwns b (with_row (uses_msg m u))
      → BufOwns b (uses_msg m' (with_row u))
  refused-Between m m' b e o = rw e (subst (BufOwns b) (with_row-uses_msg m u) o)

  answer_format-Between :
      (res : DecodeResult) (m m' : Msg) (s : Session)
      → IsMsg m
      → Handles m u ((res, m'), s.worker_buf)
      → BufOwns s.server_buf v
      → Between (lost res u) v (counted_after res (errors s)) (answer_format env res m' s)
  unfolding answer_format count_err increase_req_err on_worker resp_error_wrong_msg_format
      resp_error_param_format
  answer_format-Between ok m m' s h d p = (d.0, d.1, p, refl)
  answer_format-Between err_format m m' s h d p =
      let o = refused-Between m m' s.worker_buf d.0 d.1 in
      let k : IsMsg m' = rw d.0 h in
      let c = clean-Between m' (count_err s) (with_row u) v k o p in
      let b = (msg_clean m' s.worker_buf).1 in
      let w = uses_msg (msg_clean m' s.worker_buf).0 (with_row u) in
      let r =
        resp_error-balanced env.write_ok (codes "1001") (codes "Wrong message format.") s.out b w
          c.1 in
      (c.0, r.0, p, refl)
  answer_format-Between err_param_format m m' s h d p =
      let o = refused-Between m m' s.worker_buf d.0 d.1 in
      let k : IsMsg m' = rw d.0 h in
      let c = clean-Between m' (count_err s) (with_row u) v k o p in
      let b = (msg_clean m' s.worker_buf).1 in
      let w = uses_msg (msg_clean m' s.worker_buf).0 (with_row u) in
      let r =
        resp_error-balanced env.write_ok (codes "1002") (codes "Wrong parameter format.") s.out b w
          c.1 in
      (c.0, r.0, p, refl)

  execute-Between :
      (stat : MsgStat) (m : Msg) (s : Session)
      → m.stat ≡ stat
      → Between u v (errors s) (m, s)
      → Between u v (errors s) (execute env stat m s) × ((execute env stat m s).0.stat ≢ done)
  unfolding execute count_ok increase_req_ok
  execute-Between idle m s e h = (h, λ q. let g : idle ≡ done = sym e ∙ q in absurd cc)
  execute-Between data_more m s e h = (h, λ q. let g : data_more ≡ done = sym e ∙ q in absurd cc)
  execute-Between done m s e h =
      let r = run_command-Leaves env (uses_msg m u) v (count_ok s) h.1 h.2 m.cmd m.params in
      let t = run_command env m.cmd m.params (count_ok s) in
      let c = clean-Between m t u v h.0 r.0 r.1 in
      let q = (msg_clean-BufOwns m t.worker_buf u h.0 r.0).0 in
      (
        (c.0, c.1, c.2, c.3 ∙ r.2),
        λ d. let g : idle ≡ done = sym (ap (λ m. m.stat) q) ∙ d in absurd cc,
      )

-- What becomes of the row of a line.
abbrev pub result_of : Env → Msg → Bytes → Session → DecodeResult
result_of env m line s = (decoder_run m line (readln s).worker_buf).0.0

module _ (env : Env) (u v : Uses) where
  pub handle_line-Between :
      (m : Msg) (line : Bytes) (s : Session)
      → m.stat ≢ done
      → Between u v (errors s) (m, s)
      → let res = result_of env m line s in
        let r = handle_line env m line s in
        Between (lost res u) v (counted_after res (errors s)) r × (r.0.stat ≢ done)
  unfolding handle_line on_worker msg_get_stat
  handle_line-Between m line s n h =
      let b = (readln s).worker_buf in
      let o : BufOwns b (with_row (uses_msg m u)) = record {
        msgs = h.1.msgs;
        cmds = h.1.cmds;
        strs = h.1.strs;
        params = h.1.params;
        kvs = h.1.kvs;
        blocks = omega (arith, h.1.blocks);
      } in
      let d = decoder_run m line b in
      let t = record (readln s) { worker_buf = d.1 } in
      let w = decoder_run-Handles m line b u h.0 n o in
      let a = answer_format-Between env u v d.0.0 m d.0.1 t h.0 w h.2 in
      let f = answer_format env d.0.0 d.0.1 t in
      let x = execute-Between env (lost d.0.0 u) v f.0.stat f.0 f.1 refl (a.0, a.1, a.2, refl) in
      ((x.0.0, x.0.1, x.0.2, x.0.3 ∙ a.3), x.1)
