-- ===== src/Server/Read/Excess.antt =====
-- How a client and the server count the commands that fail.
use ketamarouter.Base.{
  ℕ, ◌+◌, ◌%◌, ◌≤◌, ◌≡◌, sym, subst, Option, none, some, List, [], ◌∷◌, Bool-cases, inl, inr, Bytes,
  length, u64, arith,
}
use ketamarouter.Message.Ops.{Msg, MsgStat, Cmd, Param, idle, data_more, done, msg_get_stat}
use ketamarouter.Message.Buf.{null_read}
use ketamarouter.Decoder.{DecodeResult, ok, err_format, err_param_format, decoder_run}
use ketamarouter.Session.{Session, Env, Requests, increase_req_ok, increase_req_err, on_worker}
use ketamarouter.Command.{command_proc}
use ketamarouter.Server.Read.{
  readln, count_err, count_ok, count_failed, is_done, answer_format, run_command, execute,
  handle_line, read_lines, first_msg, client_event_read,
}
use ketamarouter.Server.Read.Counts.{counts, command_proc-counts}

-- The requests in order and the errors of a client exceed all its requests by `k`, and the server
-- counts `v + k` requests in order, all modulo 2 ^ 64.
abbrev pub Excess : ℕ → ℕ → Requests → ℕ → Type 0
Excess v k r n = ((r.req_all + k) % u64 ≡ (r.req_ok + r.req_err) % u64) × (n ≡ (v + k) % u64)

abbrev pub HasExcess : ℕ → ℕ → Session → Type 0
HasExcess v k s = Excess v k s.client_req s.server_req_ok

module _ (v k : ℕ) (s : Session) (h : HasExcess v k s) where
  count_ok-HasExcess : HasExcess v k (count_ok s)
  unfolding count_ok increase_req_ok
  count_ok-HasExcess = (omega (arith, h.0), h.1)

  count_err-HasExcess : HasExcess v k (count_err s)
  unfolding count_err increase_req_err
  count_err-HasExcess = (omega (arith, h.0), h.1)

  count_failed-HasExcess : HasExcess v (k + 1) (count_failed s)
  unfolding count_failed
  count_failed-HasExcess = (omega (arith, h.0), omega (arith, h.1))

-- At most `n` more commands failed.
abbrev pub Grows : ℕ → ℕ → ℕ → Session → Type 0
Grows v k n s = (f : ℕ) × (f ≤ n) × HasExcess v (k + f) s

Grows-trans : (v k f m n : ℕ) (s : Session) → f ≤ m → Grows v (k + f) n s → Grows v k (m + n) s
Grows-trans v k f m n s few (g, few', h) =
    let total : k + f + g ≡ k + (f + g) = omega (arith) in
    (f + g, omega (arith, few, few'), subst (λ x. HasExcess v x s) total h)

module _ (env : Env) (v k : ℕ) where
  unchanged : (n : ℕ) (s : Session) → HasExcess v k s → Grows v k n s
  unchanged n s h =
      let same : k ≡ k + 0 = omega (arith) in
      (0, omega (arith), subst (λ n. HasExcess v n s) same h)

  run_command-Grows :
      (c : Option Cmd) (params : List Param) (s : Session)
      → HasExcess v k s
      → Grows v k 1 (run_command env c params s)
  unfolding run_command on_worker
  run_command-Grows none params s h = unchanged 1 (on_worker null_read s).1 h
  run_command-Grows (some c) params s h =
      let t = (command_proc env c params s).1 in
      let same : counts t ≡ counts s = command_proc-counts env s c params in
      let kept : HasExcess v k t = subst (λ x. Excess v k x.0 x.2) (sym same) h in
      elim (Bool-cases (is_done (command_proc env c params s).0)) [
        | inl d ↦ rw (d, run_command) (unchanged 1 t kept)
        | inr f ↦ rw (f, run_command) (1, omega (arith), count_failed-HasExcess v k t kept)
      ]

  answer_format-HasExcess :
      (res : DecodeResult) (m : Msg) (s : Session)
      → HasExcess v k s
      → HasExcess v k (answer_format env res m s).1
  unfolding answer_format on_worker
  answer_format-HasExcess ok m s h = h
  answer_format-HasExcess err_format m s h = count_err-HasExcess v k s h
  answer_format-HasExcess err_param_format m s h = count_err-HasExcess v k s h

  execute-Grows :
      (stat : MsgStat) (m : Msg) (s : Session)
      → HasExcess v k s
      → Grows v k 1 (execute env stat m s).1
  unfolding execute on_worker
  execute-Grows idle m s h = unchanged 1 s h
  execute-Grows data_more m s h = unchanged 1 s h
  execute-Grows done m s h =
      run_command-Grows m.cmd m.params (count_ok s) (count_ok-HasExcess v k s h)

module _ (env : Env) (v : ℕ) where
  read_lines-Grows :
      (lines : List Bytes) (k : ℕ) (m : Msg) (s : Session)
      → HasExcess v k s
      → Grows v k (length lines) (read_lines env m lines s).1
  unfolding read_lines handle_line on_worker
  read_lines-Grows [] k m s h = unchanged env v k 0 s h
  read_lines-Grows (line ∷ lines) k m s h =
      let d = on_worker (decoder_run m line) (readln s) in
      let a = answer_format env d.0.0 d.0.1 d.1 in
      let r = execute env (msg_get_stat a.0) a.0 a.1 in
      let (f, few, one) =
        execute-Grows env v k (msg_get_stat a.0) a.0 a.1
          (answer_format-HasExcess env v k d.0.0 d.0.1 d.1 h) in
      let t = (read_lines env r.0 lines r.1).1 in
      let sum : 1 + length lines ≡ length (line ∷ lines) = omega (arith) in
      subst (λ n. Grows v k n t) sum
        (Grows-trans v k f 1 (length lines) t few (read_lines-Grows lines (k + f) r.0 r.1 one))

  first_msg-HasExcess :
      (o : Option Msg) (k : ℕ) (s : Session) → HasExcess v k s → HasExcess v k (first_msg o s).1
  unfolding first_msg on_worker
  first_msg-HasExcess none k s h = h
  first_msg-HasExcess (some m) k s h = h

-- Where the requests in order and the errors of a client exceed all its requests by `k`, and the
-- server counts `v + k` requests in order, then a read event of any lines leaves an excess of `k + f`
-- and a count of `v + k + f`, with `f` at most the number of lines, all modulo 2 ^ 64.
pub client_event_read-Grows :
    (env : Env) (lines : List Bytes) (s : Session) (v k : ℕ)
    → HasExcess v k s
    → Grows v k (length lines) (client_event_read env lines s)
unfolding client_event_read
client_event_read-Grows env lines s v k h =
    let first = first_msg s.msg s in
    read_lines-Grows env v lines k first.0 first.1 (first_msg-HasExcess env v s.msg k s h)
