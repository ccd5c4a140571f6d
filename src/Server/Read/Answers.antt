-- ===== src/Server/Read/Answers.antt =====
-- What it means that a request is answered and counted, and how a command that runs and a line that is
-- refused are.
use ketamarouter.Base.{
  ℕ, Option, Bool, true, ◌+◌, ◌%◌, u64, ◌≡◌, refl, ap, ◌∙◌, some, List, false, Bytes, codes,
  Bool-cases, inl, inr,
}
use ketamarouter.Message.Ops.{Msg, Cmd, Param, done, msg_get_stat, empty_msg, msg_clean}
use ketamarouter.Response.{
  Rows, write_rows, resp_error_wrong_msg_format, resp_error_param_format, resp_error,
}
use ketamarouter.Response.Faults.{resp_error-fault}
use ketamarouter.Message.Keeps.Free.{msg_clean-fault}
use ketamarouter.Response.Rows.{error_rows, resp_error-rows}
use ketamarouter.Session.{
  faults, Session, Env, Requests, increase_req_ok, increase_req_err, on_worker,
}
use ketamarouter.Command.{command_proc}
use ketamarouter.Decoder.{DecodeResult, err_format, err_param_format, decoder_run}
use ketamarouter.Server.Read.{
  readln, count_ok, count_err, count_failed, is_done, answer_format, run_command, execute,
  handle_line,
}
use ketamarouter.Server.Read.Counts.{counts, command_proc-counts}
use ketamarouter.Server.Read.Get.{decoded}

-- A command that is done, one that fails, and a line that is refused.
pub data Kind : Type 0 where
  served failed refused : Kind

abbrev pub by_end : Bool → Kind
by_end true = served
by_end false = failed

-- The counters of the client, its worker and the server behind a request.
unfoldable pub counted : Kind → Requests × Requests × ℕ → Requests × Requests × ℕ
unfolding increase_req_ok increase_req_err
counted served (c, w, n) = (increase_req_ok c, increase_req_ok w, n)
counted failed (c, w, n) =
    let r = increase_req_ok c in
    (record r { req_ok = (r.req_ok + 1) % u64 }, increase_req_ok w, (n + 1) % u64)
counted refused (c, w, n) = (increase_req_err c, increase_req_err w, n)

module _ (env : Env) where
  -- What is written after `out`.
  abbrev pub writes : Rows → Rows → Rows
  writes rows out = (write_rows env.write_ok rows out).1

  -- The client has an empty message again, the rows are written as far as `write` takes them, and the
  -- request is counted.
  abbrev pub Answers : Kind → Rows → Session → Msg × Session → Type 0
  Answers kind rows s r =
      (a : ℕ) × (r.0 ≡ empty_msg a)
      × (r.1.out ≡ writes rows s.out)
      × (counts r.1 ≡ counted kind (counts s))
      × (faults r.1 ≡ faults s)

  -- The decoder does not change what an answer is about.
  pub decoded-Answers :
      (kind : Kind) (rows : Rows) (m : Msg) (line : Bytes) (s : Session) (r : Msg × Session)
      → (decoder_run m line (readln s).worker_buf).1.fault ≡ s.worker_buf.fault
      → Answers kind rows (decoded m line s) r
      → Answers kind rows s r
  decoded-Answers kind rows m line s r e (a, msg, out, count, safe) =
      (a, msg, out, count, safe ∙ ap (λ f. (f, s.server_buf.fault)) e)

  -- A line that is refused: the message is cleaned, and the error is answered.
  pub after_refusal : DecodeResult → Msg → Session → Msg × Session
  after_refusal res m s =
      let a = answer_format env res m s in execute env (msg_get_stat a.0) a.0 a.1

  pub handle_line-result :
      (m m' : Msg) (res : DecodeResult) (line : Bytes) (s : Session)
      → (decoder_run m line (readln s).worker_buf).0 ≡ (res, m')
      → handle_line env m line s ≡ after_refusal res m' (decoded m line s)
  unfolding handle_line on_worker after_refusal
  handle_line-result m m' res line s e = ap (λ x. after_refusal x.0 x.1 (decoded m line s)) e

  refused-faults :
      (m : Msg) (s : Session) (errno error : Bytes)
      → (
        (resp_error env.write_ok errno error s.out (msg_clean m s.worker_buf).1).1.fault,
        s.server_buf.fault,
      )
        ≡ faults s
  refused-faults m s errno error =
      ap (λ f. (f, s.server_buf.fault))
        (resp_error-fault env.write_ok errno error s.out (msg_clean m s.worker_buf).1
          ∙ msg_clean-fault m s.worker_buf)

  pub wrong_format :
      (m : Msg) (s : Session)
      → Answers refused
          (error_rows (codes "1001") (codes "Wrong message format."))
          s
          (after_refusal err_format m s)
  unfolding after_refusal answer_format execute on_worker msg_get_stat msg_clean count_err
      resp_error_wrong_msg_format counted
  wrong_format m s = (
    m.addr,
    refl,
    ap (λ r. r.1)
        (resp_error-rows env.write_ok (codes "1001") (codes "Wrong message format.") s.out
          (msg_clean m s.worker_buf).1),
    refl,
    refused-faults m s (codes "1001") (codes "Wrong message format."),
  )

  pub wrong_param :
      (m : Msg) (s : Session)
      → Answers refused
          (error_rows (codes "1002") (codes "Wrong parameter format."))
          s
          (after_refusal err_param_format m s)
  unfolding after_refusal answer_format execute on_worker msg_get_stat msg_clean count_err
      resp_error_param_format counted
  wrong_param m s = (
    m.addr,
    refl,
    ap (λ r. r.1)
        (resp_error-rows env.write_ok (codes "1002") (codes "Wrong parameter format.") s.out
          (msg_clean m s.worker_buf).1),
    refl,
    refused-faults m s (codes "1002") (codes "Wrong parameter format."),
  )

  run_command-out :
      (c : Cmd) (params : List Param) (s : Session)
      → (run_command env (some c) params s).out ≡ (command_proc env c params s).1.out
  unfolding run_command count_failed
  run_command-out c params s = elim (Bool-cases (is_done (command_proc env c params s).0)) [
    | inl d ↦ rw (d, run_command) refl
    | inr f ↦ rw (f, run_command) refl
  ]

  run_command-faults :
      (c : Cmd) (params : List Param) (s : Session)
      → faults (run_command env (some c) params s) ≡ faults (command_proc env c params s).1
  unfolding run_command count_failed
  run_command-faults c params s = elim (Bool-cases (is_done (command_proc env c params s).0)) [
    | inl d ↦ rw (d, run_command) refl
    | inr f ↦ rw (f, run_command) refl
  ]

  -- How a command ends, and what it writes.
  abbrev pub Ends : Bool → Rows → Cmd → List Param → Session → Type 0
  Ends b rows c params s =
      (is_done (command_proc env c params s).0 ≡ b)
      × ((command_proc env c params s).1.out ≡ writes rows s.out)
      × (faults (command_proc env c params s).1 ≡ faults s)

  run_command-counts :
      (b : Bool) (c : Cmd) (params : List Param) (s : Session)
      → is_done (command_proc env c params (count_ok s)).0 ≡ b
      → counts (run_command env (some c) params (count_ok s)) ≡ counted (by_end b) (counts s)
  unfolding run_command count_failed count_ok counted
  run_command-counts true c params s e =
      rw (e, run_command) (command_proc-counts env (count_ok s) c params)
  run_command-counts false c params s e =
      rw (e, run_command)
        (ap (λ x. (record x.0 { req_ok = (x.0.req_ok + 1) % u64 }, x.1, (x.2 + 1) % u64))
          (command_proc-counts env (count_ok s) c params))

  -- A command that is complete: it runs, and the message is cleaned.
  pub execute_done :
      (b : Bool) (m : Msg) (c : Cmd) (rows : Rows) (s : Session)
      → m.cmd ≡ some c
      → Ends b rows c m.params (count_ok s)
      → Answers (by_end b) rows s (execute env done m s)
  unfolding execute on_worker msg_clean count_ok
  execute_done b m c rows s e h =
      let run = λ (o : Option Cmd). run_command env o m.params (count_ok s) in
      (
        m.addr,
        refl,
        ap (λ o. (run o).out) e ∙ run_command-out c m.params (count_ok s) ∙ h.1,
        ap (λ o. counts (run o)) e ∙ run_command-counts b c m.params s h.0,
        ap (λ f. (f, (run m.cmd).server_buf.fault)) (msg_clean-fault m (run m.cmd).worker_buf)
            ∙ ap (λ o. faults (run o)) e
            ∙ run_command-faults c m.params (count_ok s)
            ∙ h.2,
      )
