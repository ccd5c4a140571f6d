-- ===== src/Server/Read/Keeps.antt =====
-- What a read event does to the pools of the worker and of the server.
mod Call
mod Lost
mod Line
use ketamarouter.Base.{
  ℕ, zero, suc, ◌+◌, ◌%◌, ◌≤◌, ◌<◌, ◌≡◌, ◌≢◌, refl, ◌∙◌, ap, ap₂, subst, Option, none, some, List,
  [], ◌∷◌, Bytes, u64, arith, length,
}
use ketamarouter.Message.Ops.{Msg, done, msg_init}
use ketamarouter.Message.Keeps.Uses.{Uses, BufOwns, with_row, uses_msg, IsMsg, uses_maybe}
use ketamarouter.Message.Keeps.Add.{msg_init-BufOwns}
use ketamarouter.Decoder.{DecodeResult, ok, err_format, err_param_format}
use ketamarouter.Session.{Session, Env, errors, on_worker}
use ketamarouter.Server.Read.{handle_line, read_lines, first_msg, client_event_read}
use Line.{lost, Between, counted_after, result_of, handle_line-Between}

-- So many rows lost.
abbrev pub lost_rows : ℕ → Uses → Uses
lost_rows zero u = u
lost_rows (suc n) u = lost_rows n (with_row u)

-- After some lines of at most `k`, of which some were refused.
abbrev Loses : Uses → Uses → ℕ × ℕ → ℕ → Msg × Session → Type 0
Loses u v e k r =
    (n : ℕ) × (n ≤ k)
    × (Between (lost_rows n u) v ((e.0 + n) % u64, (e.1 + n) % u64) r × (r.0.stat ≢ done))

-- Both counts fit their type.
abbrev Fit : ℕ × ℕ → Type 0
Fit e = (e.0 < u64) × (e.1 < u64)

abbrev counts : ℕ → ℕ → ℕ × ℕ
counts a b = (a, b)

counts_same : {a b c d : ℕ} → a ≡ b → c ≡ d → counts a c ≡ counts b d
counts_same p q = ap₂ counts p q

count_suc : (e n : ℕ) → ((e + 1) % u64 + n) % u64 ≡ (e + suc n) % u64
count_suc e n = omega arith

Loses-refused :
    (u v : Uses) (e : ℕ × ℕ) (k : ℕ) (r : Msg × Session)
    → Loses (with_row u) v ((e.0 + 1) % u64, (e.1 + 1) % u64) k r
    → Loses u v e (suc k) r
Loses-refused u v e k r h =
    let counts = h.2.0.3 ∙ counts_same (count_suc e.0 h.0) (count_suc e.1 h.0) in
    (suc h.0, omega (arith, h.1), ((h.2.0.0, h.2.0.1, h.2.0.2, counts), h.2.1))

Loses-suc :
    (res : DecodeResult) (u v : Uses) (e : ℕ × ℕ) (k : ℕ) (r : Msg × Session)
    → Loses (lost res u) v (counted_after res e) k r
    → Loses u v e (suc k) r
Loses-suc ok u v e k r h = (h.0, omega (arith, h.1), h.2)
Loses-suc err_format u v e k r h = Loses-refused u v e k r h
Loses-suc err_param_format u v e k r h = Loses-refused u v e k r h

counted-Fit : (res : DecodeResult) (e : ℕ × ℕ) → Fit e → Fit (counted_after res e)
counted-Fit ok e h = h
counted-Fit err_format e h = (omega arith, omega arith)
counted-Fit err_param_format e h = (omega arith, omega arith)

-- A message of a client, where there is one.
abbrev pub MaybeWaits : Option Msg → Type 0
MaybeWaits none = Unit
MaybeWaits (some m) = IsMsg m × (m.stat ≢ done)

first_msg-Between :
    (o : Option Msg) (s : Session) (u v : Uses)
    → MaybeWaits o
    → BufOwns s.worker_buf (uses_maybe o u)
    → BufOwns s.server_buf v
    → Between u v (errors s) (first_msg o s) × ((first_msg o s).0.stat ≢ done)
unfolding first_msg on_worker msg_init
first_msg-Between none s u v w o p =
    let i = msg_init-BufOwns s.worker_buf u o in ((i.0, i.1, p, refl), λ q. absurd cc)
first_msg-Between (some m) s u v w o p = ((w.0, o, p, refl), w.1)

module _ (env : Env) (v : Uses) where
  read_lines-Loses :
      (lines : List Bytes) (m : Msg) (s : Session) (u : Uses)
      → m.stat ≢ done
      → Fit (errors s)
      → Between u v (errors s) (m, s)
      → Loses u v (errors s) (length lines) (read_lines env m lines s)
  unfolding read_lines
  read_lines-Loses [] m s u n lt h = (
    0,
    omega arith,
    ((h.0, h.1, h.2, counts_same (omega (arith, lt.0)) (omega (arith, lt.1))), n),
  )
  read_lines-Loses (line ∷ lines) m s u n lt h =
      let res = result_of env m line s in
      let r = handle_line env m line s in
      let x = handle_line-Between env u v m line s n h in
      let e = errors s in
      let b : Fit (errors r.1) = rw x.0.3 (counted-Fit res e lt) in
      let ih = read_lines-Loses lines r.0 r.1 (lost res u) x.1 b (x.0.0, x.0.1, x.0.2, refl) in
      Loses-suc res u v e (length lines) (read_lines env r.0 lines r.1) (
        subst (λ e'. Loses (lost res u) v e' (length lines) (read_lines env r.0 lines r.1)) x.0.3
          ih)

  -- After a read event, whatever the lines are and whatever `write` does, the pools of the worker have
  -- out what they had before, apart from the message of the client, which holds exactly its own
  -- objects and rows and waits for rows; the pools of the server are as before; and the rows that
  -- stay allocated beside those of the message are those of the refused lines, as many as errors
  -- are counted for the client and for the worker. The client's message, where it has one, is one
  -- that the operations make and is not done, and the counts of errors fit their type.
  pub client_event_read-Loses :
      (lines : List Bytes) (s : Session) (u : Uses)
      → MaybeWaits s.msg
      → s.client_req.req_err < u64
      → s.worker_req.req_err < u64
      → BufOwns s.worker_buf (uses_maybe s.msg u)
      → BufOwns s.server_buf v
      → let t = client_event_read env lines s in
        (m : Msg) × (n : ℕ) × (t.msg ≡ some m)
        × (IsMsg m × (m.stat ≢ done))
        × (n ≤ length lines)
        × (t.client_req.req_err ≡ (s.client_req.req_err + n) % u64)
        × (t.worker_req.req_err ≡ (s.worker_req.req_err + n) % u64)
        × BufOwns t.worker_buf (uses_msg m (lost_rows n u))
        × BufOwns t.server_buf v
  unfolding client_event_read
  client_event_read-Loses lines s u w lt lt' o p =
      let first = first_msg-Between s.msg s u v w o p in
      let a = first_msg s.msg s in
      let r =
        read_lines-Loses lines a.0 a.1 u first.1 (rw first.0.3 (lt, lt'))
          (first.0.0, first.0.1, first.0.2, refl) in
      let t = read_lines env a.0 lines a.1 in
      (
        t.0,
        r.0,
        refl,
        (r.2.0.0, r.2.1),
        r.1,
        ap (λ e. e.0) r.2.0.3 ∙ ap (λ e. (e.0 + r.0) % u64) first.0.3,
        ap (λ e. e.1) r.2.0.3 ∙ ap (λ e. (e.1 + r.0) % u64) first.0.3,
        r.2.0.1,
        r.2.0.2,
      )
