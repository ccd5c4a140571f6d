-- ===== src/Response/Keeps.antt =====
-- What the answers do to the pools.
use ketamarouter.Base.{
  ℕ, ◌≡◌, ◌<◌, refl, sym, ◌∙◌, ap, subst, Bool, Option, none, some, List, arith, Bytes, length, u16,
}
use ketamarouter.Message.Buf.{MsgBuf, State, pure, ◌>>=◌}
use ketamarouter.Message.Ops.{
  Cmd, Param, Msg, MsgStat, idle, data_more, done, msg_init, msg_set_cmd, msg_add_param, msg_free,
  msg_put_paramlist,
}
use ketamarouter.Message.Gen.{msg_gen_cmd, msg_gen_param_str}
use ketamarouter.Message.Keeps.Uses.{Uses, BufOwns, uses_msg, IsMsg, Agrees}
use ketamarouter.Message.Keeps.Free.{msg_free-BufOwns, msg_free-fault}
use ketamarouter.Message.Keeps.Add.{
  msg_init-BufOwns, msg_set_cmd-BufOwns, msg_add_param-BufOwns, msg_add_param-state,
}
use ketamarouter.Message.Keeps.Gen.{msg_gen_cmd-BufOwns, msg_gen_param_str-BufOwns}
use ketamarouter.Response.{
  Rows, resp_msg, send_at, write_msg, error_msg, node_msg, pong_msg, send_and_free, resp_error,
  resp_node, resp_pong, str_err, str_node, str_pong,
}

-- A computation that makes a message, from pools that have `u` out.
abbrev Makes : State Msg → MsgBuf → Uses → Type 0
Makes m b u = IsMsg (m b).0 × BufOwns (m b).1 (uses_msg (m b).0 u) × ((m b).1.fault ≡ b.fault)

-- The first steps of each: an empty message, and its command.
start : Bytes → ℕ → State Msg
start name n = do msg ← msg_init; cmd ← msg_gen_cmd name (length name) n; pure (msg_set_cmd msg cmd)

start-Makes :
    (name : Bytes) (n : ℕ) (b : MsgBuf) (u : Uses)
    → n < u16
    → BufOwns b u
    → Makes (start name n) b u
unfolding start msg_init
start-Makes name n b u h o =
    let i = msg_init-BufOwns b u o in
    let m = msg_init b in
    let c = msg_gen_cmd name (length name) n m.1 in
    let g = msg_gen_cmd-BufOwns name (length name) n m.1 (uses_msg m.0 u) h i.1 in
    let s = msg_set_cmd-BufOwns m.0 c.0 c.1 u i.0 refl g.0.0 (rw g.0.1 h) g.1 in (s.0, s.1, g.2)

-- One more string, for a message that waits for it.
add-Makes :
    (m : Msg) (text : Bytes) (b : MsgBuf) (u : Uses)
    → IsMsg m
    → m.stat ≡ data_more
    → BufOwns b (uses_msg m u)
    → Makes
        (λ b.
          msg_add_param m
            (msg_gen_param_str text (length text) b).0
            (msg_gen_param_str text (length text) b).1)
        b
        u
add-Makes m text b u h e o =
    let d = msg_gen_param_str text (length text) b in
    let g = msg_gen_param_str-BufOwns text (length text) b (uses_msg m u) o in
    let a = msg_add_param-BufOwns m d.0 d.1 u h e g.0 g.1 in
    (a.0, a.1, ap (λ b. b.fault) (msg_add_param-state m d.0 d.1 h e) ∙ g.2)

pong_msg-Makes : (b : MsgBuf) (u : Uses) → BufOwns b u → Makes pong_msg b u
unfolding pong_msg start
pong_msg-Makes b u o = start-Makes str_pong 0 b u (omega arith) o

node_msg-Makes : (node : Bytes) (b : MsgBuf) (u : Uses) → BufOwns b u → Makes (node_msg node) b u
unfolding node_msg start msg_set_cmd msg_gen_cmd
node_msg-Makes node b u o =
    let s = start-Makes str_node 1 b u (omega arith) o in
    let m = start str_node 1 b in
    let a = add-Makes m.0 node m.1 u s.0 refl s.1 in (a.0, a.1, a.2 ∙ s.2)

error_msg-Makes :
    (errno error : Bytes) (b : MsgBuf) (u : Uses) → BufOwns b u → Makes (error_msg errno error) b u
unfolding error_msg start msg_set_cmd msg_gen_cmd msg_add_param msg_put_paramlist msg_init
error_msg-Makes errno error b u o =
    let s = start-Makes str_err 2 b u (omega arith) o in
    let m = start str_err 2 b in
    let a = add-Makes m.0 errno m.1 u s.0 refl s.1 in
    let d = msg_gen_param_str errno (length errno) m.1 in
    let m' = msg_add_param m.0 d.0 d.1 in
    let a' = add-Makes m'.0 error m'.1 u a.0 refl a.1 in (a'.0, a'.1, a'.2 ∙ a.2 ∙ s.2)

send_at-state :
    (write_ok : Rows → Bytes → Bool) (cmd : Option Cmd) (count : ℕ) (params : List Param)
    (stat : MsgStat) (out : Rows) (b : MsgBuf)
    → Agrees cmd count stat
    → (send_at write_ok stat cmd params out b).1 ≡ b
unfolding send_at write_msg
send_at-state write_ok cmd count params idle out b h = refl
send_at-state write_ok cmd count params data_more out b h = refl
send_at-state write_ok none count params done out b h = let e : done ≡ idle = h.1 in absurd cc
send_at-state write_ok (some c) count params done out b h = refl

-- Nothing is read through NULL where a message is sent.
resp_msg-state :
    (write_ok : Rows → Bytes → Bool) (m : Msg) (out : Rows) (b : MsgBuf)
    → IsMsg m
    → (resp_msg write_ok m out b).1 ≡ b
unfolding resp_msg
resp_msg-state write_ok m out b h =
    send_at-state write_ok m.cmd m.param_count m.params m.stat out b h.agrees

send_and_free-BufOwns :
    (write_ok : Rows → Bytes → Bool) (out : Rows) (m : State Msg) (b : MsgBuf) (u : Uses)
    → Makes m b u
    → let d = send_and_free write_ok out (m b).0 (m b).1 in BufOwns d.1 u × (d.1.fault ≡ b.fault)
unfolding send_and_free
send_and_free-BufOwns write_ok out m b u h =
    let e = resp_msg-state write_ok (m b).0 out (m b).1 h.0 in
    subst
      (λ b'.
        BufOwns (msg_free (some (m b).0) b').1 u × ((msg_free (some (m b).0) b').1.fault ≡ b.fault))
      (sym e)
      (msg_free-BufOwns (some (m b).0) (m b).1 u h.0 h.1, msg_free-fault (m b).0 (m b).1 ∙ h.2)

-- `resp_error` leaves the pools with what was out before, whatever `write` does: every object that
-- it takes is given back, every row freed, and no memory is written or read that is not its own.
pub resp_error-balanced :
    (write_ok : Rows → Bytes → Bool) (errno error : Bytes) (out : Rows) (b : MsgBuf) (u : Uses)
    → BufOwns b u
    → BufOwns (resp_error write_ok errno error out b).1 u
      × ((resp_error write_ok errno error out b).1.fault ≡ b.fault)
unfolding resp_error
resp_error-balanced write_ok errno error out b u o =
    send_and_free-BufOwns write_ok out (error_msg errno error) b u
      (error_msg-Makes errno error b u o)

-- So does `resp_node`.
pub resp_node-balanced :
    (write_ok : Rows → Bytes → Bool) (node : Bytes) (out : Rows) (b : MsgBuf) (u : Uses)
    → BufOwns b u
    → BufOwns (resp_node write_ok node out b).1 u
      × ((resp_node write_ok node out b).1.fault ≡ b.fault)
unfolding resp_node
resp_node-balanced write_ok node out b u o =
    send_and_free-BufOwns write_ok out (node_msg node) b u (node_msg-Makes node b u o)

-- And so does `resp_pong`.
pub resp_pong-balanced :
    (write_ok : Rows → Bytes → Bool) (out : Rows) (b : MsgBuf) (u : Uses)
    → BufOwns b u
    → BufOwns (resp_pong write_ok out b).1 u × ((resp_pong write_ok out b).1.fault ≡ b.fault)
unfolding resp_pong
resp_pong-balanced write_ok out b u o =
    send_and_free-BufOwns write_ok out pong_msg b u (pong_msg-Makes b u o)
