-- ===== src/Message/Keeps/Tests.antt =====
-- Pools that were just made, and a message in them.
use ketamarouter.Base.{◌<◌, ◌≡◌, refl, [], ◌∷◌, arith, codes, u16}
use ketamarouter.Message.Buf.{MsgBuf, msg_buf_init}
use ketamarouter.Message.Ops.{Msg, Cmd, msg_init, msg_set_cmd, msg_clean, empty_msg}
use ketamarouter.Message.Gen.{msg_gen_cmd}
use ketamarouter.Message.Keeps.Uses.{BufOwns, IsMsg, uses_msg, nothing, msg_buf_init-BufOwns}
use ketamarouter.Message.Keeps.Free.{msg_clean-BufOwns}
use ketamarouter.Message.Keeps.Add.{msg_init-BufOwns, msg_set_cmd-BufOwns}
use ketamarouter.Message.Keeps.Gen.{msg_gen_cmd-BufOwns}

abbrev first : Msg × MsgBuf
first = msg_init msg_buf_init

abbrev ping : Cmd × MsgBuf
ping = msg_gen_cmd (codes "PING") 4 0 first.1

-- A message with the command PING.
abbrev ping_msg : Msg
ping_msg = msg_set_cmd first.0 ping.0

ping_msg-BufOwns : IsMsg ping_msg × BufOwns ping.1 (uses_msg ping_msg nothing)
unfolding msg_init
ping_msg-BufOwns =
    let i = msg_init-BufOwns msg_buf_init nothing msg_buf_init-BufOwns in
    let g =
      msg_gen_cmd-BufOwns (codes "PING") 4 0 first.1 (uses_msg first.0 nothing) (omega arith) i.1 in
    let w : ping.0.param_count < u16 = rw g.0.1 (omega arith) in
    msg_set_cmd-BufOwns first.0 ping.0 ping.1 nothing i.0 refl g.0.0 w g.1

msg_clean-BufOwns_example :
    ((msg_clean ping_msg ping.1).0 ≡ empty_msg ping_msg.addr)
    × BufOwns (msg_clean ping_msg ping.1).1 (record nothing { msgs = ping_msg.addr ∷ [] })
msg_clean-BufOwns_example =
    msg_clean-BufOwns ping_msg ping.1 nothing ping_msg-BufOwns.0 ping_msg-BufOwns.1
