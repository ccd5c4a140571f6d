-- ===== src/Decoder/Tests.antt =====
-- A row for an empty message.
use ketamarouter.Base.{◌+◌, ◌≢◌, arith, codes}
use ketamarouter.Message.Buf.{MsgBuf, msg_buf_init}
use ketamarouter.Message.Ops.{Msg, done, msg_init}
use ketamarouter.Message.Keeps.Uses.{
  BufOwns, with_row, uses_msg, IsMsg, nothing, msg_buf_init-BufOwns,
}
use ketamarouter.Message.Keeps.Add.{msg_init-BufOwns}
use ketamarouter.Decoder.{decoder_run}
use ketamarouter.Decoder.Keeps.{Handles, decoder_run-Handles}

abbrev first : Msg × MsgBuf
first = msg_init msg_buf_init

-- The pools, once a row is read.
abbrev read : MsgBuf
read = record first.1 { blocks = first.1.blocks + 1 }

first-IsMsg : IsMsg first.0
first-IsMsg = (msg_init-BufOwns msg_buf_init nothing msg_buf_init-BufOwns).0

first_waits : first.0.stat ≢ done
unfolding msg_init
first_waits e = absurd cc

read-BufOwns : BufOwns read (with_row (uses_msg first.0 nothing))
read-BufOwns =
    let o = (msg_init-BufOwns msg_buf_init nothing msg_buf_init-BufOwns).1 in
    record {
      msgs = o.msgs;
      cmds = o.cmds;
      strs = o.strs;
      params = o.params;
      kvs = o.kvs;
      blocks = omega (arith, o.blocks);
    }

decoder_run-Handles_example : Handles first.0 nothing (decoder_run first.0 (codes "+GET 1") read)
decoder_run-Handles_example =
    decoder_run-Handles first.0 (codes "+GET 1") read nothing first-IsMsg first_waits read-BufOwns
