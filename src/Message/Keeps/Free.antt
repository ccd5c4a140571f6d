-- ===== src/Message/Keeps/Free.antt =====
-- What `msg_clean` and `msg_free` do to the pools.
use ketamarouter.Base.{
  ◌≡◌, ◌==◌, refl, ap, ◌∙◌, subst, Option, none, some, List, [], ◌∷◌, arith, All, Bool-cases, inl,
  inr,
}
use ketamarouter.Pabuf.Back.{pabuf_back-Owns}
use ketamarouter.Pabuf.{pabuf_return_back}
use ketamarouter.Str.{Str, bstr_free, borrowed}
use ketamarouter.Message.Buf.{MsgBuf, back_str, back_param, free_row}
use ketamarouter.Message.Ops.{
  Cmd, Value, Param, string, key_value, Msg, free_value, free_params, free_cmd, msg_clean,
  msg_clean_params, msg_free, empty_msg,
}
use ketamarouter.Message.Keeps.Uses.{
  Uses, BufOwns, with_row, uses_value, uses_params, uses_cmd, uses_msg, Borrows, ParamBorrows,
  CmdBorrows, IsMsg, MaybeIsMsg, uses_maybe, length-nil,
}

back_str-BufOwns :
    (s : Str) (b : MsgBuf) (u : Uses)
    → s.type ≡ borrowed
    → BufOwns b (record u { strs = s.addr ∷ u.strs })
    → BufOwns (back_str s b).1 u
unfolding bstr_free pabuf_return_back
back_str-BufOwns s b u t o = record {
  msgs = o.msgs;
  cmds = o.cmds;
  strs = pabuf_back-Owns b.str s.addr u.strs o.strs;
  params = o.params;
  kvs = o.kvs;
  blocks = rw t o.blocks;
}

free_row-BufOwns : (b : MsgBuf) (u : Uses) → BufOwns b (with_row u) → BufOwns (free_row b).1 u
free_row-BufOwns b u o = record {
  msgs = o.msgs;
  cmds = o.cmds;
  strs = o.strs;
  params = o.params;
  kvs = o.kvs;
  blocks = omega (arith, o.blocks);
}

free_value-BufOwns :
    (v : Value) (b : MsgBuf) (u : Uses)
    → Borrows v
    → BufOwns b (uses_value v u)
    → BufOwns (free_value v b).1 u
unfolding free_value
free_value-BufOwns (string s) b u h o = back_str-BufOwns s b u h o
free_value-BufOwns (key_value addr key value) b u h o =
    let w = record u { kvs = addr ∷ u.kvs } in
    let o1 = back_str-BufOwns key b (record w { strs = value.addr ∷ u.strs }) h.0 o in
    let b1 = (back_str key b).1 in
    let o2 = back_str-BufOwns value b1 w h.1 o1 in
    let b2 = (back_str value b1).1 in
    record {
      msgs = o2.msgs;
      cmds = o2.cmds;
      strs = o2.strs;
      params = o2.params;
      kvs = pabuf_back-Owns b2.param_kv addr u.kvs o2.kvs;
      blocks = o2.blocks;
    }

free_params-BufOwns :
    (params : List Param) (b : MsgBuf) (u : Uses)
    → All ParamBorrows params
    → BufOwns b (uses_params params u)
    → BufOwns (free_params params b).1 u
unfolding free_params
free_params-BufOwns [] b u h o = o
free_params-BufOwns (p ∷ params) b u h o =
    let v = uses_params params u in
    let w = record v { params = p.addr ∷ v.params } in
    let o1 = free_value-BufOwns p.value b (with_row w) h.0 o in
    let b1 = (free_value p.value b).1 in
    let o2 = free_row-BufOwns b1 w o1 in
    let b2 = (free_row b1).1 in
    let o3 : BufOwns (back_param p.addr b2).1 v = record {
      msgs = o2.msgs;
      cmds = o2.cmds;
      strs = o2.strs;
      params = pabuf_back-Owns b2.param p.addr v.params o2.params;
      kvs = o2.kvs;
      blocks = o2.blocks;
    } in
    free_params-BufOwns params (back_param p.addr b2).1 u h.1 o3

free_cmd-BufOwns :
    (cmd : Option Cmd) (b : MsgBuf) (u : Uses)
    → CmdBorrows cmd
    → BufOwns b (uses_cmd cmd u)
    → BufOwns (free_cmd cmd b).1 u
unfolding free_cmd
free_cmd-BufOwns none b u h o = o
free_cmd-BufOwns (some c) b u h o =
    let w = record u { cmds = c.addr ∷ u.cmds } in
    let b1 = (back_str c.name b).1 in
    let b2 = (free_row b1).1 in
    let o2 = free_row-BufOwns b1 w (back_str-BufOwns c.name b (with_row w) h o) in
    record {
      msgs = o2.msgs;
      cmds = pabuf_back-Owns b2.cmd c.addr u.cmds o2.cmds;
      strs = o2.strs;
      params = o2.params;
      kvs = o2.kvs;
      blocks = o2.blocks;
    }

-- The loop of `msg_clean` is left out where there is no parameter.
skip-BufOwns :
    (m : Msg) (b : MsgBuf) (u : Uses)
    → IsMsg m
    → BufOwns b (uses_params m.params u)
    → BufOwns (msg_clean_params m b).1 u
unfolding msg_clean_params
skip-BufOwns m b u h o = elim (Bool-cases (m.param_count == 0)) [
  | inl z ↦
      let e : m.params ≡ [] = length-nil m.params (ground (arith, h.counted)) in
      rw z (subst (λ l. BufOwns b (uses_params l u)) e o)
  | inr p ↦ rw p (free_params-BufOwns m.params b u h.borrows o)
]

-- `msg_clean` gives every object of a message back but the message itself, which is empty then, and
-- frees its rows. The message is one that the operations make.
pub msg_clean-BufOwns :
    (m : Msg) (b : MsgBuf) (u : Uses)
    → IsMsg m
    → BufOwns b (uses_msg m u)
    → ((msg_clean m b).0 ≡ empty_msg m.addr)
      × BufOwns (msg_clean m b).1 (record u { msgs = m.addr ∷ u.msgs })
unfolding msg_clean
msg_clean-BufOwns m b u h o =
    let w = record u { msgs = m.addr ∷ u.msgs } in
    let o1 = skip-BufOwns m b (uses_cmd m.cmd w) h o in
    (refl, free_cmd-BufOwns m.cmd (msg_clean_params m b).1 w h.cmd_borrows o1)

-- `msg_free` gives back the message as well, and NULL is nothing to free.
pub msg_free-BufOwns :
    (m : Option Msg) (b : MsgBuf) (u : Uses)
    → MaybeIsMsg m
    → BufOwns b (uses_maybe m u)
    → BufOwns (msg_free m b).1 u
unfolding msg_free
msg_free-BufOwns none b u h o = o
msg_free-BufOwns (some m) b u h o =
    let b1 = (msg_clean m b).1 in
    let r = msg_clean-BufOwns m b u h o in
    let o1 = r.1 in
    let e : (msg_clean m b).0.addr ≡ m.addr = ap (λ m'. m'.addr) r.0 in
    rw e (record {
      msgs = pabuf_back-Owns b1.msg m.addr u.msgs o1.msgs;
      cmds = o1.cmds;
      strs = o1.strs;
      params = o1.params;
      kvs = o1.kvs;
      blocks = o1.blocks;
    })

free_value-fault : (v : Value) (b : MsgBuf) → (free_value v b).1.fault ≡ b.fault
unfolding free_value
free_value-fault (string s) b = refl
free_value-fault (key_value addr key value) b = refl

free_params-fault : (params : List Param) (b : MsgBuf) → (free_params params b).1.fault ≡ b.fault
unfolding free_params
free_params-fault [] b = refl
free_params-fault (p ∷ params) b =
    let b1 = (free_value p.value b).1 in
    let b2 = (back_param p.addr (free_row b1).1).1 in
    free_params-fault params b2 ∙ free_value-fault p.value b

free_cmd-fault : (cmd : Option Cmd) (b : MsgBuf) → (free_cmd cmd b).1.fault ≡ b.fault
unfolding free_cmd
free_cmd-fault none b = refl
free_cmd-fault (some c) b = refl

pub msg_clean-fault : (m : Msg) (b : MsgBuf) → (msg_clean m b).1.fault ≡ b.fault
unfolding msg_clean msg_clean_params
msg_clean-fault m b = elim (Bool-cases (m.param_count == 0)) [
  | inl z ↦ rw (z, msg_clean) (free_cmd-fault m.cmd b)
  | inr p ↦
      rw (p, msg_clean)
        (free_cmd-fault m.cmd (free_params m.params b).1 ∙ free_params-fault m.params b)
]

pub msg_free-fault : (m : Msg) (b : MsgBuf) → (msg_free (some m) b).1.fault ≡ b.fault
unfolding msg_free
msg_free-fault m b = msg_clean-fault m b
