-- ===== src/Message/Keeps/Uses.antt =====
-- The objects that are out, pool by pool, and those that a message holds.
use ketamarouter.Base.{
  ℕ, ◌+◌, ◌≤◌, ◌<◌, ◌≡◌, refl, Option, none, some, List, [], ◌∷◌, arith, leb, if◌then◌else◌, length,
  All, u16,
}
use ketamarouter.Pabuf.Owns.{Owns, Owns-reorder, occurs, pabuf_init-Owns}
use ketamarouter.Str.{borrowed}
use ketamarouter.Message.Buf.{MsgBuf, msg_buf_init}
use ketamarouter.Message.Ops.{
  Cmd, Value, Param, string, key_value, Msg, MsgStat, idle, data_more, done,
}

-- `blocks` counts the rows.
pub record Uses : Type 0 where
  pub msgs : List ℕ
  pub cmds : List ℕ
  pub strs : List ℕ
  pub params : List ℕ
  pub kvs : List ℕ
  pub blocks : ℕ

-- Each pool has out what `u` lists, and the rows are counted.
pub record BufOwns (b : MsgBuf) (u : Uses) : Type 0 where
  pub msgs : Owns b.msg u.msgs
  pub cmds : Owns b.cmd u.cmds
  pub strs : Owns b.str u.strs
  pub params : Owns b.param u.params
  pub kvs : Owns b.param_kv u.kvs
  pub blocks : b.blocks ≡ u.blocks

-- A row more.
abbrev pub with_row : Uses → Uses
with_row u = record u { blocks = u.blocks + 1 }

abbrev pub uses_value : Value → Uses → Uses
uses_value (string s) u = record u { strs = s.addr ∷ u.strs }
uses_value (key_value addr key value) u = record u {
  strs = key.addr ∷ value.addr ∷ u.strs;
  kvs = addr ∷ u.kvs;
}

abbrev pub uses_param : Param → Uses → Uses
uses_param p u = uses_value p.value (with_row (record u { params = p.addr ∷ u.params }))

abbrev pub uses_params : List Param → Uses → Uses
uses_params [] u = u
uses_params (p ∷ params) u = uses_param p (uses_params params u)

abbrev pub uses_cmd : Option Cmd → Uses → Uses
uses_cmd none u = u
uses_cmd (some c) u = with_row (record u { cmds = c.addr ∷ u.cmds; strs = c.name.addr ∷ u.strs })

abbrev pub uses_msg : Msg → Uses → Uses
uses_msg m u = uses_params m.params (uses_cmd m.cmd (record u { msgs = m.addr ∷ u.msgs }))

-- The strings of a message point into its rows.
abbrev pub Borrows : Value → Type 0
Borrows (string s) = s.type ≡ borrowed
Borrows (key_value addr key value) = (key.type ≡ borrowed) × (value.type ≡ borrowed)

abbrev pub ParamBorrows : Param → Type 0
ParamBorrows p = Borrows p.value

abbrev pub CmdBorrows : Option Cmd → Type 0
CmdBorrows none = Unit
CmdBorrows (some c) = c.name.type ≡ borrowed

-- The declared count decides the state, once there is a command.
abbrev pub Agrees : Option Cmd → ℕ → MsgStat → Type 0
Agrees none count stat = (count ≡ 0) × (stat ≡ idle)
Agrees (some c) count stat =
    (c.param_count < u16)
    × (count ≤ c.param_count)
    × (stat ≡ (if leb c.param_count count then done else data_more))

pub record IsMsg (m : Msg) : Type 0 where
  pub counted : m.param_count ≡ length m.params
  pub borrows : All ParamBorrows m.params
  pub cmd_borrows : CmdBorrows m.cmd
  pub agrees : Agrees m.cmd m.param_count m.stat

-- A pointer to a message that may be NULL.
abbrev pub MaybeIsMsg : Option Msg → Type 0
MaybeIsMsg none = Unit
MaybeIsMsg (some m) = IsMsg m

abbrev pub uses_maybe : Option Msg → Uses → Uses
uses_maybe none u = u
uses_maybe (some m) u = uses_msg m u

-- The same objects in another order.
pub record Same (u v : Uses) : Type 0 where
  pub msgs : (length u.msgs ≡ length v.msgs) × ((a : ℕ) → occurs a u.msgs ≡ occurs a v.msgs)
  pub cmds : (length u.cmds ≡ length v.cmds) × ((a : ℕ) → occurs a u.cmds ≡ occurs a v.cmds)
  pub strs : (length u.strs ≡ length v.strs) × ((a : ℕ) → occurs a u.strs ≡ occurs a v.strs)
  pub params :
      (length u.params ≡ length v.params) × ((a : ℕ) → occurs a u.params ≡ occurs a v.params)
  pub kvs : (length u.kvs ≡ length v.kvs) × ((a : ℕ) → occurs a u.kvs ≡ occurs a v.kvs)
  pub blocks : u.blocks ≡ v.blocks

pub BufOwns-Same : (b : MsgBuf) (u v : Uses) → Same u v → BufOwns b u → BufOwns b v
BufOwns-Same b u v s o = record {
  msgs = Owns-reorder b.msg u.msgs v.msgs o.msgs s.msgs.0 s.msgs.1;
  cmds = Owns-reorder b.cmd u.cmds v.cmds o.cmds s.cmds.0 s.cmds.1;
  strs = Owns-reorder b.str u.strs v.strs o.strs s.strs.0 s.strs.1;
  params = Owns-reorder b.param u.params v.params o.params s.params.0 s.params.1;
  kvs = Owns-reorder b.param_kv u.kvs v.kvs o.kvs s.kvs.0 s.kvs.1;
  blocks = omega (arith, o.blocks, s.blocks);
}

pub length-nil : (params : List Param) → length params ≡ 0 → params ≡ []
length-nil [] h = refl
length-nil (p ∷ params) h = absurd (omega arith)

-- Pools that have just been made.
abbrev pub nothing : Uses
nothing = record { msgs = []; cmds = []; strs = []; params = []; kvs = []; blocks = 0 }

pub msg_buf_init-BufOwns : BufOwns msg_buf_init nothing
unfolding msg_buf_init
msg_buf_init-BufOwns = record {
  msgs = pabuf_init-Owns 48 (omega arith);
  cmds = pabuf_init-Owns 24 (omega arith);
  strs = pabuf_init-Owns 24 (omega arith);
  params = pabuf_init-Owns 40 (omega arith);
  kvs = pabuf_init-Owns 16 (omega arith);
  blocks = refl;
}
