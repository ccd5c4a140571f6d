-- ===== src/Message/Keeps/Add.antt =====
-- A row that was read becomes the command of a message, or one more parameter of it.
use ketamarouter.Base.{
  ℕ, ◌+◌, ◌%◌, ◌<◌, ◌≡◌, ◌==◌, refl, sym, ◌∙◌, subst, Option, none, some, List, [], ◌∷◌, arith,
  length-append, All-append, leb, if◌then◌else◌, Bytes, u16, Bool-cases, inl, inr,
}
use ketamarouter.Pabuf.Get.{pabuf_get-Owns}
use ketamarouter.Pabuf.{pabuf_get}
use ketamarouter.Str.{bstr_init, init_in}
use ketamarouter.Message.Buf.{MsgBuf}
use ketamarouter.Message.Ops.{
  Cmd, Param, Msg, MsgStat, idle, data_more, done, msg_init, msg_init_cmd, msg_set_cmd,
  msg_init_param_str, msg_init_param_kv, msg_add_param, msg_put_paramlist,
}
use ketamarouter.Message.Keeps.Uses.{
  Uses, BufOwns, BufOwns-Same, with_row, uses_param, uses_params, uses_cmd, uses_msg, ParamBorrows,
  CmdBorrows, Agrees, IsMsg, length-nil,
}
use ketamarouter.Message.Keeps.Reorder.{swap-Same, uses_params-append}

pub msg_init-BufOwns :
    (b : MsgBuf) (u : Uses)
    → BufOwns b u
    → IsMsg (msg_init b).0 × BufOwns (msg_init b).1 (uses_msg (msg_init b).0 u)
unfolding msg_init
msg_init-BufOwns b u o = (
  record { counted = refl; borrows = tt; cmd_borrows = tt; agrees = (refl, refl) },
  record {
    msgs = pabuf_get-Owns b.msg u.msgs o.msgs;
    cmds = o.cmds;
    strs = o.strs;
    params = o.params;
    kvs = o.kvs;
    blocks = o.blocks;
  },
)

-- The command takes over the row.
pub msg_init_cmd-BufOwns :
    (name : Bytes) (len n : ℕ) (row : Bytes) (b : MsgBuf) (u : Uses)
    → BufOwns b (with_row u)
    → let d = msg_init_cmd name len n row b in
      CmdBorrows (some d.0) × (d.0.param_count ≡ n) × BufOwns d.1 (uses_cmd (some d.0) u)
unfolding msg_init_cmd bstr_init init_in
msg_init_cmd-BufOwns name len n row b u o = (
  refl,
  refl,
  record {
    msgs = o.msgs;
    cmds = pabuf_get-Owns b.cmd u.cmds o.cmds;
    strs = pabuf_get-Owns b.str u.strs o.strs;
    params = o.params;
    kvs = o.kvs;
    blocks = o.blocks;
  },
)

pub msg_init_param_str-BufOwns :
    (text : Bytes) (len : ℕ) (row : Bytes) (b : MsgBuf) (u : Uses)
    → BufOwns b (with_row u)
    → let d = msg_init_param_str text len row b in ParamBorrows d.0 × BufOwns d.1 (uses_param d.0 u)
unfolding msg_init_param_str bstr_init init_in
msg_init_param_str-BufOwns text len row b u o = (
  refl,
  record {
    msgs = o.msgs;
    cmds = o.cmds;
    strs = pabuf_get-Owns b.str u.strs o.strs;
    params = pabuf_get-Owns b.param u.params o.params;
    kvs = o.kvs;
    blocks = o.blocks;
  },
)

pub msg_init_param_kv-BufOwns :
    (key : Bytes) (key_len : ℕ) (value : Bytes) (value_len : ℕ) (row : Bytes) (b : MsgBuf)
    (u : Uses)
    → BufOwns b (with_row u)
    → let d = msg_init_param_kv key key_len value value_len row b in
      ParamBorrows d.0 × BufOwns d.1 (uses_param d.0 u)
unfolding msg_init_param_kv bstr_init init_in
msg_init_param_kv-BufOwns key key_len value value_len row b u o =
    let k = pabuf_get b.str in
    let o1 = pabuf_get-Owns b.str u.strs o.strs in
    let v = pabuf_get k.1 in
    let d = msg_init_param_kv key key_len value value_len row b in
    (
      (refl, refl),
      BufOwns-Same d.1 _ _ (swap-Same k.0 v.0 (pabuf_get b.param_kv).0 (pabuf_get b.param).0 u)
          (record {
            msgs = o.msgs;
            cmds = o.cmds;
            strs = pabuf_get-Owns k.1 (k.0 ∷ u.strs) o1;
            params = pabuf_get-Owns b.param u.params o.params;
            kvs = pabuf_get-Owns b.param_kv u.kvs o.kvs;
            blocks = o.blocks;
          }),
    )

set_stat : (n : ℕ) → (if n == 0 then done else data_more) ≡ (if leb n 0 then done else data_more)
set_stat n = ground arith

more_lt : (n count : ℕ) → (if leb n count then done else data_more) ≡ data_more → count < n
more_lt n count h = elim (Bool-cases (leb n count)) [
  | inl t ↦
      let g : done ≡ data_more = subst (λ b. (if b then done else data_more) ≡ data_more) t h in
      absurd cc
  | inr f ↦ ground arith
]

abbrev msg_of : ℕ → Option Cmd → ℕ → List Param → MsgStat → Msg
msg_of addr cmd count params stat = record {
  addr = addr;
  cmd = cmd;
  param_count = count;
  params = params;
  stat = stat;
}

pub msg_set_cmd-BufOwns :
    (m : Msg) (c : Cmd) (b : MsgBuf) (u : Uses)
    → IsMsg m
    → m.cmd ≡ none
    → CmdBorrows (some c)
    → c.param_count < u16
    → BufOwns b (uses_cmd (some c) (uses_msg m u))
    → IsMsg (msg_set_cmd m c) × BufOwns b (uses_msg (msg_set_cmd m c) u)
unfolding msg_set_cmd
msg_set_cmd-BufOwns m c b u h e k w o =
    let g : (m.param_count ≡ 0) × (m.stat ≡ idle) =
      subst (λ cmd. Agrees cmd m.param_count m.stat) e h.agrees in
    let n : m.params ≡ [] = length-nil m.params (omega (arith, h.counted, g.0)) in
    (
      record {
        counted = h.counted;
        borrows = h.borrows;
        cmd_borrows = k;
        agrees = (w, omega (arith, g.0), rw g.0 (set_stat c.param_count));
      },
      rw n (
          subst
            (λ cmd. BufOwns b (
              uses_cmd (some c)
                (uses_params [] (uses_cmd cmd (record u { msgs = m.addr ∷ u.msgs })))))
            e
            (subst
              (λ l. BufOwns b (
                uses_cmd (some c)
                  (uses_params l (uses_cmd m.cmd (record u { msgs = m.addr ∷ u.msgs })))))
              n o)),
    )

add_param-some :
    (addr count : ℕ) (c : Cmd) (params : List Param) (stat : MsgStat) (p : Param) (b : MsgBuf)
    (u : Uses)
    → let m = msg_of addr (some c) count params stat in
      IsMsg m
      → stat ≡ data_more
      → ParamBorrows p
      → BufOwns b (uses_param p (uses_msg m u))
      → let d = msg_add_param m p b in IsMsg d.0 × BufOwns d.1 (uses_msg d.0 u)
unfolding msg_add_param msg_put_paramlist
add_param-some addr count c params stat p b u h e k o =
    let lt : count < c.param_count = more_lt c.param_count count (sym h.agrees.2 ∙ e) in
    let w : (count + 1) % u16 ≡ count + 1 = omega (arith, h.agrees.0) in
    let s = uses_params-append params p (uses_cmd (some c) (record u { msgs = addr ∷ u.msgs })) in
    (
      record {
        counted = omega (arith, w, h.counted, length-append params (p ∷ []));
        borrows = All-append ParamBorrows params (p ∷ []) h.borrows (k, tt);
        cmd_borrows = h.cmd_borrows;
        agrees = (h.agrees.0, omega (arith, w), refl);
      },
      BufOwns-Same b _ _ s o,
    )

add_param-any :
    (addr count : ℕ) (cmd : Option Cmd) (params : List Param) (stat : MsgStat) (p : Param)
    (b : MsgBuf) (u : Uses)
    → let m = msg_of addr cmd count params stat in
      IsMsg m
      → stat ≡ data_more
      → ParamBorrows p
      → BufOwns b (uses_param p (uses_msg m u))
      → let d = msg_add_param m p b in IsMsg d.0 × BufOwns d.1 (uses_msg d.0 u)
add_param-any addr count none params stat p b u h e k o =
    let g : idle ≡ data_more = sym h.agrees.1 ∙ e in absurd cc
add_param-any addr count (some c) params stat p b u h e k o =
    add_param-some addr count c params stat p b u h e k o

-- A parameter that is added takes its place behind the others, and keeps its objects.
pub msg_add_param-BufOwns :
    (m : Msg) (p : Param) (b : MsgBuf) (u : Uses)
    → IsMsg m
    → m.stat ≡ data_more
    → ParamBorrows p
    → BufOwns b (uses_param p (uses_msg m u))
    → IsMsg (msg_add_param m p b).0
      × BufOwns (msg_add_param m p b).1 (uses_msg (msg_add_param m p b).0 u)
msg_add_param-BufOwns m = add_param-any m.addr m.param_count m.cmd m.params m.stat

-- Then the parameter is added through a command that is there.
pub msg_add_param-state :
    (m : Msg) (p : Param) (b : MsgBuf) → IsMsg m → m.stat ≡ data_more → (msg_add_param m p b).1 ≡ b
unfolding msg_add_param msg_put_paramlist
msg_add_param-state m p b h e = go m.addr m.param_count m.cmd m.params m.stat h e
  where
    go :
        (addr count : ℕ) (cmd : Option Cmd) (params : List Param) (stat : MsgStat)
        → IsMsg (msg_of addr cmd count params stat)
        → stat ≡ data_more
        → (msg_add_param (msg_of addr cmd count params stat) p b).1 ≡ b
    go addr count none params stat h e = let g : idle ≡ data_more = sym h.agrees.1 ∙ e in absurd cc
    go addr count (some c) params stat h e = refl
