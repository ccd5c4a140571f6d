-- ===== src/Message/Keeps/Gen.antt =====
-- The rows and the objects of the `msg_gen` functions.
use ketamarouter.Base.{
  ℕ, zero, suc, ◌+◌, ◌*◌, ◌/◌, ◌%◌, ◌≤◌, ◌<◌, ◌≡◌, ◌==◌, refl, true, some, [], ◌∷◌, ◌++◌, arith,
  length, length-append, length-take, ltb, Bytes, u16, take, Bool-cases, inl, inr,
}
use ketamarouter.Base.Decimal.{print_digits, print_nat}
use ketamarouter.Pabuf.Get.{pabuf_get-Owns}
use ketamarouter.Pabuf.{pabuf_get}
use ketamarouter.Str.{bstr_init, init_in}
use ketamarouter.Message.Buf.{MsgBuf, sprintf}
use ketamarouter.Message.Gen.{
  crlf, kv_sept, cmd_text, str_text, kv_text, msg_gen_cmd, msg_gen_param_str, msg_gen_param_kv,
}
use ketamarouter.Message.Keeps.Uses.{
  Uses, BufOwns, BufOwns-Same, uses_param, uses_cmd, ParamBorrows, CmdBorrows,
}
use ketamarouter.Message.Keeps.Reorder.{swap-Same}

abbrev ten : ℕ → ℕ
ten zero = 1
ten (suc k) = 10 * ten k

length-print_digits :
    (f k n : ℕ) (out : Bytes) → n < ten k → length (print_digits f n out) ≤ length out + k
unfolding print_digits
length-print_digits zero k n out h = omega arith
length-print_digits (suc f) zero n out h =
    let e : n == 0 ≡ true = ground arith in rw (e, print_digits) (omega arith)
length-print_digits (suc f) (suc k) n out h = elim (Bool-cases (n == 0)) [
  | inl z ↦ rw (z, print_digits) (omega arith)
  | inr p ↦
      let ih = length-print_digits f k (n / 10) ((b'0' + n % 10) ∷ out) (omega arith) in
      rw (p, print_digits) (omega (arith, ih))
]

length-print_nat : (n : ℕ) → n < u16 → length (print_nat n) ≤ 5
unfolding print_nat
length-print_nat n h = ground (arith, length-print_digits n 5 n [] (omega arith))

length-cmd_text : (name : Bytes) (len n : ℕ) → n < u16 → length (cmd_text name len n) < len + 10
unfolding cmd_text
length-cmd_text name len n h =
    let t = length-take len name in
    let bare = length-append (take len name) crlf in
    let counted = length-append (take len name) (b' ' ∷ print_nat n) in
    let row = length-append (take len name ++ b' ' ∷ print_nat n) crlf in
    elim (Bool-cases (n == 0)) [
      | inl z ↦ rw (z, cmd_text) (omega (arith, t, bare))
      | inr p ↦ rw (p, cmd_text) (omega (arith, t, counted, row, length-print_nat n h))
    ]

length-str_text : (text : Bytes) (len : ℕ) → length (str_text text len) < len + 4
unfolding str_text
length-str_text text len = omega (arith, length-append (take len text) crlf, length-take len text)

length-kv_text :
    (k : Bytes) (k_len : ℕ) (v : Bytes) (v_len : ℕ)
    → length (kv_text k k_len v v_len) < k_len + v_len + 5
unfolding kv_text
length-kv_text k k_len v v_len =
    let value = length-append (take k_len k) (kv_sept ∷ take v_len v) in
    let whole = length-append (take k_len k ++ kv_sept ∷ take v_len v) crlf in
    omega (arith, value, whole, length-take k_len k, length-take v_len v)

sprintf-fits :
    (size : ℕ) (text : Bytes) (b : MsgBuf)
    → length text < size
    → (sprintf size text b).1.fault ≡ b.fault
sprintf-fits size text b h = let e : ltb (length text) size ≡ true = ground arith in rw e refl

-- Nothing is written past the row of a command, or of a parameter.
pub msg_gen_cmd-fault :
    (name : Bytes) (len n : ℕ) (b : MsgBuf) → n < u16 → (msg_gen_cmd name len n b).1.fault ≡ b.fault
unfolding msg_gen_cmd bstr_init init_in
msg_gen_cmd-fault name len n b h =
    sprintf-fits (len + 10) (cmd_text name len n) b (length-cmd_text name len n h)

pub msg_gen_param_str-fault :
    (text : Bytes) (len : ℕ) (b : MsgBuf) → (msg_gen_param_str text len b).1.fault ≡ b.fault
unfolding msg_gen_param_str bstr_init init_in
msg_gen_param_str-fault text len b =
    sprintf-fits (len + 4) (str_text text len) b (length-str_text text len)

-- The command, its string and its row are accounted for, and nothing is written past the row.
pub msg_gen_cmd-BufOwns :
    (name : Bytes) (len n : ℕ) (b : MsgBuf) (u : Uses)
    → n < u16
    → BufOwns b u
    → let d = msg_gen_cmd name len n b in
      (CmdBorrows (some d.0) × (d.0.param_count ≡ n))
      × BufOwns d.1 (uses_cmd (some d.0) u)
      × (d.1.fault ≡ b.fault)
unfolding msg_gen_cmd bstr_init init_in
msg_gen_cmd-BufOwns name len n b u h o = (
  (refl, refl),
  record {
    msgs = o.msgs;
    cmds = pabuf_get-Owns b.cmd u.cmds o.cmds;
    strs = pabuf_get-Owns b.str u.strs o.strs;
    params = o.params;
    kvs = o.kvs;
    blocks = omega (arith, o.blocks);
  },
  msg_gen_cmd-fault name len n b h,
)

pub msg_gen_param_str-BufOwns :
    (text : Bytes) (len : ℕ) (b : MsgBuf) (u : Uses)
    → BufOwns b u
    → let d = msg_gen_param_str text len b in
      ParamBorrows d.0 × BufOwns d.1 (uses_param d.0 u) × (d.1.fault ≡ b.fault)
unfolding msg_gen_param_str bstr_init init_in
msg_gen_param_str-BufOwns text len b u o = (
  refl,
  record {
    msgs = o.msgs;
    cmds = o.cmds;
    strs = pabuf_get-Owns b.str u.strs o.strs;
    params = pabuf_get-Owns b.param u.params o.params;
    kvs = o.kvs;
    blocks = omega (arith, o.blocks);
  },
  msg_gen_param_str-fault text len b,
)

pub msg_gen_param_kv-BufOwns :
    (key : Bytes) (key_len : ℕ) (value : Bytes) (value_len : ℕ) (b : MsgBuf) (u : Uses)
    → BufOwns b u
    → let d = msg_gen_param_kv key key_len value value_len b in
      ParamBorrows d.0 × BufOwns d.1 (uses_param d.0 u) × (d.1.fault ≡ b.fault)
unfolding msg_gen_param_kv bstr_init init_in
msg_gen_param_kv-BufOwns key key_len value value_len b u o =
    let k = pabuf_get b.str in
    let v = pabuf_get k.1 in
    let d = msg_gen_param_kv key key_len value value_len b in
    let text = kv_text key key_len value value_len in
    (
      (refl, refl),
      BufOwns-Same d.1 _ _ (swap-Same k.0 v.0 (pabuf_get b.param_kv).0 (pabuf_get b.param).0 u)
          (record {
            msgs = o.msgs;
            cmds = o.cmds;
            strs = pabuf_get-Owns k.1 (k.0 ∷ u.strs) (pabuf_get-Owns b.str u.strs o.strs);
            params = pabuf_get-Owns b.param u.params o.params;
            kvs = pabuf_get-Owns b.param_kv u.kvs o.kvs;
            blocks = omega (arith, o.blocks);
          }),
      sprintf-fits (key_len + value_len + 5) text b (length-kv_text key key_len value value_len),
    )
