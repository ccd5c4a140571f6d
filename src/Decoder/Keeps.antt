-- ===== src/Decoder/Keeps.antt =====
-- What the decoder does to the pools and to the message.
use ketamarouter.Base.{
  ℕ, ◌+◌, ◌%◌, ◌<◌, ◌≡◌, ◌≢◌, ◌==◌, refl, sym, ◌∙◌, subst, Option, none, some, [], ◌∷◌, arith,
  length, leb, if◌then◌else◌, Bytes, u16, Bool-cases, ◌⊎◌, inl, inr, drop, Option-cases,
}
use ketamarouter.Base.Decimal.{atoi}
use ketamarouter.Message.Buf.{MsgBuf}
use ketamarouter.Message.Ops.{
  Cmd, Msg, MsgStat, idle, data_more, done, msg_init_cmd, msg_set_cmd, msg_init_param_str,
  msg_init_param_kv, msg_get_stat,
}
use ketamarouter.Message.Gen.{cmd_header, str_header, kv_header, kv_sept}
use ketamarouter.Message.Keeps.Uses.{Uses, BufOwns, with_row, uses_msg, IsMsg, Agrees}
use ketamarouter.Message.Keeps.Add.{
  msg_init_cmd-BufOwns, msg_init_param_str-BufOwns, msg_init_param_kv-BufOwns, msg_set_cmd-BufOwns,
  msg_add_param-BufOwns,
}
use ketamarouter.Decoder.{
  DecodeResult, ok, err_format, err_param_format, strchr, command_count, command_body,
  decoder_command, param_kv_body, param_str_body, decoder_param, decoder_at, decoder_run,
}

-- What the step may leave of the message `m` and of a row that was read.
abbrev pub Handles : Msg → Uses → (DecodeResult × Msg) × MsgBuf → Type 0
Handles m u d = elim d.0.0 [
  | ok ↦ IsMsg d.0.1 × BufOwns d.1 (uses_msg d.0.1 u)
  | err_format ↦ (d.0.1 ≡ m) × BufOwns d.1 (with_row (uses_msg m u))
  | err_param_format ↦ (d.0.1 ≡ m) × BufOwns d.1 (with_row (uses_msg m u))
]

module _ (m : Msg) (b : MsgBuf) (u : Uses) (h : IsMsg m)
    (o : BufOwns b (with_row (uses_msg m u))) where
  make_cmd-Handles :
      (name : Bytes) (len n : ℕ) (row : Bytes)
      → m.cmd ≡ none
      → n < u16
      → let d = msg_init_cmd name len n row b in Handles m u ((ok, msg_set_cmd m d.0), d.1)
  make_cmd-Handles name len n row e lt =
      let d = msg_init_cmd name len n row b in
      let r = msg_init_cmd-BufOwns name len n row b (uses_msg m u) o in
      msg_set_cmd-BufOwns m d.0 d.1 u h e r.0 (rw r.1 lt) r.2

  command_count-Handles :
      (row c : Bytes) (clen : ℕ) → m.cmd ≡ none → Handles m u (command_count m row c clen b)
  unfolding command_count
  command_count-Handles row c clen e = elim (Bool-cases (length (drop (clen + 1) c) == 0)) [
    | inl z ↦ rw (z, command_count) (refl, o)
    | inr p ↦ elim (Bool-cases (atoi (drop (clen + 1) c) == 0)) [
      | inl z ↦ rw (p, command_count, z) (refl, o)
      | inr q ↦
          rw (p, command_count, q)
            (make_cmd-Handles c clen (atoi (drop (clen + 1) c) % u16) row e (omega arith))
    ]
  ]

  command_body-Handles : (row c : Bytes) → m.cmd ≡ none → Handles m u (command_body m row c b)
  unfolding command_body
  command_body-Handles row [] e = (refl, o)
  command_body-Handles row (x ∷ c) e = elim (Option-cases (strchr (x ∷ c) b' ')) [
    | inl n ↦ rw (n, command_body) (make_cmd-Handles (x ∷ c) (length (x ∷ c)) 0 row e (omega arith))
    | inr s ↦ rw (s.1, command_body) (command_count-Handles row (x ∷ c) s.0 e)
  ]

  decoder_command-Handles : (row : Bytes) → m.cmd ≡ none → Handles m u (decoder_command m row b)
  unfolding decoder_command
  decoder_command-Handles [] e = (refl, o)
  decoder_command-Handles (x ∷ c) e = elim (Bool-cases (x == cmd_header)) [
    | inl t ↦ rw (t, decoder_command) (command_body-Handles (x ∷ c) c e)
    | inr f ↦ rw (f, decoder_command) (refl, o)
  ]

  param_str_body-Handles :
      (row s : Bytes) → m.stat ≡ data_more → Handles m u (param_str_body m row s b)
  unfolding param_str_body
  param_str_body-Handles row s e =
      let d = msg_init_param_str s (length s) row b in
      let r = msg_init_param_str-BufOwns s (length s) row b (uses_msg m u) o in
      msg_add_param-BufOwns m d.0 d.1 u h e r.0 r.1

  param_kv_body-Handles :
      (row k : Bytes) → m.stat ≡ data_more → Handles m u (param_kv_body m row k b)
  unfolding param_kv_body
  param_kv_body-Handles row k e = elim (Option-cases (strchr k kv_sept)) [
    | inl n ↦ rw (n, param_kv_body) (refl, o)
    | inr s ↦
        let v = drop (s.0 + 1) k in
        let d = msg_init_param_kv k s.0 v (length v) row b in
        let r = msg_init_param_kv-BufOwns k s.0 v (length v) row b (uses_msg m u) o in
        rw (s.1, param_kv_body) (msg_add_param-BufOwns m d.0 d.1 u h e r.0 r.1)
  ]

  decoder_param-Handles : (row : Bytes) → m.stat ≡ data_more → Handles m u (decoder_param m row b)
  unfolding decoder_param
  decoder_param-Handles [] e = (refl, o)
  decoder_param-Handles (x ∷ s) e = elim (Bool-cases (x == str_header)) [
    | inl t ↦ rw (t, decoder_param) (param_str_body-Handles (x ∷ s) s e)
    | inr f ↦ elim (Bool-cases (x == kv_header)) [
      | inl t ↦ rw (f, decoder_param, t) (param_kv_body-Handles (x ∷ s) s e)
      | inr g ↦ rw (f, decoder_param, g) (refl, o)
    ]
  ]

idle-none :
    (cmd : Option Cmd) (count : ℕ) (stat : MsgStat)
    → Agrees cmd count stat
    → stat ≡ idle
    → cmd ≡ none
idle-none none count stat h e = refl
idle-none (some c) count stat h e = elim (Bool-cases (leb c.param_count count)) [
  | inl t ↦
      let g : done ≡ idle = subst (λ b. (if b then done else data_more) ≡ idle) t (sym h.2 ∙ e) in
      absurd cc
  | inr f ↦
      let g : data_more ≡ idle =
        subst (λ b. (if b then done else data_more) ≡ idle) f (sym h.2 ∙ e) in
      absurd cc
]

MsgStat-cases : (s : MsgStat) → (s ≡ idle) ⊎ ((s ≡ data_more) ⊎ (s ≡ done))
MsgStat-cases idle = inl refl
MsgStat-cases data_more = inr (inl refl)
MsgStat-cases done = inr (inr refl)

-- For a message that waits for rows, `decoder_run` either accepts the row, which the message then
-- owns with the objects that were taken for it, or it leaves the message as it was and the row to
-- the caller.
pub decoder_run-Handles :
    (m : Msg) (row : Bytes) (b : MsgBuf) (u : Uses)
    → IsMsg m
    → m.stat ≢ done
    → BufOwns b (with_row (uses_msg m u))
    → Handles m u (decoder_run m row b)
unfolding decoder_run decoder_at msg_get_stat
decoder_run-Handles m row b u h n o =
    let at : MsgStat → Type 0 = λ s. Handles m u (decoder_at s m row b) in
    elim (MsgStat-cases m.stat) [
      | inl e ↦
          let none_yet = idle-none m.cmd m.param_count m.stat h.agrees e in
          subst at (sym e) (decoder_command-Handles m b u h o row none_yet)
      | inr (inl e) ↦ subst at (sym e) (decoder_param-Handles m b u h o row e)
      | inr (inr e) ↦ absurd (n e)
    ]
