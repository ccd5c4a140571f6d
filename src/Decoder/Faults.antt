-- ===== src/Decoder/Faults.antt =====
-- A row is read without a read through NULL, by a message that waits for a command or has one.
use ketamarouter.Base.{
  ◌≡◌, refl, sym, subst, ◌==◌, Option-cases, Bool-cases, inl, inr, [], ◌∷◌, some, Bytes, ℕ, ◌+◌,
  drop, length,
}
use ketamarouter.Base.Decimal.{atoi}
use ketamarouter.Message.Buf.{MsgBuf}
use ketamarouter.Message.Gen.{cmd_header, str_header, kv_header, kv_sept}
use ketamarouter.Message.Ops.{
  Msg, Cmd, data_more, empty_msg, msg_get_stat, msg_init_cmd, msg_init_param_str, msg_init_param_kv,
  msg_add_param,
}
use ketamarouter.Decoder.{
  decoder_run, decoder_at, decoder_command, command_body, command_count, decoder_param,
  param_str_body, param_kv_body, strchr,
}

command_count-fault :
    (m : Msg) (row c : Bytes) (clen : ℕ) (b : MsgBuf)
    → (command_count m row c clen b).1.fault ≡ b.fault
unfolding command_count msg_init_cmd
command_count-fault m row c clen b = elim (Bool-cases (length (drop (clen + 1) c) == 0)) [
  | inl z ↦ rw (z, command_count) refl
  | inr p ↦ elim (Bool-cases (atoi (drop (clen + 1) c) == 0)) [
    | inl z ↦ rw (p, command_count, z) refl
    | inr q ↦ rw (p, command_count, q) refl
  ]
]

command_body-fault :
    (m : Msg) (row c : Bytes) (b : MsgBuf) → (command_body m row c b).1.fault ≡ b.fault
unfolding command_body msg_init_cmd
command_body-fault m row [] b = refl
command_body-fault m row (x ∷ xs) b = elim (Option-cases (strchr (x ∷ xs) b' ')) [
  | inl n ↦ rw (n, command_body) refl
  | inr (clen, e) ↦ rw (e, command_body) (command_count-fault m row (x ∷ xs) clen b)
]

pub command-fault :
    (a : ℕ) (row : Bytes) (b : MsgBuf) → (decoder_run (empty_msg a) row b).1.fault ≡ b.fault
unfolding decoder_run decoder_at decoder_command msg_get_stat
command-fault a [] b = refl
command-fault a (h ∷ c) b = elim (Bool-cases (h == cmd_header)) [
  | inl t ↦
      rw (decoder_run, decoder_at, decoder_command, t)
        (command_body-fault (empty_msg a) (h ∷ c) c b)
  | inr f ↦ rw (decoder_run, decoder_at, decoder_command, f) refl
]

-- A message with a command.
module _ (m : Msg) (c : Cmd) (has : m.cmd ≡ some c) where
  param_str_body-fault : (row s : Bytes) (b : MsgBuf) → (param_str_body m row s b).1.fault ≡ b.fault
  unfolding param_str_body msg_init_param_str msg_add_param
  param_str_body-fault row s b = rw has refl

  param_kv_body-fault : (row k : Bytes) (b : MsgBuf) → (param_kv_body m row k b).1.fault ≡ b.fault
  unfolding param_kv_body msg_init_param_kv msg_add_param
  param_kv_body-fault row k b = elim (Option-cases (strchr k kv_sept)) [
    | inl n ↦ rw (n, param_kv_body) refl
    | inr (klen, e) ↦ rw (e, param_kv_body, has) refl
  ]

  decoder_param-fault : (row : Bytes) (b : MsgBuf) → (decoder_param m row b).1.fault ≡ b.fault
  unfolding decoder_param
  decoder_param-fault [] b = refl
  decoder_param-fault (h ∷ s) b = elim (Bool-cases (h == str_header)) [
    | inl t ↦ rw (t, decoder_param) (param_str_body-fault (h ∷ s) s b)
    | inr f ↦ elim (Bool-cases (h == kv_header)) [
      | inl t ↦ rw (f, decoder_param, t) (param_kv_body-fault (h ∷ s) s b)
      | inr g ↦ rw (f, decoder_param, g) refl
    ]
  ]

  pub param-fault :
      (row : Bytes) (b : MsgBuf) → m.stat ≡ data_more → (decoder_run m row b).1.fault ≡ b.fault
  unfolding decoder_run decoder_at msg_get_stat
  param-fault row b e =
      subst (λ stat. (decoder_at stat m row b).1.fault ≡ b.fault) (sym e)
        (decoder_param-fault row b)
