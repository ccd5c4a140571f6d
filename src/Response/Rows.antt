-- ===== src/Response/Rows.antt =====
-- What the answers write, and what the other side reads.
use ketamarouter.Base.{
  ◌<◌, ◌⊎◌, ℕ, zero, suc, true, false, get_or, ◌≡◌, refl, sym, ◌∙◌, ap, ap₂, Bool, some, List, [],
  ◌∷◌, ◌++◌, map, append_assoc, append-nil, arith, Bytes, length, take, take-length, Bool-cases,
  inl, inr,
}
use ketamarouter.Message.Buf.{MsgBuf}
use ketamarouter.Message.Ops.{
  done, msg_init, msg_set_cmd, msg_add_param, msg_put_paramlist, empty_msg,
}
use ketamarouter.Message.Gen.{msg_gen_cmd, msg_gen_param_str, cmd_text, str_text, crlf}
use ketamarouter.Decoder.{ok}
use ketamarouter.Decoder.RoundTrip.{decode_rows, decode_rows-gen}
use ketamarouter.Decoder.RoundTrip.View.{Item, text, item_row, item_line, cmd_line, seen}
use ketamarouter.Response.{
  sock_err, resp_ok, Rows, write_rows, write_msg, send_at, resp_msg, error_msg, node_msg, pong_msg,
  send_and_free, resp_error, resp_node, resp_pong, str_err, str_node, str_pong,
}

-- `write` takes the first `k` rows, each behind those before it.
abbrev pub Taken : (Rows → Bytes → Bool) → ℕ → Rows → Rows → Type 0
Taken write_ok zero rows out = Unit
Taken write_ok (suc k) [] out = Unit
Taken write_ok (suc k) (row ∷ rows) out =
    (write_ok out row ≡ true) × Taken write_ok k rows (out ++ row ∷ [])

-- The rows are written from the first on, as many as `write` takes in a row: all of them, which is
-- told by RESP_RES_OK, or those before the first whose `write` fails, which is told by
-- RESP_RES_SOCK_ERR; none after that one is written.
pub write_rows-prefix :
    (write_ok : Rows → Bytes → Bool) (rows out : Rows)
    → (k : ℕ) × ((write_rows write_ok rows out).1 ≡ out ++ take k rows)
      × Taken write_ok k rows out
      × ((((write_rows write_ok rows out).0 ≡ resp_ok) × (k ≡ length rows))
          ⊎ (((write_rows write_ok rows out).0 ≡ sock_err)
              × (k < length rows)
              × (write_ok (out ++ take k rows) (get_or rows k []) ≡ false)))
unfolding write_rows
write_rows-prefix write_ok [] out = (0, sym (append-nil out), tt, inl (refl, refl))
write_rows-prefix write_ok (row ∷ rows) out = elim (Bool-cases (write_ok out row)) [
  | inl t ↦
      let (k, written, taken, end) = write_rows-prefix write_ok rows (out ++ row ∷ []) in
      let front = append_assoc out (row ∷ []) (take k rows) in
      (
        suc k,
        rw t (written ∙ front),
        (t, taken),
        rw t (elim end [
          | inl (e, all) ↦ inl (e, ap suc all)
          | inr (e, some_left, fails) ↦ inr (
            e,
            omega (arith, some_left),
            ap (λ o. write_ok o (get_or rows k [])) (sym front) ∙ fails,
          )
        ]),
      )
  | inr f ↦
      let nothing_yet = append-nil out in
      (
        0,
        rw f (sym nothing_yet),
        tt,
        rw f (inr (refl, omega arith, ap (λ o. write_ok o row) nothing_yet ∙ f)),
      )
]

abbrev pub error_items : Bytes → Bytes → List Item
error_items errno error = text errno ∷ text error ∷ []

abbrev pub error_lines : Bytes → Bytes → Rows
error_lines errno error = cmd_line str_err 2 ∷ map item_line (error_items errno error)

abbrev pub error_rows : Bytes → Bytes → Rows
error_rows errno error =
    cmd_text str_err (length str_err) 2 ∷ map item_row (error_items errno error)

pub resp_error-rows :
    (write_ok : Rows → Bytes → Bool) (errno error : Bytes) (out : Rows) (b : MsgBuf)
    → (resp_error write_ok errno error out b).0 ≡ write_rows write_ok (error_rows errno error) out
unfolding resp_error error_msg send_and_free resp_msg send_at write_msg msg_init msg_set_cmd
    msg_add_param msg_put_paramlist msg_gen_cmd msg_gen_param_str
resp_error-rows write_ok errno error out b = refl

write_rows-ok :
    (write_ok : Rows → Bytes → Bool) (rows out : Rows)
    → (write_rows write_ok rows out).0 ≡ resp_ok
    → write_rows write_ok rows out ≡ (resp_ok, out ++ rows)
write_rows-ok write_ok rows out h =
    let p = write_rows-prefix write_ok rows out in
    elim p.3 [
      | inl (e, all) ↦
          let k : take p.0 rows ≡ rows = rw all (take-length rows) in
          ap₂ (λ r o. (r, o)) h (p.1 ∙ ap (λ l. out ++ l) k)
      | inr (e, _, _) ↦ let g : resp_ok ≡ sock_err = sym h ∙ e in absurd cc
    ]

-- An answer of `resp_error` that is sent whole is written behind what was written before as lines
-- with CRLF behind each, and the decoder reads these lines, from an empty message, as the command
-- ERROR with the number and the text of the error.
pub resp_error-read :
    (write_ok : Rows → Bytes → Bool) (errno error : Bytes) (out : Rows) (b b' : MsgBuf) (addr : ℕ)
    → (resp_error write_ok errno error out b).0.0 ≡ resp_ok
    → let d = decode_rows (error_lines errno error) (empty_msg addr) b' in
      ((resp_error write_ok errno error out b).0
        ≡ (resp_ok, out ++ map (λ row. row ++ crlf) (error_lines errno error)))
      × (d.0.0 ≡ ok)
      × (seen d.0.1 ≡ record {
        cmd = some (str_err, 2);
        items = error_items errno error;
        count = 2;
        stat = done;
      })
resp_error-read write_ok errno error out b b' addr h =
    let e = resp_error-rows write_ok errno error out b in
    let sent : (write_rows write_ok (error_rows errno error) out).0 ≡ resp_ok =
      sym (ap (λ r. r.0) e) ∙ h in
    let read =
      decode_rows-gen addr str_err (error_items errno error) b' (λ q. absurd cc) (ground arith)
        (omega arith) (tt, (tt, tt)) in
    (
      e
          ∙ write_rows-ok write_ok (error_rows errno error) out sent
          ∙ ap (λ l. (resp_ok, out ++ l)) (sym read.0),
      read.1,
      read.2,
    )

abbrev pub node_rows : Bytes → Rows
node_rows node = cmd_text str_node (length str_node) 1 ∷ str_text node (length node) ∷ []

pub resp_node-rows :
    (write_ok : Rows → Bytes → Bool) (node : Bytes) (out : Rows) (b : MsgBuf)
    → (resp_node write_ok node out b).0 ≡ write_rows write_ok (node_rows node) out
unfolding resp_node node_msg send_and_free resp_msg send_at write_msg msg_init msg_set_cmd
    msg_add_param msg_put_paramlist msg_gen_cmd msg_gen_param_str
resp_node-rows write_ok node out b = refl

abbrev pub pong_rows : Rows
pong_rows = cmd_text str_pong (length str_pong) 0 ∷ []

pub resp_pong-rows :
    (write_ok : Rows → Bytes → Bool) (out : Rows) (b : MsgBuf)
    → (resp_pong write_ok out b).0 ≡ write_rows write_ok pong_rows out
unfolding resp_pong pong_msg send_and_free resp_msg send_at write_msg msg_init msg_set_cmd
    msg_gen_cmd
resp_pong-rows write_ok out b = refl
