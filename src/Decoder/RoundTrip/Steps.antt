-- ===== src/Decoder/RoundTrip/Steps.antt =====
-- One row of `decoder_run`: the line of a command, and the line of a parameter.
use ketamarouter.Base.{
  take-length, ℕ, suc, ◌+◌, ◌%◌, ◌<◌, ◌≡◌, ◌≢◌, refl, ap, ◌∙◌, false, Option, none, some, List, [],
  ◌∷◌, ◌++◌, arith, leb, ◌==◌, Bytes, Lacks, length, drop, take-append, u16, Bool-cases, inl, inr,
}
use ketamarouter.Base.Decimal.{print_nat, atoi, atoi-print_nat}
use ketamarouter.Str.{bstr_init, init_in}
use ketamarouter.Message.Buf.{MsgBuf}
use ketamarouter.Message.Ops.{
  Msg, MsgStat, Cmd, Param, empty_msg, msg_init_cmd, msg_set_cmd, msg_init_param_str,
  msg_init_param_kv, msg_add_param, msg_put_paramlist, msg_get_stat,
}
use ketamarouter.Message.Gen.{cmd_header, str_header, kv_header, kv_sept}
use ketamarouter.Decoder.{
  strchr, command_count, command_body, decoder_command, param_str_body, param_kv_body,
  decoder_param, decoder_at, decoder_run,
}
use ketamarouter.Decoder.RoundTrip.View.{
  Item, text, pair, item_of, items_of, item_line, cmd_line, cmd_seen, seen, started, with_item,
  IsItem, Reads,
}

strchr-append : (c : ℕ) (s rest : Bytes) → Lacks c s → strchr (s ++ c ∷ rest) c ≡ some (length s)
unfolding strchr
strchr-append c [] rest h = ground arith
strchr-append c (x ∷ s) rest h = ground (arith, strchr-append c s rest h.1, h.0)

pub strchr-Lacks : (c : ℕ) (s : Bytes) → Lacks c s → strchr s c ≡ none
unfolding strchr
strchr-Lacks c [] h = refl
strchr-Lacks c (x ∷ s) h = ground (arith, strchr-Lacks c s h.1, h.0)

drop-suc-append : (s rest : Bytes) (c : ℕ) → drop (suc (length s)) (s ++ c ∷ rest) ≡ rest
drop-suc-append [] rest c = refl
drop-suc-append (x ∷ s) rest c = drop-suc-append s rest c

drop-append : (s rest : Bytes) (c : ℕ) → drop (length s + 1) (s ++ c ∷ rest) ≡ rest
drop-append s rest c =
    let e : length s + 1 ≡ suc (length s) = omega arith in rw e (drop-suc-append s rest c)

command_body-bare :
    (addr : ℕ) (row name : Bytes) (b : MsgBuf)
    → name ≢ []
    → Lacks b' ' name
    → Reads (command_body (empty_msg addr) row name b) (started name 0)
unfolding command_body msg_init_cmd msg_set_cmd bstr_init init_in
command_body-bare addr row [] b h l = absurd (h refl)
command_body-bare addr row (x ∷ name) b h l =
    rw (strchr-Lacks b' ' (x ∷ name) l, command_body, take-length name) (refl, refl)

-- A text that `atoi` reads as a positive number is not empty.
atoi-pos : (s : Bytes) (n : ℕ) → atoi s ≡ n → 0 < n → length s == 0 ≡ false
unfolding atoi
atoi-pos [] n h p = absurd (omega arith)
atoi-pos (c ∷ s) n h p = ground arith

command_body-count :
    (addr : ℕ) (row name : Bytes) (n : ℕ) (b : MsgBuf)
    → name ≢ []
    → Lacks b' ' name
    → 0 < n
    → n < u16
    → Reads (command_body (empty_msg addr) row (name ++ b' ' ∷ print_nat n) b) (started name n)
unfolding command_body command_count msg_init_cmd msg_set_cmd bstr_init init_in
command_body-count addr row [] n b h l p u = absurd (h refl)
command_body-count addr row (x ∷ name) n b h l p u =
    let z : n == 0 ≡ false = ground arith in
    let f : leb n 0 ≡ false = ground arith in
    let w : n % u16 ≡ n = omega arith in
    rw
      (
        strchr-append b' ' (x ∷ name) (print_nat n) l,
        command_body,
        command_count,
        drop-append (x ∷ name) (print_nat n) b' ',
        atoi-pos (print_nat n) n (atoi-print_nat n (omega arith)) p,
        atoi-print_nat n (omega arith),
        w,
        z,
        f,
        take-append (x ∷ name) (b' ' ∷ print_nat n),
        z,
      )
      (refl, refl)

pub decoder_command-cmd_line :
    (addr : ℕ) (name : Bytes) (n : ℕ) (b : MsgBuf)
    → name ≢ []
    → Lacks b' ' name
    → n < u16
    → Reads (decoder_run (empty_msg addr) (cmd_line name n) b) (started name n)
unfolding decoder_run decoder_at decoder_command msg_get_stat
decoder_command-cmd_line addr name n b h l u = elim (Bool-cases (n == 0)) [
  | inl z ↦
      let e : n ≡ 0 = ground arith in rw e (command_body-bare addr (cmd_line name 0) name b h l)
  | inr p ↦
      let q : 0 < n = ground arith in
      rw p (command_body-count addr (cmd_header ∷ name ++ b' ' ∷ print_nat n) name n b h l q u)
]

append-map :
    (ps : List Param) (p : Param) → items_of (ps ++ p ∷ []) ≡ items_of ps ++ item_of p.value ∷ []
append-map [] p = refl
append-map (q ∷ ps) p = ap (λ l. item_of q.value ∷ l) (append-map ps p)

msg_add_param-some :
    (addr count : ℕ) (cmd : Option Cmd) (params : List Param) (stat : MsgStat) (p : Param)
    (b : MsgBuf) (name : Bytes) (n : ℕ)
    → let m : Msg = record {
      addr = addr;
      cmd = cmd;
      param_count = count;
      params = params;
      stat = stat;
    } in
      cmd_seen cmd ≡ some (name, n)
      → count + 1 < u16
      → seen (msg_add_param m p b).0 ≡ with_item (seen m) n (item_of p.value)
unfolding msg_add_param msg_put_paramlist
msg_add_param-some addr count none params stat p b name n h u = absurd (cc)
msg_add_param-some addr count (some c) params stat p b name n h u =
    let e : c.param_count ≡ n = cc in
    let w : (count + 1) % u16 ≡ count + 1 = omega arith in rw (w, e, append-map params p) refl

msg_add_param-seen :
    (m : Msg) (p : Param) (b : MsgBuf) (name : Bytes) (n : ℕ)
    → (seen m).cmd ≡ some (name, n)
    → m.param_count + 1 < u16
    → seen (msg_add_param m p b).0 ≡ with_item (seen m) n (item_of p.value)
msg_add_param-seen m = msg_add_param-some m.addr m.param_count m.cmd m.params m.stat

msg_init_param_str-item :
    (t row : Bytes) (b : MsgBuf) → item_of (msg_init_param_str t (length t) row b).0.value ≡ text t
unfolding msg_init_param_str bstr_init init_in
msg_init_param_str-item t row b = rw (take-length t) refl

msg_init_param_kv-item :
    (k v row : Bytes) (b : MsgBuf)
    → item_of (msg_init_param_kv (k ++ kv_sept ∷ v) (length k) v (length v) row b).0.value
      ≡ pair k v
unfolding msg_init_param_kv bstr_init init_in
msg_init_param_kv-item k v row b = rw (take-length v, take-append k (kv_sept ∷ v)) refl

pub decoder_param-item_line :
    (m : Msg) (i : Item) (b : MsgBuf) (name : Bytes) (n : ℕ)
    → (seen m).cmd ≡ some (name, n)
    → m.param_count + 1 < u16
    → IsItem i
    → Reads (decoder_param m (item_line i) b) (with_item (seen m) n i)
unfolding decoder_param param_str_body param_kv_body
decoder_param-item_line m (text t) b name n h u k =
    let d = msg_init_param_str t (length t) (str_header ∷ t) b in
    (
      refl,
      msg_add_param-seen m d.0 d.1 name n h u
          ∙ ap (with_item (seen m) n) (msg_init_param_str-item t (str_header ∷ t) b),
    )
decoder_param-item_line m (pair k v) b name n h u l =
    let row = kv_header ∷ k ++ kv_sept ∷ v in
    let d = msg_init_param_kv (k ++ kv_sept ∷ v) (length k) v (length v) row b in
    rw (strchr-append kv_sept k v l, param_kv_body, drop-append k v kv_sept)
      (
        refl,
        msg_add_param-seen m d.0 d.1 name n h u
            ∙ ap (with_item (seen m) n) (msg_init_param_kv-item k v row b),
      )
