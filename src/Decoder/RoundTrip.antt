-- ===== src/Decoder/RoundTrip.antt =====
-- The decoder on the rows of `msg_gen_cmd`, `msg_gen_param_str` and `msg_gen_param_kv`.
pub mod View
pub mod Steps
mod Tests
use ketamarouter.Base.{
  take-length, ℕ, ◌+◌, ◌%◌, ◌^◌, ◌≤◌, ◌<◌, ◌≡◌, ◌≢◌, refl, ap, ap₂, sym, subst, ◌∙◌, Bool, true,
  false, Option, none, some, List, [], ◌∷◌, ◌++◌, map, append_assoc, append-nil, arith, leb, ◌==◌,
  if◌then◌else◌, Bytes, Lacks, length, All, u16, Bool-cases, inl, inr,
}
use ketamarouter.Message.Buf.{MsgBuf, State, pure, ◌>>=◌}
use ketamarouter.Message.Ops.{Msg, MsgStat, data_more, done, empty_msg, msg_get_stat}
use ketamarouter.Message.Gen.{crlf, cmd_text, str_text, kv_text}
use ketamarouter.Decoder.{
  DecodeResult, ok, err_format, err_param_format, decoder_run, decoder_at, decoder_param,
  decoder_command,
}
use View.{
  Item, text, pair, item_row, item_line, cmd_line, Seen, seen, stat_at, started, with_item, IsItem,
  Reads,
}
use Steps.{decoder_param-item_line, decoder_command-cmd_line}

-- Goes on after a row that was accepted.
unfoldable pub decode_next :
    (Msg → State (DecodeResult × Msg)) → DecodeResult → Msg → State (DecodeResult × Msg)
decode_next go ok m = go m
decode_next go err_format m = pure (err_format, m)
decode_next go err_param_format m = pure (err_param_format, m)

-- The rows, one after the other, up to the first that is refused.
unfoldable pub decode_rows : List Bytes → Msg → State (DecodeResult × Msg)
decode_rows [] m = pure (ok, m)
decode_rows (row ∷ rows) m = do d ← decoder_run m row; decode_next (decode_rows rows) d.0 d.1

item_row-line : (i : Item) → item_row i ≡ item_line i ++ crlf
unfolding str_text kv_text
item_row-line (text t) = rw (take-length t)
item_row-line (pair k v) = rw (take-length k, take-length v, append_assoc)

cmd_text-line : (name : Bytes) (n : ℕ) → cmd_text name (length name) n ≡ cmd_line name n ++ crlf
unfolding cmd_text
cmd_text-line name n = elim (Bool-cases (n == 0)) [
  | inl z ↦ rw (z, take-length name)
  | inr p ↦ rw (p, take-length name, append_assoc)
]

abbrev pub AllItems : List Item → Type 0
AllItems = All IsItem

-- The message once its other rows are read.
abbrev whole : Bytes → ℕ → List Item → Seen
whole name n items = record { cmd = some (name, n); items = items; count = n; stat = done }

decoder_run-item_line :
    (m : Msg) (i : Item) (b : MsgBuf) (name : Bytes) (n : ℕ)
    → (seen m).cmd ≡ some (name, n)
    → m.stat ≡ stat_at n m.param_count
    → m.param_count < n
    → n < u16
    → IsItem i
    → Reads (decoder_run m (item_line i) b) (with_item (seen m) n i)
unfolding decoder_run decoder_at msg_get_stat
decoder_run-item_line m i b name n h e lt u k =
    let f : leb n m.param_count ≡ false = ground arith in
    let s : m.stat ≡ data_more = rw (e, f) refl in
    subst (λ t. Reads (decoder_at t m (item_line i) b) (with_item (seen m) n i)) (sym s)
      (decoder_param-item_line m i b name n h (omega arith) k)

decode_rows-cons :
    (row : Bytes) (rows : List Bytes) (m : Msg) (b : MsgBuf)
    → (decoder_run m row b).0.0 ≡ ok
    → decode_rows (row ∷ rows) m b
      ≡ decode_rows rows (decoder_run m row b).0.1 (decoder_run m row b).1
unfolding decode_rows decode_next
decode_rows-cons row rows m b h =
    ap (λ r. decode_next (decode_rows rows) r (decoder_run m row b).0.1 (decoder_run m row b).1) h

decode_rows-items :
    (items : List Item) (m : Msg) (b : MsgBuf) (name : Bytes) (n : ℕ)
    → (seen m).cmd ≡ some (name, n)
    → m.stat ≡ stat_at n m.param_count
    → m.param_count + length items ≡ n
    → n < u16
    → AllItems items
    → Reads (decode_rows (map item_line items) m b) (whole name n ((seen m).items ++ items))
unfolding decode_rows
decode_rows-items [] m b name n h e c u k =
    let q : m.param_count ≡ n = omega arith in
    let t : leb n n ≡ true = ground arith in
    let d : m.stat ≡ done = rw (e, q, t) refl in (refl, rw (h, append-nil, q, d) refl)
decode_rows-items (i ∷ items) m b name n h e c u k =
    let d = decoder_run m (item_line i) b in
    let r = decoder_run-item_line m i b name n h e (omega arith) u k.0 in
    let count : d.0.1.param_count ≡ m.param_count + 1 = ap (λ s. s.count) r.1 in
    let ih =
      decode_rows-items items d.0.1 d.1 name n (ap (λ s. s.cmd) r.1 ∙ h)
        (rw count (ap (λ s. s.stat) r.1)) (omega arith) u k.1 in
    let a : (seen d.0.1).items ++ items ≡ (seen m).items ++ i ∷ items =
      ap (λ s. s.items ++ items) r.1 ∙ append_assoc (seen m).items (i ∷ []) items in
    rw (decode_rows-cons (item_line i) (map item_line items) m b r.0)
      (ih.0, ih.1 ∙ ap (whole name n) a)

rows_line :
    (items : List Item) → map (λ row. row ++ crlf) (map item_line items) ≡ map item_row items
rows_line [] = refl
rows_line (i ∷ items) = ap₂ (λ row rows. row ∷ rows) (sym (item_row-line i)) (rows_line items)

-- The texts that `msg_gen_cmd`, `msg_gen_param_str` and `msg_gen_param_kv` write for a name and
-- fewer than 65536 parameters are lines with CRLF behind them, and these lines, read one by one into
-- an empty message, are all accepted and give that name, that declared count, the parameters in
-- their order and MSG_STAT_DONE. The name is not empty and has no blank, and no key has a '='.
pub decode_rows-gen :
    (addr : ℕ) (name : Bytes) (items : List Item) (b : MsgBuf)
    → name ≢ []
    → Lacks b' ' name
    → length items < u16
    → AllItems items
    → let rows = cmd_line name (length items) ∷ map item_line items in
      let d = decode_rows rows (empty_msg addr) b in
      (map (λ row. row ++ crlf) rows
        ≡ cmd_text name (length name) (length items) ∷ map item_row items)
      × (d.0.0 ≡ ok)
      × (seen d.0.1 ≡ record {
        cmd = some (name, length items);
        items = items;
        count = length items;
        stat = done;
      })
decode_rows-gen addr name items b h l u k =
    let n = length items in
    let d = decoder_run (empty_msg addr) (cmd_line name n) b in
    let r = decoder_command-cmd_line addr name n b h l u in
    let count : d.0.1.param_count ≡ 0 = ap (λ s. s.count) r.1 in
    let ih =
      decode_rows-items items d.0.1 d.1 name n (ap (λ s. s.cmd) r.1)
        (rw count (ap (λ s. s.stat) r.1)) (omega arith) u k in
    let e = decode_rows-cons (cmd_line name n) (map item_line items) (empty_msg addr) b r.0 in
    (
      ap₂ (λ row rows. row ∷ rows) (sym (cmd_text-line name n)) (rows_line items),
      ap (λ x. x.0.0) e ∙ ih.0,
      ap (λ x. seen x.0.1) e ∙ ih.1 ∙ ap (λ s. whole name n (s.items ++ items)) r.1,
    )
