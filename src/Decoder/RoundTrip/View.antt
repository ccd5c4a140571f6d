-- ===== src/Decoder/RoundTrip/View.antt =====
-- Messages without the objects that hold them, and the lines that say them.
use ketamarouter.Base.{
  ℕ, ◌+◌, ◌≡◌, Option, none, some, List, [], ◌∷◌, ◌++◌, map, leb, ◌==◌, if◌then◌else◌, Bytes, Lacks,
  length,
}
use ketamarouter.Base.Decimal.{print_nat}
use ketamarouter.Str.Equal.{text_of}
use ketamarouter.Message.Buf.{MsgBuf}
use ketamarouter.Message.Ops.{Msg, MsgStat, Cmd, Value, Param, string, key_value, data_more, done}
use ketamarouter.Message.Gen.{cmd_header, str_header, kv_header, kv_sept, str_text, kv_text}
use ketamarouter.Decoder.{DecodeResult, ok}

-- A parameter, and a message, without the objects that hold them.
pub data Item : Type 0 where
  text : Bytes → Item
  pair : Bytes → Bytes → Item

abbrev pub item_of : Value → Item
item_of (string s) = text (text_of s)
item_of (key_value _ k v) = pair (text_of k) (text_of v)

abbrev pub items_of : List Param → List Item
items_of = map (λ p. item_of p.value)

-- What a message says: the name and the declared count of its command, then the rest.
pub record Seen : Type 0 where
  pub cmd : Option (Bytes × ℕ)
  pub items : List Item
  pub count : ℕ
  pub stat : MsgStat

abbrev pub cmd_seen : Option Cmd → Option (Bytes × ℕ)
cmd_seen none = none
cmd_seen (some c) = some (text_of c.name, c.param_count)

abbrev pub seen : Msg → Seen
seen m = record {
  cmd = cmd_seen m.cmd;
  items = items_of m.params;
  count = m.param_count;
  stat = m.stat;
}

-- The rows that the `msg_gen` functions write for them, with their line ends.
abbrev pub item_row : Item → Bytes
item_row (text t) = str_text t (length t)
item_row (pair k v) = kv_text k (length k) v (length v)

-- The rows as lines.
abbrev pub item_line : Item → Bytes
item_line (text t) = str_header ∷ t
item_line (pair k v) = kv_header ∷ k ++ kv_sept ∷ v

abbrev pub cmd_line : Bytes → ℕ → Bytes
cmd_line name n = if n == 0 then cmd_header ∷ name else cmd_header ∷ name ++ b' ' ∷ print_nat n

-- A key has no '='.
abbrev pub IsItem : Item → Type 0
IsItem (text t) = Unit
IsItem (pair k v) = Lacks kv_sept k

-- The state of a message with `count` of `n` parameters.
abbrev pub stat_at : ℕ → ℕ → MsgStat
stat_at n count = if leb n count then done else data_more

-- The message, once its command is read.
abbrev pub started : Bytes → ℕ → Seen
started name n = record { cmd = some (name, n); items = []; count = 0; stat = stat_at n 0 }

-- After one more parameter.
abbrev pub with_item : Seen → ℕ → Item → Seen
with_item s n i = record s {
  items = s.items ++ i ∷ [];
  count = s.count + 1;
  stat = stat_at n (s.count + 1);
}

-- The step accepts its row, and leaves what `s` describes.
abbrev pub Reads : (DecodeResult × Msg) × MsgBuf → Seen → Type 0
Reads d s = (d.0.0 ≡ ok) × (seen d.0.1 ≡ s)
