-- ===== src/Decoder/RoundTrip/Tests.antt =====
-- A request and its lines.
use ketamarouter.Base.{
  ℕ, ◌<◌, ◌≡◌, ◌≢◌, refl, Bool, some, List, [], ◌∷◌, ◌++◌, map, arith, Bytes, codes, length,
}
use ketamarouter.Message.Buf.{msg_buf_init}
use ketamarouter.Message.Ops.{done, empty_msg}
use ketamarouter.Message.Gen.{cmd_text, crlf}
use ketamarouter.Decoder.{ok}
use ketamarouter.Decoder.RoundTrip.{decode_rows, decode_rows-gen}
use ketamarouter.Decoder.RoundTrip.View.{Item, text, pair, item_row, item_line, cmd_line, seen}

abbrev two_items : List Item
two_items = text (codes "k=1") ∷ pair (codes "ttl") (codes "a=b") ∷ []

decode_rows-gen_example :
    let rows = cmd_line (codes "SET") 2 ∷ map item_line two_items in
    let d = decode_rows rows (empty_msg 7) msg_buf_init in
    (map (λ row. row ++ crlf) rows ≡ cmd_text (codes "SET") 3 2 ∷ map item_row two_items)
    × (d.0.0 ≡ ok)
    × (seen d.0.1
        ≡ record { cmd = some (codes "SET", 2); items = two_items; count = 2; stat = done })
decode_rows-gen_example =
    decode_rows-gen 7 (codes "SET") two_items msg_buf_init (λ q. absurd cc) (ground arith)
      (omega arith) (tt, (ground arith, tt))

-- The lines themselves.
lines :
    cmd_line (codes "SET") 2 ∷ map item_line two_items
    ≡ codes "+SET 2" ∷ codes "$k=1" ∷ codes "%ttl=a=b" ∷ []
unfolding ketamarouter.Base.Decimal.print_nat ketamarouter.Base.Decimal.print_digits
lines = refl
