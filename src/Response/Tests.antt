-- ===== src/Response/Tests.antt =====
-- Answers over pools that were just made, to a socket that takes every row.
use ketamarouter.Base.{
  ◌<◌, ◌⊎◌, ℕ, ◌≡◌, refl, Bool, true, false, get_or, some, [], ◌∷◌, ◌++◌, map, Bytes, codes, take,
}
use ketamarouter.Message.Buf.{msg_buf_init}
use ketamarouter.Message.Ops.{done, empty_msg}
use ketamarouter.Message.Gen.{crlf}
use ketamarouter.Message.Keeps.Uses.{BufOwns, nothing, msg_buf_init-BufOwns}
use ketamarouter.Decoder.{ok}
use ketamarouter.Decoder.RoundTrip.{decode_rows}
use ketamarouter.Decoder.RoundTrip.View.{seen}
use ketamarouter.Response.{Rows, resp_ok, sock_err, write_rows, resp_error}
use ketamarouter.Response.Keeps.{resp_error-balanced}
use ketamarouter.Response.Rows.{
  Taken, write_rows-prefix, resp_error-rows, error_lines, error_items, resp_error-read,
}

abbrev pub takes_all : Rows → Bytes → Bool
takes_all out row = true

resp_error-balanced_example :
    BufOwns (resp_error takes_all (codes "99") (codes "Unknown command.") [] msg_buf_init).1 nothing
    × ((resp_error takes_all (codes "99") (codes "Unknown command.") [] msg_buf_init).1.fault
        ≡ msg_buf_init.fault)
resp_error-balanced_example =
    resp_error-balanced takes_all (codes "99") (codes "Unknown command.") [] msg_buf_init nothing
      msg_buf_init-BufOwns

sent : (resp_error takes_all (codes "99") (codes "no") [] msg_buf_init).0.0 ≡ resp_ok
unfolding write_rows
sent = rw (resp_error-rows takes_all (codes "99") (codes "no") [] msg_buf_init) refl

resp_error-read_example :
    let lines = error_lines (codes "99") (codes "no") in
    let d = decode_rows lines (empty_msg 5) msg_buf_init in
    ((resp_error takes_all (codes "99") (codes "no") [] msg_buf_init).0
      ≡ (resp_ok, map (λ row. row ++ crlf) lines))
    × (d.0.0 ≡ ok)
    × (seen d.0.1 ≡ record {
      cmd = some (codes "ERROR", 2);
      items = error_items (codes "99") (codes "no");
      count = 2;
      stat = done;
    })
resp_error-read_example =
    resp_error-read takes_all (codes "99") (codes "no") [] msg_buf_init msg_buf_init 5 sent

-- A socket that takes one row.
abbrev takes_one : Rows → Bytes → Bool
takes_one [] row = true
takes_one (first ∷ out) row = false

abbrev two_rows : Rows
two_rows = codes "+NODE 1" ∷ codes "$a" ∷ []

write_rows-prefix_example :
    (k : ℕ) × ((write_rows takes_one two_rows []).1 ≡ take k two_rows)
    × Taken takes_one k two_rows []
    × ((((write_rows takes_one two_rows []).0 ≡ resp_ok) × (k ≡ 2))
        ⊎ (((write_rows takes_one two_rows []).0 ≡ sock_err)
            × (k < 2)
            × (takes_one (take k two_rows) (get_or two_rows k []) ≡ false)))
write_rows-prefix_example = write_rows-prefix takes_one two_rows []
