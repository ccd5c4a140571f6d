-- ===== src/Server/Read/Requests.antt =====
-- The requests that a client may send, with the lines, the reply and the number of each.
use ketamarouter.Base.{ℕ, ◌+◌, ◌≢◌, List, [], ◌∷◌, ◌++◌, Bytes, codes, Lacks, Bool}
use ketamarouter.Response.{Rows, write_rows}
use ketamarouter.Response.Rows.{error_rows, node_rows, pong_rows}
use ketamarouter.Server.Read.Get.{get_line, key_line}
use ketamarouter.Server.Read.Answers.{Kind, served, failed, refused}
use ketamarouter.Server.Read.Replies.{NoCommand, NoParam}

-- GET for a key, PING, another command without parameters, a line where a command is due that does not
-- begin as one, and a line behind GET that does not begin as a parameter.
pub data Request : Type 0 where
  get : Bytes → Request
  ping : Request
  other : Bytes → Request
  no_command : Bytes → Request
  no_param : Bytes → Request

abbrev pub lines_of : Request → List Bytes
lines_of (get key) = get_line ∷ key_line key ∷ []
lines_of ping = codes "+PING" ∷ []
lines_of (other name) = (b'+' ∷ name) ∷ []
lines_of (no_command line) = line ∷ []
lines_of (no_param line) = get_line ∷ line ∷ []

abbrev pub IsRequest : Request → Type 0
IsRequest (get key) = Unit
IsRequest ping = Unit
IsRequest (other name) =
    Lacks b' ' name × (name ≢ []) × (name ≢ codes "GET") × (name ≢ codes "PING")
IsRequest (no_command line) = NoCommand line
IsRequest (no_param line) = NoParam line

-- The reply, where `node` tells the address of the owner of a key.
abbrev pub reply : (Bytes → Bytes) → Request → Rows
reply node (get key) = node_rows (node key)
reply node ping = pong_rows
reply node (other name) = error_rows (codes "99") (codes "Unknown command.")
reply node (no_command line) = error_rows (codes "1001") (codes "Wrong message format.")
reply node (no_param line) = error_rows (codes "1002") (codes "Wrong parameter format.")

-- How it is counted.
abbrev pub kind_of : Request → Kind
kind_of (get key) = served
kind_of ping = served
kind_of (other name) = failed
kind_of (no_command line) = refused
kind_of (no_param line) = refused

abbrev pub ones : Kind → ℕ × ℕ × ℕ
ones served = (1, 0, 0)
ones failed = (0, 1, 0)
ones refused = (0, 0, 1)

-- How many requests are served, fail and are refused.
abbrev pub numbers : List Request → ℕ × ℕ × ℕ
numbers [] = (0, 0, 0)
numbers (r ∷ requests) =
    let one = ones (kind_of r) in
    let n = numbers requests in (one.0 + n.0, one.1 + n.1, one.2 + n.2)

abbrev pub all_lines : List Request → List Bytes
all_lines [] = []
all_lines (r ∷ requests) = lines_of r ++ all_lines requests

-- The replies, each written as far as `write` takes its rows.
abbrev pub replies : (Rows → Bytes → Bool) → (Bytes → Bytes) → List Request → Rows → Rows
replies write_ok node [] out = out
replies write_ok node (r ∷ requests) out =
    replies write_ok node requests (write_rows write_ok (reply node r) out).1
