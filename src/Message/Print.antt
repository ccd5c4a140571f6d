-- ===== src/Message/Print.antt =====
-- `msg_print`: what is logged of a message.
use ketamarouter.Base.{ℕ, none, some, List, [], ◌∷◌, ◌++◌, codes}
use ketamarouter.Message.Ops.{Msg, Param}
use ketamarouter.Logging.{Log, Tm, Place, debug, log}

abbrev at_line : ℕ → Place
at_line n = record { file = codes "message.c"; line = n }

unfoldable pub print_params : Tm → List Param → Log → Log
print_params tm [] l = l
print_params tm (p ∷ params) l =
    print_params tm params (log debug tm (at_line 226) (codes " PARAMETER : " ++ p.row) l)

unfoldable pub msg_print : Tm → Msg → Log → Log
unfolding print_params
msg_print tm m l =
    let start = log debug tm (at_line 215) (codes "msg_print()") l in
    let with_cmd : Log = elim m.cmd [
      | none ↦ start
      | some c ↦ log debug tm (at_line 218) (codes " COMMAND : " ++ c.row) start
    ] in
    print_params tm m.params with_cmd
