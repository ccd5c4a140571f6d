-- ===== src/Server/Read/Keeps/Lost.antt =====
-- The objects of a message with one more row beside them.
use ketamarouter.Base.{ℕ, ◌≡◌, refl, ◌∙◌, ap, Option, none, some, List, [], ◌∷◌}
use ketamarouter.Message.Ops.{Cmd, Msg, Value, Param, string, key_value}
use ketamarouter.Message.Keeps.Uses.{
  Uses, with_row, uses_value, uses_param, uses_params, uses_cmd, uses_msg,
}

with_row-uses_value :
    (w : Value) (a : ℕ) (u : Uses)
    → with_row (uses_value w (with_row (record u { params = a ∷ u.params })))
      ≡ uses_value w (with_row (with_row (record u { params = a ∷ u.params })))
with_row-uses_value (string s) a u = refl
with_row-uses_value (key_value addr key value) a u = refl

with_row-uses_params :
    (params : List Param) (u : Uses)
    → with_row (uses_params params u) ≡ uses_params params (with_row u)
with_row-uses_params [] u = refl
with_row-uses_params (q ∷ params) u =
    with_row-uses_value q.value q.addr (uses_params params u)
    ∙ ap (uses_param q) (with_row-uses_params params u)

with_row-uses_cmd : (c : Option Cmd) (u : Uses) → with_row (uses_cmd c u) ≡ uses_cmd c (with_row u)
with_row-uses_cmd none u = refl
with_row-uses_cmd (some c) u = refl

pub with_row-uses_msg : (m : Msg) (u : Uses) → with_row (uses_msg m u) ≡ uses_msg m (with_row u)
with_row-uses_msg m u =
    let w = record u { msgs = m.addr ∷ u.msgs } in
    with_row-uses_params m.params (uses_cmd m.cmd w)
    ∙ ap (uses_params m.params) (with_row-uses_cmd m.cmd w)
