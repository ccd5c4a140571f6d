-- ===== src/Message/Keeps/Reorder.antt =====
-- The objects of a message, told in another order.
use ketamarouter.Base.{ℕ, refl, List, [], ◌∷◌, ◌++◌, arith}
use ketamarouter.Message.Ops.{Value, Param, string, key_value}
use ketamarouter.Message.Keeps.Uses.{Uses, Same, with_row, uses_value, uses_param, uses_params}

-- `key` is taken before `value`, and given back before it.
pub swap-Same :
    (k v addr p : ℕ) (u : Uses)
    → Same
        (record (with_row u) { strs = v ∷ k ∷ u.strs; kvs = addr ∷ u.kvs; params = p ∷ u.params })
        (record (with_row u) { strs = k ∷ v ∷ u.strs; kvs = addr ∷ u.kvs; params = p ∷ u.params })
swap-Same k v addr p u = record {
  msgs = (refl, λ a. refl);
  cmds = (refl, λ a. refl);
  strs = (refl, λ a. omega arith);
  params = (refl, λ a. refl);
  kvs = (refl, λ a. refl);
  blocks = refl;
}

abbrev uses_at : Value → ℕ → Uses → Uses
uses_at v p u = uses_value v (with_row (record u { params = p ∷ u.params }))

uses_at-Same :
    (v w : Value) (p q : ℕ) (u : Uses)
    → Same (uses_at v p (uses_at w q u)) (uses_at w q (uses_at v p u))
uses_at-Same (string s) (string t) p q u = record {
  msgs = (refl, λ a. refl);
  cmds = (refl, λ a. refl);
  strs = (refl, λ a. omega arith);
  params = (refl, λ a. omega arith);
  kvs = (refl, λ a. refl);
  blocks = refl;
}
uses_at-Same (string s) (key_value addr k v) p q u = record {
  msgs = (refl, λ a. refl);
  cmds = (refl, λ a. refl);
  strs = (refl, λ a. omega arith);
  params = (refl, λ a. omega arith);
  kvs = (refl, λ a. refl);
  blocks = refl;
}
uses_at-Same (key_value addr k v) (string s) p q u = record {
  msgs = (refl, λ a. refl);
  cmds = (refl, λ a. refl);
  strs = (refl, λ a. omega arith);
  params = (refl, λ a. omega arith);
  kvs = (refl, λ a. refl);
  blocks = refl;
}
uses_at-Same (key_value addr k v) (key_value addr' k' v') p q u = record {
  msgs = (refl, λ a. refl);
  cmds = (refl, λ a. refl);
  strs = (refl, λ a. omega arith);
  params = (refl, λ a. omega arith);
  kvs = (refl, λ a. omega arith);
  blocks = refl;
}

-- Two parameters hold the same objects, whichever is told first.
uses_param-Same :
    (p q : Param) (u : Uses) → Same (uses_param p (uses_param q u)) (uses_param q (uses_param p u))
uses_param-Same p q u = uses_at-Same p.value q.value p.addr q.addr u

pub Same-trans : (u v w : Uses) → Same u v → Same v w → Same u w
Same-trans u v w s t = record {
  msgs = (omega (arith, s.msgs.0, t.msgs.0), λ a. omega (arith, s.msgs.1 a, t.msgs.1 a));
  cmds = (omega (arith, s.cmds.0, t.cmds.0), λ a. omega (arith, s.cmds.1 a, t.cmds.1 a));
  strs = (omega (arith, s.strs.0, t.strs.0), λ a. omega (arith, s.strs.1 a, t.strs.1 a));
  params = (omega (arith, s.params.0, t.params.0), λ a. omega (arith, s.params.1 a, t.params.1 a));
  kvs = (omega (arith, s.kvs.0, t.kvs.0), λ a. omega (arith, s.kvs.1 a, t.kvs.1 a));
  blocks = omega (arith, s.blocks, t.blocks);
}

Same-uses_at : (w : Value) (p : ℕ) (u v : Uses) → Same u v → Same (uses_at w p u) (uses_at w p v)
Same-uses_at (string t) p u v s = record {
  msgs = s.msgs;
  cmds = s.cmds;
  strs = (omega (arith, s.strs.0), λ a. omega (arith, s.strs.1 a));
  params = (omega (arith, s.params.0), λ a. omega (arith, s.params.1 a));
  kvs = s.kvs;
  blocks = omega (arith, s.blocks);
}
Same-uses_at (key_value addr k value) p u v s = record {
  msgs = s.msgs;
  cmds = s.cmds;
  strs = (omega (arith, s.strs.0), λ a. omega (arith, s.strs.1 a));
  params = (omega (arith, s.params.0), λ a. omega (arith, s.params.1 a));
  kvs = (omega (arith, s.kvs.0), λ a. omega (arith, s.kvs.1 a));
  blocks = omega (arith, s.blocks);
}

pub Same-refl : (u : Uses) → Same u u
Same-refl u = record {
  msgs = (refl, λ a. refl);
  cmds = (refl, λ a. refl);
  strs = (refl, λ a. refl);
  params = (refl, λ a. refl);
  kvs = (refl, λ a. refl);
  blocks = refl;
}

pub uses_params-append :
    (params : List Param) (p : Param) (u : Uses)
    → Same (uses_param p (uses_params params u)) (uses_params (params ++ p ∷ []) u)
uses_params-append [] p u = Same-refl (uses_param p u)
uses_params-append (q ∷ params) p u =
    Same-trans (uses_param p (uses_param q (uses_params params u)))
      (uses_param q (uses_param p (uses_params params u))) (uses_params (q ∷ params ++ p ∷ []) u)
      (uses_param-Same p q (uses_params params u))
      (Same-uses_at q.value q.addr _ _ (uses_params-append params p u))
