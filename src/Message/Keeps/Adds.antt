-- ===== src/Message/Keeps/Adds.antt =====
-- The objects of a message and those of others are told in any order: each holds objects of its own.
use ketamarouter.Base.{ℕ, ◌+◌, ◌≡◌, refl, Option, none, some, List, [], ◌∷◌, arith, length}
use ketamarouter.Pabuf.Owns.{occurs}
use ketamarouter.Message.Ops.{Cmd, Value, Param, string, key_value, Msg}
use ketamarouter.Message.Keeps.Uses.{
  Uses, Same, with_row, uses_value, uses_param, uses_params, uses_cmd, uses_maybe,
}

-- `f` adds as many objects to a list, and each as often, whatever was out before.
pub record AddsTo (f : Uses → Uses) (pool : Uses → List ℕ) : Type 0 where
  pub many : ℕ
  pub often : ℕ → ℕ
  pub length_added : (u : Uses) → length (pool (f u)) ≡ many + length (pool u)
  pub occurs_added : (u : Uses) (a : ℕ) → occurs a (pool (f u)) ≡ often a + occurs a (pool u)

pub record Adds (f : Uses → Uses) : Type 0 where
  pub msgs : AddsTo f (λ u. u.msgs)
  pub cmds : AddsTo f (λ u. u.cmds)
  pub strs : AddsTo f (λ u. u.strs)
  pub params : AddsTo f (λ u. u.params)
  pub kvs : AddsTo f (λ u. u.kvs)
  pub rows : ℕ
  pub blocks : (u : Uses) → (f u).blocks ≡ rows + u.blocks

module _ (f : Uses → Uses) (pool : Uses → List ℕ) where
  AddsTo-none : ((u : Uses) → pool (f u) ≡ pool u) → AddsTo f pool
  AddsTo-none h = record {
    many = 0;
    often = λ a. 0;
    length_added = λ u. rw (h u) (omega arith);
    occurs_added = λ u a. rw (h u) (omega arith);
  }

  AddsTo-one : (b : ℕ) → ((u : Uses) → pool (f u) ≡ b ∷ pool u) → AddsTo f pool
  AddsTo-one b h = record {
    many = 1;
    often = λ a. occurs a (b ∷ []);
    length_added = λ u. rw (h u) (omega arith);
    occurs_added = λ u a. rw (h u) (omega arith);
  }

AddsTo-after :
    (f g : Uses → Uses) (pool : Uses → List ℕ)
    → AddsTo f pool
    → AddsTo g pool
    → AddsTo (λ u. f (g u)) pool
AddsTo-after f g pool h k = record {
  many = h.many + k.many;
  often = λ a. h.often a + k.often a;
  length_added = λ u. omega (arith, h.length_added (g u), k.length_added u);
  occurs_added = λ u a. omega (arith, h.occurs_added (g u) a, k.occurs_added u a);
}

pub Adds-after : (f g : Uses → Uses) → Adds f → Adds g → Adds (λ u. f (g u))
Adds-after f g h k = record {
  msgs = AddsTo-after f g (λ u. u.msgs) h.msgs k.msgs;
  cmds = AddsTo-after f g (λ u. u.cmds) h.cmds k.cmds;
  strs = AddsTo-after f g (λ u. u.strs) h.strs k.strs;
  params = AddsTo-after f g (λ u. u.params) h.params k.params;
  kvs = AddsTo-after f g (λ u. u.kvs) h.kvs k.kvs;
  rows = h.rows + k.rows;
  blocks = λ u. omega (arith, h.blocks (g u), k.blocks u);
}

pub Adds-id : Adds (λ u. u)
Adds-id = record {
  msgs = AddsTo-none (λ u. u) (λ u. u.msgs) (λ u. refl);
  cmds = AddsTo-none (λ u. u) (λ u. u.cmds) (λ u. refl);
  strs = AddsTo-none (λ u. u) (λ u. u.strs) (λ u. refl);
  params = AddsTo-none (λ u. u) (λ u. u.params) (λ u. refl);
  kvs = AddsTo-none (λ u. u) (λ u. u.kvs) (λ u. refl);
  rows = 0;
  blocks = λ u. omega arith;
}

pub Adds-with_row : Adds with_row
Adds-with_row = record {
  msgs = AddsTo-none with_row (λ u. u.msgs) (λ u. refl);
  cmds = AddsTo-none with_row (λ u. u.cmds) (λ u. refl);
  strs = AddsTo-none with_row (λ u. u.strs) (λ u. refl);
  params = AddsTo-none with_row (λ u. u.params) (λ u. refl);
  kvs = AddsTo-none with_row (λ u. u.kvs) (λ u. refl);
  rows = 1;
  blocks = λ u. omega arith;
}

-- One object of each pool, taken alone.
abbrev with_msg : ℕ → Uses → Uses
with_msg a u = record u { msgs = a ∷ u.msgs }

abbrev with_cmd : ℕ → Uses → Uses
with_cmd a u = record u { cmds = a ∷ u.cmds }

abbrev with_str : ℕ → Uses → Uses
with_str a u = record u { strs = a ∷ u.strs }

abbrev with_param : ℕ → Uses → Uses
with_param a u = record u { params = a ∷ u.params }

abbrev with_kv : ℕ → Uses → Uses
with_kv a u = record u { kvs = a ∷ u.kvs }

Adds-with_msg : (b : ℕ) → Adds (with_msg b)
Adds-with_msg b = record {
  msgs = AddsTo-one (with_msg b) (λ u. u.msgs) b (λ u. refl);
  cmds = AddsTo-none (with_msg b) (λ u. u.cmds) (λ u. refl);
  strs = AddsTo-none (with_msg b) (λ u. u.strs) (λ u. refl);
  params = AddsTo-none (with_msg b) (λ u. u.params) (λ u. refl);
  kvs = AddsTo-none (with_msg b) (λ u. u.kvs) (λ u. refl);
  rows = 0;
  blocks = λ u. omega arith;
}

Adds-with_cmd : (b : ℕ) → Adds (with_cmd b)
Adds-with_cmd b = record {
  msgs = AddsTo-none (with_cmd b) (λ u. u.msgs) (λ u. refl);
  cmds = AddsTo-one (with_cmd b) (λ u. u.cmds) b (λ u. refl);
  strs = AddsTo-none (with_cmd b) (λ u. u.strs) (λ u. refl);
  params = AddsTo-none (with_cmd b) (λ u. u.params) (λ u. refl);
  kvs = AddsTo-none (with_cmd b) (λ u. u.kvs) (λ u. refl);
  rows = 0;
  blocks = λ u. omega arith;
}

Adds-with_str : (b : ℕ) → Adds (with_str b)
Adds-with_str b = record {
  msgs = AddsTo-none (with_str b) (λ u. u.msgs) (λ u. refl);
  cmds = AddsTo-none (with_str b) (λ u. u.cmds) (λ u. refl);
  strs = AddsTo-one (with_str b) (λ u. u.strs) b (λ u. refl);
  params = AddsTo-none (with_str b) (λ u. u.params) (λ u. refl);
  kvs = AddsTo-none (with_str b) (λ u. u.kvs) (λ u. refl);
  rows = 0;
  blocks = λ u. omega arith;
}

Adds-with_param : (b : ℕ) → Adds (with_param b)
Adds-with_param b = record {
  msgs = AddsTo-none (with_param b) (λ u. u.msgs) (λ u. refl);
  cmds = AddsTo-none (with_param b) (λ u. u.cmds) (λ u. refl);
  strs = AddsTo-none (with_param b) (λ u. u.strs) (λ u. refl);
  params = AddsTo-one (with_param b) (λ u. u.params) b (λ u. refl);
  kvs = AddsTo-none (with_param b) (λ u. u.kvs) (λ u. refl);
  rows = 0;
  blocks = λ u. omega arith;
}

Adds-with_kv : (b : ℕ) → Adds (with_kv b)
Adds-with_kv b = record {
  msgs = AddsTo-none (with_kv b) (λ u. u.msgs) (λ u. refl);
  cmds = AddsTo-none (with_kv b) (λ u. u.cmds) (λ u. refl);
  strs = AddsTo-none (with_kv b) (λ u. u.strs) (λ u. refl);
  params = AddsTo-none (with_kv b) (λ u. u.params) (λ u. refl);
  kvs = AddsTo-one (with_kv b) (λ u. u.kvs) b (λ u. refl);
  rows = 0;
  blocks = λ u. omega arith;
}

Adds-uses_value : (v : Value) → Adds (uses_value v)
Adds-uses_value (string s) = Adds-with_str s.addr
Adds-uses_value (key_value addr key value) =
    Adds-after (with_kv addr) (λ u. with_str key.addr (with_str value.addr u)) (Adds-with_kv addr)
      (Adds-after (with_str key.addr) (with_str value.addr) (Adds-with_str key.addr)
        (Adds-with_str value.addr))

Adds-uses_params : (params : List Param) → Adds (uses_params params)
Adds-uses_params [] = Adds-id
Adds-uses_params (p ∷ params) =
    let own =
      Adds-after (uses_value p.value) (λ u. with_row (with_param p.addr u))
        (Adds-uses_value p.value)
        (Adds-after with_row (with_param p.addr) Adds-with_row (Adds-with_param p.addr)) in
    Adds-after (uses_param p) (uses_params params) own (Adds-uses_params params)

Adds-uses_cmd : (c : Option Cmd) → Adds (uses_cmd c)
Adds-uses_cmd none = Adds-id
Adds-uses_cmd (some c) =
    Adds-after with_row (λ u. with_cmd c.addr (with_str c.name.addr u)) Adds-with_row
      (Adds-after (with_cmd c.addr) (with_str c.name.addr) (Adds-with_cmd c.addr)
        (Adds-with_str c.name.addr))

pub Adds-uses_maybe : (m : Option Msg) → Adds (uses_maybe m)
Adds-uses_maybe none = Adds-id
Adds-uses_maybe (some m) =
    Adds-after (uses_params m.params) (λ u. uses_cmd m.cmd (with_msg m.addr u))
      (Adds-uses_params m.params)
      (Adds-after (uses_cmd m.cmd) (with_msg m.addr) (Adds-uses_cmd m.cmd) (Adds-with_msg m.addr))

module _ (f g : Uses → Uses) (pool : Uses → List ℕ) (h : AddsTo f pool) (k : AddsTo g pool)
    (u : Uses) where
  AddsTo-swap :
      (length (pool (f (g u))) ≡ length (pool (g (f u))))
      × ((a : ℕ) → occurs a (pool (f (g u))) ≡ occurs a (pool (g (f u))))
  AddsTo-swap = (
    omega (arith, h.length_added (g u), k.length_added u, k.length_added (f u), h.length_added u),
    λ a. omega (
      arith,
      h.occurs_added (g u) a,
      k.occurs_added u a,
      k.occurs_added (f u) a,
      h.occurs_added u a,
    ),
  )

-- Two that each hold their own may be told in either order.
pub Adds-swap : (f g : Uses → Uses) → Adds f → Adds g → (u : Uses) → Same (f (g u)) (g (f u))
Adds-swap f g h k u = record {
  msgs = AddsTo-swap f g (λ u. u.msgs) h.msgs k.msgs u;
  cmds = AddsTo-swap f g (λ u. u.cmds) h.cmds k.cmds u;
  strs = AddsTo-swap f g (λ u. u.strs) h.strs k.strs u;
  params = AddsTo-swap f g (λ u. u.params) h.params k.params u;
  kvs = AddsTo-swap f g (λ u. u.kvs) h.kvs k.kvs u;
  blocks = omega (arith, h.blocks (g u), k.blocks u, k.blocks (f u), h.blocks u);
}

module _ (f : Uses → Uses) (pool : Uses → List ℕ) (h : AddsTo f pool) (u v : Uses) where
  AddsTo-keeps :
      (length (pool u) ≡ length (pool v)) × ((a : ℕ) → occurs a (pool u) ≡ occurs a (pool v))
      → (length (pool (f u)) ≡ length (pool (f v)))
        × ((a : ℕ) → occurs a (pool (f u)) ≡ occurs a (pool (f v)))
  AddsTo-keeps s = (
    omega (arith, h.length_added u, h.length_added v, s.0),
    λ a. omega (arith, h.occurs_added u a, h.occurs_added v a, s.1 a),
  )

pub Adds-keeps : (f : Uses → Uses) → Adds f → (u v : Uses) → Same u v → Same (f u) (f v)
Adds-keeps f h u v s = record {
  msgs = AddsTo-keeps f (λ u. u.msgs) h.msgs u v s.msgs;
  cmds = AddsTo-keeps f (λ u. u.cmds) h.cmds u v s.cmds;
  strs = AddsTo-keeps f (λ u. u.strs) h.strs u v s.strs;
  params = AddsTo-keeps f (λ u. u.params) h.params u v s.params;
  kvs = AddsTo-keeps f (λ u. u.kvs) h.kvs u v s.kvs;
  blocks = omega (arith, h.blocks u, h.blocks v, s.blocks);
}
