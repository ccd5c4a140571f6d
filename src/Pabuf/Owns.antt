-- ===== src/Pabuf/Owns.antt =====
-- What the pool keeps track of, told by the list of objects that are out.
use ketamarouter.Base.{
  ℕ, ◌+◌, ◌*◌, ◌%◌, ◌≤◌, ◌<◌, ◌≡◌, refl, false, List, [], ◌∷◌, arith, ◌==◌, if◌then◌else◌, u32, u64,
  length,
}
use ketamarouter.Pabuf.{Shell, Pabuf, null, shell_size, pabuf_init}

-- How often an address occurs.
abbrev pub occurs : ℕ → List ℕ → ℕ
occurs a [] = 0
occurs a (b ∷ l) = (if a == b then 1 else 0) + occurs a l

abbrev pub occurs_in : ℕ → List Shell → ℕ
occurs_in a [] = 0
occurs_in a (s ∷ l) = (if a == s.obj then 1 else 0) + occurs_in a l

-- `used` are the objects that are out. Each is out or kept, never both nor twice; the counters agree
-- with the lists, up to the width of their types; and no NULL was read through.
pub record Owns (p : Pabuf) (used : List ℕ) : Type 0 where
  pub sized : p.obj_size < u64
  pub limited : (p.max_remain_count < u32) × (p.max_eshell_count < u32)
  pub remain : p.remain_count ≡ length p.first
  pub remain_bound : length p.first ≤ p.max_remain_count
  pub eshell : p.eshell_count ≡ length p.first_eshell
  pub eshell_bound : length p.first_eshell ≤ p.max_eshell_count
  pub counted : p.count ≡ (length used + length p.first) % u32
  pub measured : p.memory ≡ p.obj_size * (length used + length p.first) % u64
  pub shells : p.shell_memory ≡ shell_size * (length p.first + length p.first_eshell) % u64
  pub once : (a : ℕ) → occurs a used + occurs_in a p.first ≤ 1
  pub allocated : (a : ℕ) → p.fresh ≤ a → occurs a used + occurs_in a p.first ≡ 0
  pub nonnull : (0 < p.fresh) × (occurs null used + occurs_in null p.first ≡ 0)
  pub no_fault : p.fault ≡ false

-- A pool that has just been made owns nothing.
pub pabuf_init-Owns : (obj_size : ℕ) → obj_size < u64 → Owns (pabuf_init obj_size) []
unfolding pabuf_init
pabuf_init-Owns obj_size h = record {
  sized = h;
  limited = (omega arith, omega arith);
  remain = refl;
  remain_bound = omega arith;
  eshell = refl;
  eshell_bound = omega arith;
  counted = refl;
  measured = omega arith;
  shells = refl;
  once = λ a. omega arith;
  allocated = λ a h. refl;
  nonnull = (omega arith, refl);
  no_fault = refl;
}

-- What is out may be told in any order.
pub Owns-reorder :
    (p : Pabuf) (used used' : List ℕ)
    → Owns p used
    → length used ≡ length used'
    → ((a : ℕ) → occurs a used ≡ occurs a used')
    → Owns p used'
Owns-reorder p used used' o e h = record {
  sized = o.sized;
  limited = o.limited;
  remain = o.remain;
  remain_bound = o.remain_bound;
  eshell = o.eshell;
  eshell_bound = o.eshell_bound;
  counted = omega (arith, o.counted);
  measured = rw (← e) o.measured;
  shells = o.shells;
  once = λ a. omega (arith, o.once a, h a);
  allocated = λ a le. omega (arith, o.allocated a le, h a);
  nonnull = (o.nonnull.0, omega (arith, o.nonnull.1, h null));
  no_fault = o.no_fault;
}
