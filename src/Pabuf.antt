-- ===== src/Pabuf.antt =====
-- src/pabuf.h and src/pabuf.c: a pool that keeps released objects for the next request. The build
-- sets PABUF_NOLOCK, so there is no lock.
--
-- A pointer is a number, and NULL is 0. `fresh` stands for the allocator: the address that the next
-- `calloc` returns. `fault` is set where the code reads through a NULL list head, which is undefined.
pub mod Owns
pub mod Get
pub mod Back
mod Tests
use ketamarouter.Base.{
  ℕ, zero, suc, ◌+◌, ◌-◌, ◌*◌, ◌%◌, ◌≤◌, ◌≡◌, Bool, true, false, List, [], ◌∷◌, arith, ltb, leb,
  ◌==◌, if◌then◌else◌, u32, u64,
}

pub record Shell : Type 0 where
  pub addr : ℕ
  pub obj : ℕ

-- The lists that start at `first` and at `first_eshell`.
pub record Pabuf : Type 0 where
  pub obj_size : ℕ
  pub memory : ℕ
  pub shell_memory : ℕ
  pub count : ℕ
  pub max_remain_count : ℕ
  pub max_eshell_count : ℕ
  pub remain_count : ℕ
  pub eshell_count : ℕ
  pub first : List Shell
  pub first_eshell : List Shell
  pub fresh : ℕ
  pub fault : Bool

abbrev pub null : ℕ
null = 0

-- `sizeof(pabuf_shell_t)`: two pointers.
abbrev pub shell_size : ℕ
shell_size = 16

-- `x++`, `x--`, `x += n` and `x -= n` on `uint32_t` and `size_t`.
abbrev pub inc32 : ℕ → ℕ
inc32 x = (x + 1) % u32

abbrev pub dec32 : ℕ → ℕ
dec32 x = (x + u32 - 1) % u32

abbrev pub add64 : ℕ → ℕ → ℕ
add64 x n = (x + n) % u64

abbrev pub sub64 : ℕ → ℕ → ℕ
sub64 x n = (x + u64 - n) % u64

unfoldable pub pabuf_get_eshell : Pabuf → ℕ → Shell × Pabuf
pabuf_get_eshell p obj =
    if p.eshell_count == 0
    then (
      record { addr = p.fresh; obj = obj },
      record p { shell_memory = add64 p.shell_memory shell_size; fresh = p.fresh + 1 },
    )
    else elim p.first_eshell [
      | [] ↦ (record { addr = null; obj = obj }, record p { fault = true })
      | shell ∷ rest ↦ (
        record shell { obj = obj },
        record p { first_eshell = rest; eshell_count = dec32 p.eshell_count },
      )
    ]

unfoldable pub pabuf_back_eshell : Pabuf → Shell → Pabuf
pabuf_back_eshell p shell =
    if leb p.max_eshell_count p.eshell_count
    then record p { shell_memory = sub64 p.shell_memory shell_size }
    else record p {
      first_eshell = record shell { obj = null } ∷ p.first_eshell;
      eshell_count = inc32 p.eshell_count;
    }

-- The object, and the pool behind it.
unfoldable pub pabuf_get : Pabuf → ℕ × Pabuf
unfolding pabuf_back_eshell
pabuf_get p =
    if p.remain_count == 0
    then (
      p.fresh,
      record p { memory = add64 p.memory p.obj_size; count = inc32 p.count; fresh = p.fresh + 1 },
    )
    else elim p.first [
      | [] ↦ (null, record p { fault = true })
      | shell ∷ rest ↦ (
        shell.obj,
        let q = pabuf_back_eshell (record p { first = rest }) shell in
            record q { remain_count = dec32 q.remain_count },
      )
    ]

unfoldable pub pabuf_back : Pabuf → ℕ → Pabuf
unfolding pabuf_get_eshell
pabuf_back p obj =
    if leb p.max_remain_count p.remain_count
    then record p { memory = sub64 p.memory p.obj_size; count = dec32 p.count }
    else let (shell, q) = pabuf_get_eshell p obj in
      record q { first = shell ∷ q.first; remain_count = inc32 q.remain_count }

unfoldable pub pabuf_return_back : Pabuf → ℕ → Pabuf
unfolding pabuf_back
pabuf_return_back p obj = pabuf_back p obj

-- `_pabuf_init`, and the three calls of it.
unfoldable pub init_pabuf : ℕ → ℕ → ℕ → Pabuf
init_pabuf obj_size max_remain_count max_eshell_count = record {
  obj_size = obj_size;
  memory = 0;
  shell_memory = 0;
  count = 0;
  max_remain_count = max_remain_count;
  max_eshell_count = max_eshell_count;
  remain_count = 0;
  eshell_count = 0;
  first = [];
  first_eshell = [];
  fresh = 1;
  fault = false;
}

-- PABUF_DEFAULT_MAX_REMAIN_COUNT and PABUF_DEFAULT_MAX_ESHELL_COUNT.
abbrev pub default_max_count : ℕ
default_max_count = 1000

unfoldable pub pabuf_init : ℕ → Pabuf
unfolding init_pabuf
pabuf_init obj_size = init_pabuf obj_size default_max_count default_max_count

unfoldable pub pabuf_init2 : ℕ → ℕ → Pabuf
unfolding init_pabuf
pabuf_init2 obj_size max_remain_count = init_pabuf obj_size max_remain_count default_max_count

unfoldable pub pabuf_init3 : ℕ → ℕ → ℕ → Pabuf
unfolding init_pabuf
pabuf_init3 obj_size max_remain_count max_eshell_count =
    init_pabuf obj_size max_remain_count max_eshell_count
