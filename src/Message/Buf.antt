-- ===== src/Message/Buf.antt =====
-- `msg_buf_t`, and computations that take objects from its pools.
use ketamarouter.Base.{ℕ, ◌+◌, ◌-◌, Bool, true, false, ltb, length, if◌then◌else◌, Bytes}
use ketamarouter.Pabuf.{Pabuf, pabuf_init, pabuf_get, pabuf_back}
use ketamarouter.Str.{Str, bstr_init, bstr_free}

-- `blocks` counts the blocks of `malloc` and `calloc` that hold a row and are live. `fault` is set
-- where the code would read through NULL or write past a block.
pub record MsgBuf : Type 0 where
  pub msg : Pabuf
  pub str : Pabuf
  pub cmd : Pabuf
  pub param : Pabuf
  pub param_kv : Pabuf
  pub data_pool : Pabuf
  pub blocks : ℕ
  pub fault : Bool

-- The sizes of the six types on a 64-bit machine.
unfoldable pub msg_buf_init : MsgBuf
msg_buf_init = record {
  msg = pabuf_init 48;
  str = pabuf_init 24;
  cmd = pabuf_init 24;
  param = pabuf_init 40;
  param_kv = pabuf_init 16;
  data_pool = pabuf_init 16;
  blocks = 0;
  fault = false;
}

abbrev pub State : Type 0 → Type 0
State A = MsgBuf → A × MsgBuf

abbrev pub pure : {A : Type 0} → A → State A
pure a b = (a, b)

infixl 5 ◌>>=◌ ◌>>◌
abbrev pub ◌>>=◌ : {A B : Type 0} → State A → (A → State B) → State B
◌>>=◌ m f b = f (m b).0 (m b).1

abbrev pub ◌>>◌ : {B : Type 0} → State (Unit {0}) → State B → State B
m >> k = m >>= λ _. k

-- `pabuf_get` and `pabuf_back` on each pool.
abbrev pub get_msg : State ℕ
get_msg b = ((pabuf_get b.msg).0, record b { msg = (pabuf_get b.msg).1 })

abbrev pub back_msg : ℕ → State (Unit {0})
back_msg obj b = (tt, record b { msg = pabuf_back b.msg obj })

abbrev pub get_cmd : State ℕ
get_cmd b = ((pabuf_get b.cmd).0, record b { cmd = (pabuf_get b.cmd).1 })

abbrev pub back_cmd : ℕ → State (Unit {0})
back_cmd obj b = (tt, record b { cmd = pabuf_back b.cmd obj })

abbrev pub get_param : State ℕ
get_param b = ((pabuf_get b.param).0, record b { param = (pabuf_get b.param).1 })

abbrev pub back_param : ℕ → State (Unit {0})
back_param obj b = (tt, record b { param = pabuf_back b.param obj })

abbrev pub get_kv : State ℕ
get_kv b = ((pabuf_get b.param_kv).0, record b { param_kv = (pabuf_get b.param_kv).1 })

abbrev pub back_kv : ℕ → State (Unit {0})
back_kv obj b = (tt, record b { param_kv = pabuf_back b.param_kv obj })

-- `bstr_init` and `bstr_free` on the pool of strings.
abbrev pub get_str : Bytes → ℕ → State Str
get_str text len b = ((bstr_init b.str text len).0, record b { str = (bstr_init b.str text len).1 })

abbrev pub back_str : Str → State (Unit {0})
back_str s b =
    (tt, record b { str = (bstr_free b.str b.blocks s).0; blocks = (bstr_free b.str b.blocks s).1 })

-- `free` of a row.
abbrev pub free_row : State (Unit {0})
free_row b = (tt, record b { blocks = b.blocks - 1 })

-- `calloc` of a block of `size` bytes and `sprintf` to it: the text and its NUL must fit.
abbrev pub sprintf : ℕ → Bytes → State Bytes
sprintf size text b = (
  text,
  record b { blocks = b.blocks + 1; fault = if ltb (length text) size then b.fault else true },
)

-- A read through NULL.
abbrev pub null_read : State (Unit {0})
null_read b = (tt, record b { fault = true })
