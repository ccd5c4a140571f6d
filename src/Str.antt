-- ===== src/Str.antt =====
-- src/str.h and src/str.c: strings with a length, from a pool or from `malloc`, and the two functions
-- that a glib hash table calls on them. `text` is `data`, the memory at the pointer up to its NUL byte.
-- `blocks` counts the blocks of `malloc` that are live.
pub mod Equal
use ketamarouter.Base.{
  ℕ, zero, suc, ◌+◌, ◌-◌, ◌*◌, ◌%◌, ◌≡◌, Bool, true, false, List, [], ◌∷◌, ltb, ◌==◌, if◌then◌else◌,
  Bytes, take, u32, arith, Option, none, some,
}
use ketamarouter.Pabuf.{Pabuf, pabuf_get, pabuf_return_back}

pub data StrType : Type 0 where
  borrowed allocated : StrType

-- `addr` is the address of the `str_t`.
pub record Str : Type 0 where
  pub addr : ℕ
  pub type : StrType
  pub text : Bytes
  pub len : ℕ

-- `_bstr_init`.
unfoldable pub init_in : Pabuf → StrType → Bytes → ℕ → Str × Pabuf
init_in pool type text len =
    let (addr, pool') = pabuf_get pool in
    (record { addr = addr; type = type; text = text; len = len }, pool')

unfoldable pub bstr_init : Pabuf → Bytes → ℕ → Str × Pabuf
unfolding init_in
bstr_init pool text len = init_in pool borrowed text len

unfoldable pub bstr_init_alloc : Pabuf → ℕ → Bytes → ℕ → Str × Pabuf × ℕ
unfolding init_in
bstr_init_alloc pool blocks text len =
    let (str, pool') = init_in pool allocated (take len text) len in (str, pool', blocks + 1)

-- The pool and the live blocks after the string is given back.
unfoldable pub bstr_free : Pabuf → ℕ → Str → Pabuf × ℕ
bstr_free pool blocks str =
    (pabuf_return_back pool str.addr, elim str.type [ allocated ↦ blocks - 1 | borrowed ↦ blocks ])

-- `_str_init`, at the address `addr` that `malloc` returns.
abbrev pub str_at : ℕ → StrType → Bytes → ℕ → Str
str_at addr type text len = record { addr = addr; type = type; text = text; len = len }

unfoldable pub str_init : ℕ → ℕ → Bytes → ℕ → Str × ℕ
str_init addr blocks text len = (str_at addr borrowed text len, blocks + 1)

unfoldable pub str_init_alloc : ℕ → ℕ → Bytes → ℕ → Str × ℕ
str_init_alloc addr blocks text len = (str_at addr allocated (take len text) len, blocks + 2)

unfoldable pub str_free : ℕ → Str → ℕ
str_free blocks str = elim str.type [ allocated ↦ blocks - 2 | borrowed ↦ blocks - 1 ]

-- `strncmp(a, b, n) == 0`.
unfoldable pub strncmp_eq : ℕ → Bytes → Bytes → Bool
strncmp_eq zero a b = true
strncmp_eq (suc n) [] [] = true
strncmp_eq (suc n) [] (c ∷ b) = false
strncmp_eq (suc n) (c ∷ a) [] = false
strncmp_eq (suc n) (c ∷ a) (d ∷ b) = let rest = strncmp_eq n a b in if c == d then rest else false

unfoldable pub str_equal : Str → Str → Bool
str_equal a b = if a.len == b.len then strncmp_eq a.len a.text b.text else false

-- A `signed char`, added to a `guint32`.
abbrev pub sign_extend : ℕ → ℕ
sign_extend c = if ltb c 128 then c else c + u32 - 256

abbrev pub hash_step : ℕ → ℕ → ℕ
hash_step h c = (h * 32 % u32 + h + sign_extend c) % u32

-- The loop has no test for the NUL byte: it reads that byte behind the text, and `none` stands for a
-- read of what follows it, which the text does not tell.
unfoldable pub hash_loop : ℕ → ℕ → Bytes → Option ℕ
hash_loop h zero text = some h
hash_loop h (suc zero) [] = some (hash_step h 0)
hash_loop h (suc (suc n)) [] = none
hash_loop h (suc n) (c ∷ text) = hash_loop (hash_step h c) n text

unfoldable pub str_hash : Str → Option ℕ
str_hash str = hash_loop 5381 str.len str.text
