-- ===== src/Setting/KeyFile.antt =====
-- `GKeyFile` of glib, as far as src/setting.c uses it.
use ketamarouter.Base.{
  ℕ, ◌^◌, ◌<◌, ◌≤◌, ◌≡◌, ◌≢◌, Bool, true, false, ◌&&◌, ◌||◌, Option, some, [], ◌∷◌, ◌==◌, Bytes,
  All,
}
use ketamarouter.Base.Int.{ℤ, pos}
use ketamarouter.Base.Decimal.{print_nat}

-- `none` is FALSE of `load_from_file`, and NULL of `get_string`.
pub record KeyFileOps (T : Type 0) : Type 0 where
  pub new : T
  pub load_from_file : T → Bytes → Option T
  pub has_group : T → Bytes → Bool
  pub has_key : T → Bytes → Bytes → Bool
  pub set_value : T → Bytes → Bytes → Bytes → T
  pub get_integer : T → Bytes → Bytes → ℤ
  pub get_int64 : T → Bytes → Bytes → ℤ
  pub get_string : T → Bytes → Bytes → Option Bytes

abbrev pub eq_bytes : Bytes → Bytes → Bool
eq_bytes [] [] = true
eq_bytes [] (c ∷ b) = false
eq_bytes (c ∷ a) [] = false
eq_bytes (c ∷ a) (d ∷ b) = (c == d) && eq_bytes a b

-- One key of one group.
abbrev pub same_key : Bytes → Bytes → Bytes → Bytes → Bool
same_key group key group' key' = eq_bytes group group' && eq_bytes key key'

-- A text that `g_key_file_get_string` reads as it stands: visible bytes, no escape.
abbrev pub IsWord : Bytes → Type 0
IsWord = All (λ c. (33 ≤ c) × (c < 127) × (c ≢ b'\\'))

-- What glib documents of `g_key_file_set_value`: the key is there then, its value is read as the number
-- or the text that it spells, and no other key is concerned.
pub record IsKeyFile {T : Type 0} (ops : KeyFileOps T) : Type 0 where
  pub has_key_set :
      (t : T) (g k v g' k' : Bytes)
      → ops.has_key (ops.set_value t g k v) g' k' ≡ (same_key g k g' k' || ops.has_key t g' k')
  pub integer_set :
      (t : T) (g k : Bytes) (n : ℕ)
      → n < 2 ^ 31
      → ops.get_integer (ops.set_value t g k (print_nat n)) g k ≡ pos n
  pub integer_other :
      (t : T) (g k v g' k' : Bytes)
      → same_key g k g' k' ≡ false
      → ops.get_integer (ops.set_value t g k v) g' k' ≡ ops.get_integer t g' k'
  pub int64_set :
      (t : T) (g k : Bytes) (n : ℕ)
      → n < 2 ^ 63
      → ops.get_int64 (ops.set_value t g k (print_nat n)) g k ≡ pos n
  pub int64_other :
      (t : T) (g k v g' k' : Bytes)
      → same_key g k g' k' ≡ false
      → ops.get_int64 (ops.set_value t g k v) g' k' ≡ ops.get_int64 t g' k'
  pub string_set :
      (t : T) (g k v : Bytes) → IsWord v → ops.get_string (ops.set_value t g k v) g k ≡ some v
  pub string_other :
      (t : T) (g k v g' k' : Bytes)
      → same_key g k g' k' ≡ false
      → ops.get_string (ops.set_value t g k v) g' k' ≡ ops.get_string t g' k'
