-- ===== src/Str/Equal/Tests.antt =====
-- Two texts, and each theorem of strings at them.
use ketamarouter.Base.{ℕ, some, arith, ◌≡◌, ◌↔◌, refl, true, codes}
use ketamarouter.Str.{Str, borrowed, allocated, str_equal, str_hash, hash_loop, strncmp_eq}
use ketamarouter.Str.Equal.{text_of, str_equal_iff, str_equal→str_hash}

-- The name in a row, which goes on behind it, and the name alone.
abbrev in_row : Str
in_row = record { addr = 1; type = borrowed; text = codes "GET 1"; len = 3 }

abbrev alone : Str
alone = record { addr = 2; type = allocated; text = codes "GET"; len = 3 }

hash_of_get : str_hash alone ≡ some 193456677
unfolding str_hash hash_loop
hash_of_get = refl

str_equal_iff_example :
    (str_equal in_row alone ≡ true) ↔ ((in_row.len ≡ alone.len) × (text_of in_row ≡ text_of alone))
str_equal_iff_example = str_equal_iff in_row alone

str_equal→str_hash_example : (h : ℕ) × (str_hash in_row ≡ some h) × (str_hash alone ≡ some h)
unfolding str_equal strncmp_eq
str_equal→str_hash_example = str_equal→str_hash in_row alone (omega arith) refl
