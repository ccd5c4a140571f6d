-- ===== src/Str/Equal.antt =====
-- `str_equal` and `str_hash`, as a glib hash table uses them.
mod Tests
use ketamarouter.Base.{
  ℕ, zero, suc, ◌+◌, ◌*◌, ◌%◌, ◌≡◌, ◌≤◌, ◌∙◌, sym, ap, length, drop, get_or, some, ◌↔◌, refl, true,
  [], ◌∷◌, arith, ◌==◌, Bytes, take, u32, Bool-cases, ==_iff, inl, inr,
}
use ketamarouter.Str.{Str, strncmp_eq, str_equal, hash_loop, str_hash, hash_step}

-- The text of a string: its first `len` bytes.
abbrev pub text_of : Str → Bytes
text_of str = take str.len str.text

pub strncmp_eq→take : (n : ℕ) (a b : Bytes) → strncmp_eq n a b ≡ true → take n a ≡ take n b
unfolding strncmp_eq
strncmp_eq→take zero a b h = refl
strncmp_eq→take (suc n) [] [] h = refl
strncmp_eq→take (suc n) [] (c ∷ b) h = cc
strncmp_eq→take (suc n) (c ∷ a) [] h = cc
strncmp_eq→take (suc n) (c ∷ a) (d ∷ b) h = ground (arith, strncmp_eq→take n a b)

pub take→strncmp_eq : (n : ℕ) (a b : Bytes) → take n a ≡ take n b → strncmp_eq n a b ≡ true
unfolding strncmp_eq
take→strncmp_eq zero a b h = refl
take→strncmp_eq (suc n) [] [] h = refl
take→strncmp_eq (suc n) [] (c ∷ b) h = cc
take→strncmp_eq (suc n) (c ∷ a) [] h = cc
take→strncmp_eq (suc n) (c ∷ a) (d ∷ b) h = ground (arith, take→strncmp_eq n a b)

-- Texts that begin with the same `n` bytes, and have as many.
hash_loop-take :
    (h n : ℕ) (a b : Bytes)
    → n ≤ length a
    → take n a ≡ take n b
    → (r : ℕ) × (hash_loop h n a ≡ some r) × (hash_loop h n b ≡ some r)
unfolding hash_loop
hash_loop-take h zero a b le e = (h, refl, refl)
hash_loop-take h (suc n) [] b le e = absurd (omega (arith, le))
hash_loop-take h (suc n) (c ∷ a) [] le e = cc
hash_loop-take h (suc n) (c ∷ a) (d ∷ b) le e =
    let first : c ≡ d = ap (λ l. get_or l 0 0) e in
    let rest : take n a ≡ take n b = ap (drop 1) e in
    let (r, l, m) = hash_loop-take (hash_step h c) n a b (omega (arith, le)) rest in
    (r, l, ap (λ x. hash_loop (hash_step h x) n b) (sym first) ∙ m)

-- Two strings are equal exactly when they have one length and one text.
pub str_equal_iff :
    (a b : Str) → (str_equal a b ≡ true) ↔ ((a.len ≡ b.len) × (text_of a ≡ text_of b))
unfolding str_equal
str_equal_iff a b = (
  λ h. split h,
  λ h. rw (h.0, (==_iff b.len b.len).1 refl) (take→strncmp_eq b.len a.text b.text (rw h.0 at h.1)),
)
  where
    split : str_equal a b ≡ true → (a.len ≡ b.len) × (text_of a ≡ text_of b)
    split h = elim (Bool-cases (a.len == b.len)) [
      | inl e ↦
          let n : a.len ≡ b.len = (==_iff a.len b.len).0 e in
          (n, rw n (strncmp_eq→take b.len a.text b.text (rw (e, n) at h)))
      | inr ne ↦ cc (rw ne at h)
    ]

-- Equal strings have one hash, where one of them is not longer than its text up to the first NUL byte;
-- no memory behind the text of either is read then.
pub str_equal→str_hash :
    (a b : Str)
    → a.len ≤ length a.text
    → str_equal a b ≡ true
    → (h : ℕ) × (str_hash a ≡ some h) × (str_hash b ≡ some h)
unfolding str_hash
str_equal→str_hash a b le h =
    let (n, t) = (str_equal_iff a b).0 h in
    let same : take a.len a.text ≡ take a.len b.text = t ∙ ap (λ l. take l b.text) (sym n) in
    let (r, e, f) = hash_loop-take 5381 a.len a.text b.text le same in
    (r, e, ap (λ l. hash_loop 5381 l b.text) (sym n) ∙ f)
