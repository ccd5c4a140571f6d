-- ===== src/Setting/Level.antt =====
-- `setting_get_log_level`, by the text of the option.
use ketamarouter.Base.{
  ℕ, ◌≡◌, ◌≢◌, ◌⊎◌, inl, inr, ◌↔◌, refl, true, false, [], ◌∷◌, Bytes, codes, take, length,
  Bool-cases, ap, arith, get_or,
}
use ketamarouter.Str.Equal.{strncmp_eq→take, take→strncmp_eq}
use ketamarouter.Logging.{
  debug, info, warn, err, name_of, log_debug_level, log_info_level, log_err_level, log_default,
}
use ketamarouter.Setting.{lower, strncasecmp_eq, level_of_text}

-- The first bytes, in any case, are those of the word.
abbrev pub Begins : Bytes → Bytes → Type 0
Begins word text = take (length word) (lower text) ≡ word

strncasecmp_eq_iff :
    (n : ℕ) (a b : Bytes) → (strncasecmp_eq n a b ≡ true) ↔ (take n (lower a) ≡ take n (lower b))
unfolding strncasecmp_eq
strncasecmp_eq_iff n a b =
    (strncmp_eq→take n (lower a) (lower b), take→strncmp_eq n (lower a) (lower b))

differs : (n : ℕ) (a b : Bytes) → strncasecmp_eq n a b ≡ false → take n (lower a) ≢ take n (lower b)
differs n a b f e = let t = (strncasecmp_eq_iff n a b).1 e in cc

not_error : (l : Bytes) → take 4 l ≡ codes "warn" → take 5 l ≢ codes "error"
not_error [] w e = cc
not_error (c ∷ l) w e =
    let first = λ (b : Bytes). get_or b 0 0 in
    let p : c ≡ 119 = ap first w in let q : c ≡ 101 = ap first e in absurd (omega arith)

-- A text that begins with debug, info or error, in any case, gives that level; any other gives warn,
-- which is the default.
pub level_of_text_lem :
    (lstr : Bytes)
    → (Begins (codes "debug") lstr × (level_of_text lstr ≡ log_debug_level))
      ⊎ ((Begins (codes "info") lstr × (level_of_text lstr ≡ log_info_level))
          ⊎ ((Begins (codes "error") lstr × (level_of_text lstr ≡ log_err_level))
              ⊎ (¬ Begins (codes "debug") lstr
                  × ¬ Begins (codes "info") lstr
                  × ¬ Begins (codes "error") lstr
                  × (level_of_text lstr ≡ log_default))))
unfolding level_of_text
level_of_text_lem lstr = elim (Bool-cases (strncasecmp_eq 5 lstr (name_of debug))) [
  | inl d ↦ inl ((strncasecmp_eq_iff 5 lstr (name_of debug)).0 d, rw (d, level_of_text) refl)
  | inr nd ↦ elim (Bool-cases (strncasecmp_eq 4 lstr (name_of info))) [
    | inl i ↦
        inr (inl ((strncasecmp_eq_iff 4 lstr (name_of info)).0 i, rw (nd, i, level_of_text) refl))
    | inr ni ↦ elim (Bool-cases (strncasecmp_eq 4 lstr (name_of warn))) [
      | inl w ↦ inr (
          inr (
            inr (
              differs 5 lstr (name_of debug) nd,
              differs 4 lstr (name_of info) ni,
              not_error (lower lstr) ((strncasecmp_eq_iff 4 lstr (name_of warn)).0 w),
              rw (nd, ni, w, level_of_text) refl,
            )))
      | inr nw ↦ elim (Bool-cases (strncasecmp_eq 5 lstr (name_of err))) [
        | inl e ↦ inr (
            inr (
              inl (
                (strncasecmp_eq_iff 5 lstr (name_of err)).0 e,
                rw (nd, ni, nw, e, level_of_text) refl,
              )))
        | inr ne ↦ inr (
            inr (
              inr (
                differs 5 lstr (name_of debug) nd,
                differs 4 lstr (name_of info) ni,
                differs 5 lstr (name_of err) ne,
                rw (nd, ni, nw, ne, level_of_text) refl,
              )))
      ]
    ]
  ]
]
