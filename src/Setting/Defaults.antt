-- ===== src/Setting/Defaults.antt =====
-- The options that `setting_check_mandatory` fills in.
use ketamarouter.Base.{
  ℕ, ◌^◌, ◌<◌, ◌≡◌, refl, ◌∙◌, inl, inr, Bool, false, ◌&&◌, none, some, List, [], ◌∷◌,
  if◌then◌else◌, Bytes, codes, Bool-cases,
}
use ketamarouter.Base.Int.{pos}
use ketamarouter.Base.Decimal.{print_nat}
use ketamarouter.Setting.KeyFile.{KeyFileOps, IsKeyFile, same_key, IsWord}
use ketamarouter.Setting.{
  global, cluster, Opt, optional, port_option, qps_option, workers_option, connections_option,
  level_option, check_groups, check_option, check_options, setting_check_mandatory,
}

module _ {T : Type 0} (ops : KeyFileOps T) where
  -- The groups and the option that must be there.
  abbrev pub complete : T → Bool
  complete ini =
      ops.has_group ini global && ops.has_group ini cluster && ops.has_key ini global (codes "port")

  -- The four options that may be missing, one after the other.
  abbrev pub with_default : Bytes → Bytes → T → T
  with_default key defval ini =
      if ops.has_key ini global key then ini else ops.set_value ini global key defval

  abbrev pub filled : T → T
  filled ini = with_default (codes "log-level") (codes "warn") (
      with_default (codes "max-connections") (codes "10000") (
        with_default (codes "number-of-workers") (codes "4")
          (with_default (codes "qps-queue-seconds") (codes "10") ini)))

  abbrev rest_options : List Opt
  rest_options = qps_option ∷ workers_option ∷ connections_option ∷ level_option ∷ []

  check_optional :
      (ini : T) (key defval : Bytes) (opts : List Opt)
      → check_options ops ini (optional key defval ∷ opts)
        ≡ check_options ops (with_default key defval ini) opts
  unfolding check_options check_option
  check_optional ini key defval opts = elim (Bool-cases (ops.has_key ini global key)) [
    | inl t ↦ rw (t, check_options, check_option) refl
    | inr f ↦ rw (f, check_options, check_option) refl
  ]

  check_port :
      (ini : T) (opts : List Opt)
      → check_options ops ini (port_option ∷ opts)
        ≡ (if ops.has_key ini global (codes "port") then check_options ops ini opts else none)
  unfolding check_options check_option
  check_port ini opts = elim (Bool-cases (ops.has_key ini global (codes "port"))) [
    | inl t ↦ rw (t, check_options, check_option) refl
    | inr f ↦ rw (f, check_options, check_option) refl
  ]

  check_rest : (ini : T) → check_options ops ini rest_options ≡ some (filled ini)
  unfolding check_options
  check_rest ini =
      let a = with_default (codes "qps-queue-seconds") (codes "10") ini in
      let b = with_default (codes "number-of-workers") (codes "4") a in
      let c = with_default (codes "max-connections") (codes "10000") b in
      check_optional ini (codes "qps-queue-seconds") (codes "10")
        (workers_option ∷ connections_option ∷ level_option ∷ [])
      ∙ check_optional a (codes "number-of-workers") (codes "4")
          (connections_option ∷ level_option ∷ [])
      ∙ check_optional b (codes "max-connections") (codes "10000") (level_option ∷ [])
      ∙ check_optional c (codes "log-level") (codes "warn") []

  pub check_mandatory_lem :
      (ini : T)
      → setting_check_mandatory ops ini ≡ (if complete ini then some (filled ini) else none)
  unfolding setting_check_mandatory check_groups
  check_mandatory_lem ini = elim (Bool-cases (ops.has_group ini global)) [
    | inr f ↦ rw (f, setting_check_mandatory, check_groups) refl
    | inl t ↦ elim (Bool-cases (ops.has_group ini cluster)) [
      | inr f ↦ rw (t, setting_check_mandatory, check_groups, f) refl
      | inl c ↦
          rw
            (
              t,
              setting_check_mandatory,
              check_groups,
              c,
              check_port ini rest_options,
              check_rest ini,
            )
            refl
    ]
  ]

module _ {T : Type 0} (ops : KeyFileOps T) (laws : IsKeyFile ops) where
  -- An option that is not given has its default, and the others are kept.
  module _ (ini : T) (key defval key' : Bytes)
      (differ : same_key global key global key' ≡ false) where
    pub other_has :
        ops.has_key (with_default ops key defval ini) global key' ≡ ops.has_key ini global key'
    other_has = elim (Bool-cases (ops.has_key ini global key)) [
      | inl t ↦ rw t refl
      | inr f ↦ rw f (laws.has_key_set ini global key defval global key' ∙ rw differ refl)
    ]

    pub other_integer :
        ops.get_integer (with_default ops key defval ini) global key'
        ≡ ops.get_integer ini global key'
    other_integer = elim (Bool-cases (ops.has_key ini global key)) [
      | inl t ↦ rw t refl
      | inr f ↦ rw f (laws.integer_other ini global key defval global key' differ)
    ]

    pub other_int64 :
        ops.get_int64 (with_default ops key defval ini) global key' ≡ ops.get_int64 ini global key'
    other_int64 = elim (Bool-cases (ops.has_key ini global key)) [
      | inl t ↦ rw t refl
      | inr f ↦ rw f (laws.int64_other ini global key defval global key' differ)
    ]

    pub other_string :
        ops.get_string (with_default ops key defval ini) global key'
        ≡ ops.get_string ini global key'
    other_string = elim (Bool-cases (ops.has_key ini global key)) [
      | inl t ↦ rw t refl
      | inr f ↦ rw f (laws.string_other ini global key defval global key' differ)
    ]

  pub own_integer :
      (ini : T) (key : Bytes) (n : ℕ)
      → n < 2 ^ 31
      → ops.get_integer (with_default ops key (print_nat n) ini) global key
        ≡ (if ops.has_key ini global key then ops.get_integer ini global key else pos n)
  own_integer ini key n lt = elim (Bool-cases (ops.has_key ini global key)) [
    | inl t ↦ rw t refl
    | inr f ↦ rw f (laws.integer_set ini global key n lt)
  ]

  pub own_int64 :
      (ini : T) (key : Bytes) (n : ℕ)
      → n < 2 ^ 63
      → ops.get_int64 (with_default ops key (print_nat n) ini) global key
        ≡ (if ops.has_key ini global key then ops.get_int64 ini global key else pos n)
  own_int64 ini key n lt = elim (Bool-cases (ops.has_key ini global key)) [
    | inl t ↦ rw t refl
    | inr f ↦ rw f (laws.int64_set ini global key n lt)
  ]

  pub own_string :
      (ini : T) (key word : Bytes)
      → IsWord word
      → ops.get_string (with_default ops key word ini) global key
        ≡ (if ops.has_key ini global key then ops.get_string ini global key else some word)
  own_string ini key word h = elim (Bool-cases (ops.has_key ini global key)) [
    | inl t ↦ rw t refl
    | inr f ↦ rw f (laws.string_set ini global key word h)
  ]
