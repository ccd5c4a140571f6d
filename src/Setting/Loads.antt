-- ===== src/Setting/Loads.antt =====
-- What `setting_load` returns, and what the getters give then.
use ketamarouter.Base.{
  ℕ, ◌+◌, ◌≤◌, ◌<◌, ◌≡◌, ◌≢◌, refl, ap, ap₂, ◌∙◌, Bool, true, Option, some, ◌>>=◌, if◌then◌else◌,
  Bytes, codes, arith,
}
use ketamarouter.Base.Int.{pos}
use ketamarouter.Base.Decimal.{print_nat, print_digits}
use ketamarouter.Setting.KeyFile.{KeyFileOps, IsKeyFile, IsWord}
use ketamarouter.Setting.{
  Setting, Blocks, Loaded, failed, loaded, global, setting_load, setting_get_port,
  setting_get_qps_queue_seconds, setting_get_number_of_workers, setting_get_max_connections, to_u64,
  setting_get_log_level, level_of_text,
}
use ketamarouter.Setting.Defaults.{
  complete, with_default, filled, check_mandatory_lem, other_has, other_integer, other_int64,
  other_string, own_integer, own_int64, own_string,
}

abbrev key_port : Bytes
key_port = codes "port"

abbrev key_qps : Bytes
key_qps = codes "qps-queue-seconds"

abbrev key_workers : Bytes
key_workers = codes "number-of-workers"

abbrev key_connections : Bytes
key_connections = codes "max-connections"

abbrev key_level : Bytes
key_level = codes "log-level"

-- The level of a text that may be NULL.
abbrev pub maybe_level : Option Bytes → Option ℕ
maybe_level text = do lstr ← text; some (level_of_text lstr)

visible : (c : ℕ) → 33 ≤ c → c < 127 → c ≢ b'\\' → (33 ≤ c) × (c < 127) × (c ≢ b'\\')
visible c low high slash = (low, high, slash)

warn-IsWord : IsWord (codes "warn")
warn-IsWord = (
  visible 119 (omega arith) (omega arith) (omega arith),
  (
    visible 97 (omega arith) (omega arith) (omega arith),
    (
      visible 114 (omega arith) (omega arith) (omega arith),
      (visible 110 (omega arith) (omega arith) (omega arith), tt),
    ),
  ),
)

-- The blocks of a load that came to its end, and those that a load that failed leaves allocated.
abbrev pub allocated : Blocks → Blocks
allocated b = record {
  key_files = b.key_files + 1;
  settings = b.settings + 1;
  clusters = b.clusters + 1;
}

abbrev pub left_behind : Blocks → Blocks
left_behind b = record b { key_files = b.key_files + 1; clusters = b.clusters + 1 }

module _ {T : Type 0} (ops : KeyFileOps T) where
  -- The getters give what the file has, or the default of an option that it does not have.
  abbrev pub Gives : T → Setting T → Type 0
  Gives ini set =
      let has = ops.has_key ini global in
      (setting_get_port ops set ≡ some (ops.get_integer ini global key_port))
      × (setting_get_qps_queue_seconds ops set
          ≡ some (if has key_qps then ops.get_integer ini global key_qps else pos 10))
      × (setting_get_number_of_workers ops set
          ≡ some (if has key_workers then ops.get_integer ini global key_workers else pos 4))
      × (setting_get_max_connections ops set
          ≡ some (
              to_u64 (
                if has key_connections
                then ops.get_int64 ini global key_connections
                else pos 10000)))
      × (setting_get_log_level ops set
          ≡ maybe_level
              (if has key_level then ops.get_string ini global key_level else some (codes "warn")))

  abbrev with_qps : T → T
  with_qps ini = with_default ops key_qps (codes "10") ini

  abbrev with_workers : T → T
  with_workers ini = with_default ops key_workers (codes "4") ini

  abbrev with_connections : T → T
  with_connections ini = with_default ops key_connections (codes "10000") ini

module _ {T : Type 0} (ops : KeyFileOps T) (laws : IsKeyFile ops) where
  module _ (ini : T) where
    abbrev a : T
    a = with_qps ops ini

    abbrev b : T
    b = with_workers ops a

    abbrev c : T
    c = with_connections ops b

    port_kept :
        ops.get_integer (filled ops ini) global key_port ≡ ops.get_integer ini global key_port
    port_kept =
        other_integer ops laws c key_level (codes "warn") key_port refl
        ∙ other_integer ops laws b key_connections (codes "10000") key_port refl
        ∙ other_integer ops laws a key_workers (codes "4") key_port refl
        ∙ other_integer ops laws ini key_qps (codes "10") key_port refl

    qps_given :
        ops.get_integer (filled ops ini) global key_qps
        ≡ (if ops.has_key ini global key_qps then ops.get_integer ini global key_qps else pos 10)
    unfolding print_nat print_digits
    qps_given =
        other_integer ops laws c key_level (codes "warn") key_qps refl
        ∙ other_integer ops laws b key_connections (codes "10000") key_qps refl
        ∙ other_integer ops laws a key_workers (codes "4") key_qps refl
        ∙ own_integer ops laws ini key_qps 10 (omega arith)

    workers_given : ops.get_integer (filled ops ini) global key_workers ≡ (
        if ops.has_key ini global key_workers
        then ops.get_integer ini global key_workers
        else pos 4)
    unfolding print_nat print_digits
    workers_given =
        other_integer ops laws c key_level (codes "warn") key_workers refl
        ∙ other_integer ops laws b key_connections (codes "10000") key_workers refl
        ∙ own_integer ops laws a key_workers 4 (omega arith)
        ∙ ap₂ (λ h v. if h then v else pos 4)
            (other_has ops laws ini key_qps (codes "10") key_workers refl)
            (other_integer ops laws ini key_qps (codes "10") key_workers refl)

    connections_given : ops.get_int64 (filled ops ini) global key_connections ≡ (
        if ops.has_key ini global key_connections
        then ops.get_int64 ini global key_connections
        else pos 10000)
    unfolding print_nat print_digits
    connections_given =
        other_int64 ops laws c key_level (codes "warn") key_connections refl
        ∙ own_int64 ops laws b key_connections 10000 (omega arith)
        ∙ ap₂ (λ h v. if h then v else pos 10000)
            (other_has ops laws a key_workers (codes "4") key_connections refl
              ∙ other_has ops laws ini key_qps (codes "10") key_connections refl)
            (other_int64 ops laws a key_workers (codes "4") key_connections refl
              ∙ other_int64 ops laws ini key_qps (codes "10") key_connections refl)

    level_given : ops.get_string (filled ops ini) global key_level ≡ (
        if ops.has_key ini global key_level
        then ops.get_string ini global key_level
        else some (codes "warn"))
    level_given =
        own_string ops laws c key_level (codes "warn") warn-IsWord
        ∙ ap₂ (λ h v. if h then v else some (codes "warn"))
            (other_has ops laws b key_connections (codes "10000") key_level refl
              ∙ other_has ops laws a key_workers (codes "4") key_level refl
              ∙ other_has ops laws ini key_qps (codes "10") key_level refl)
            (other_string ops laws b key_connections (codes "10000") key_level refl
              ∙ other_string ops laws a key_workers (codes "4") key_level refl
              ∙ other_string ops laws ini key_qps (codes "10") key_level refl)

    filled-Gives : Gives ops ini (record { ini = some (filled ops ini) })
    unfolding setting_get_port setting_get_qps_queue_seconds setting_get_number_of_workers
        setting_get_max_connections setting_get_log_level
    filled-Gives = (
      ap some port_kept,
      ap some qps_given,
      ap some workers_given,
      ap (λ v. some (to_u64 v)) connections_given,
      ap maybe_level level_given,
    )

  failed_with : Blocks → ℕ → Loaded T × Blocks
  failed_with b settings = (
    failed,
    record b { key_files = b.key_files + 1; settings = settings; clusters = b.clusters + 1 },
  )

  -- A file that can be read, and that has what must be there.
  pub setting_load-loaded :
      (access : Bytes → Bool) (file : Bytes) (blocks : Blocks) (ini : T)
      → access file ≡ true
      → ops.load_from_file ops.new file ≡ some ini
      → complete ops ini ≡ true
      → (set : Setting T) × (setting_load ops access file blocks ≡ (loaded set, allocated blocks))
        × Gives ops ini set
  unfolding setting_load
  setting_load-loaded access file blocks ini t e full = (
    record { ini = some (filled ops ini) },
    rw (t, setting_load, e, check_mandatory_lem ops ini, full) refl,
    filled-Gives ini,
  )
