-- ===== src/Setting/Tests.antt =====
-- A key file that is a list of its options, the last one set first, with one that gives a port and a
-- level of the log.
use ketamarouter.Base.{
  ◌≡◌, refl, ap, ◌⊎◌, Bool, true, false, ◌||◌, Option, none, some, List, [], ◌∷◌, if◌then◌else◌,
  Bytes, codes, ==_iff, Bool-cases, inl, inr,
}
use ketamarouter.Base.Int.{ℤ, pos}
use ketamarouter.Base.Decimal.{scan_digits, scan-print_nat}
use ketamarouter.Setting.KeyFile.{KeyFileOps, IsKeyFile, eq_bytes, same_key}
use ketamarouter.Setting.{Setting, Blocks, level_of_text}
use ketamarouter.Setting.Level.{Begins, level_of_text_lem}

pub record Entry : Type 0 where
  pub group : Bytes
  pub key : Bytes
  pub value : Bytes

abbrev pub find : List Entry → Bytes → Bytes → Option Bytes
find [] g k = none
find (e ∷ t) g k = if same_key e.group e.key g k then some e.value else find t g k

abbrev pub entry : Bytes → Bytes → Bytes → Entry
entry g k v = record { group = g; key = k; value = v }

abbrev pub is_some : Option Bytes → Bool
is_some none = false
is_some (some v) = true

abbrev pub number : Option Bytes → ℤ
number none = pos 0
number (some v) = pos (scan_digits 0 v)

abbrev pub has_group : List Entry → Bytes → Bool
has_group [] g = false
has_group (e ∷ t) g = eq_bytes e.group g || has_group t g

abbrev pub sample : List Entry
sample =
    entry (codes "global") (codes "port") (codes "7758")
    ∷ entry (codes "global") (codes "log-level") (codes "Info")
    ∷ entry (codes "cluster") (codes "name") (codes "a")
    ∷ []

abbrev pub by_list : KeyFileOps (List Entry)
by_list = record {
  new = [];
  load_from_file = λ t file. some sample;
  has_group = has_group;
  has_key = λ t g k. is_some (find t g k);
  set_value = λ t g k v. entry g k v ∷ t;
  get_integer = λ t g k. number (find t g k);
  get_int64 = λ t g k. number (find t g k);
  get_string = find;
}

eq_bytes_refl : (b : Bytes) → eq_bytes b b ≡ true
eq_bytes_refl [] = refl
eq_bytes_refl (c ∷ b) = rw ((==_iff c c).1 refl, eq_bytes_refl b) refl

same_key_refl : (g k : Bytes) → same_key g k g k ≡ true
same_key_refl g k = rw (eq_bytes_refl g, eq_bytes_refl k) refl

set_has :
    (t : List Entry) (g k v g' k' : Bytes)
    → is_some (find (entry g k v ∷ t) g' k') ≡ (same_key g k g' k' || is_some (find t g' k'))
set_has t g k v g' k' = elim (Bool-cases (same_key g k g' k')) [
  | inl s ↦ rw s refl
  | inr n ↦ rw n refl
]

pub by_list-IsKeyFile : IsKeyFile by_list
by_list-IsKeyFile = record {
  has_key_set = set_has;
  integer_set = λ t g k n lt. rw (same_key_refl g k) (ap pos (scan-print_nat n));
  integer_other = λ t g k v g' k' n. rw n refl;
  int64_set = λ t g k n lt. rw (same_key_refl g k) (ap pos (scan-print_nat n));
  int64_other = λ t g k v g' k' n. rw n refl;
  string_set = λ t g k v w. rw (same_key_refl g k) refl;
  string_other = λ t g k v g' k' n. rw n refl;
}

abbrev pub no_blocks : Blocks
no_blocks = record { key_files = 0; settings = 0; clusters = 0 }

abbrev pub readable : Bytes → Bool
readable file = true

level_of_text_lem_example :
    (Begins (codes "debug") (codes "Info") × (level_of_text (codes "Info") ≡ 1))
    ⊎ ((Begins (codes "info") (codes "Info") × (level_of_text (codes "Info") ≡ 2))
        ⊎ ((Begins (codes "error") (codes "Info") × (level_of_text (codes "Info") ≡ 4))
            ⊎ (¬ Begins (codes "debug") (codes "Info")
                × ¬ Begins (codes "info") (codes "Info")
                × ¬ Begins (codes "error") (codes "Info")
                × (level_of_text (codes "Info") ≡ 3))))
level_of_text_lem_example = level_of_text_lem (codes "Info")
