-- ===== src/Command/Table.antt =====
-- `command_list_insert` and `command_list_load`, over a hash table of glib.
use ketamarouter.Base.{
  ◌⊎◌, ℕ, ◌≡◌, refl, ap, ◌∙◌, false, Option, none, some, if◌then◌else◌, Bytes, codes, length, take,
  Bool-cases, inl, inr, arith,
}
use ketamarouter.Pabuf.{null}
use ketamarouter.Str.{Str, borrowed, allocated, str_at, str_equal}
use ketamarouter.Str.Equal.{text_of, str_equal_iff}
use ketamarouter.Session.{Command, Func, get_func, ping_func}
use ketamarouter.Command.{command_list_getl}

-- The operations of `GHashTable` that the list uses, with `str_hash` and `str_equal`.
pub record TableOps (T : Type 0) : Type 0 where
  pub new : T
  pub lookup : T → Str → Option Command
  pub insert : T → Str → Command → T
  pub remove : T → Str → T

-- What glib documents of them: an inserted value is found under its key and under keys equal to it,
-- a removed one is not found, and no other key is concerned.
pub record IsTable {T : Type 0} (ops : TableOps T) : Type 0 where
  pub lookup_new : (k : Str) → ops.lookup ops.new k ≡ none
  pub lookup_insert :
      (t : T) (k k' : Str) (c : Command)
      → ops.lookup (ops.insert t k c) k' ≡ (if str_equal k' k then some c else ops.lookup t k')
  pub lookup_remove :
      (t : T) (k k' : Str)
      → ops.lookup (ops.remove t k) k' ≡ (if str_equal k' k then none else ops.lookup t k')

-- `command_init`: the name is copied.
unfoldable pub command_init : Bytes → ℕ → ℕ → Func → Command
command_init name param_min param_max func = record {
  name = str_at null allocated name (length name);
  param_min = param_min;
  param_max = param_max;
  func = func;
}

module _ {T : Type 0} (ops : TableOps T) where
  -- A command that has the name already is removed first.
  unfoldable pub command_list_insert : T → Bytes → ℕ → ℕ → Func → T
  unfolding command_init
  command_list_insert t name param_min param_max func =
      let cmd = command_init name param_min param_max func in
      elim (command_list_getl (ops.lookup t) name (length name)) [
        | none ↦ ops.insert t cmd.name cmd
        | some old ↦ ops.insert (ops.remove t old.name) cmd.name cmd
      ]

  unfoldable pub command_list_load : T
  unfolding command_list_insert
  command_list_load =
      command_list_insert (command_list_insert ops.new (codes "GET") 1 1 get_func) (codes "PING") 0
        0 ping_func

not_equal : (a b : Str) → ¬ ((a.len ≡ b.len) × (text_of a ≡ text_of b)) → str_equal a b ≡ false
not_equal a b h = elim (Bool-cases (str_equal a b)) [
  | inl t ↦ absurd (h ((str_equal_iff a b).0 t))
  | inr f ↦ f
]

module _ {T : Type 0} (ops : TableOps T) (laws : IsTable ops) where
  -- A command whose name is not in the list yet.
  insert-lookup :
      (t : T) (name : Bytes) (param_min param_max : ℕ) (func : Func) (k : Str)
      → command_list_getl (ops.lookup t) name (length name) ≡ none
      → ops.lookup (command_list_insert ops t name param_min param_max func) k ≡ (
          if str_equal k (str_at null allocated name (length name))
          then some (command_init name param_min param_max func)
          else ops.lookup t k)
  unfolding command_list_insert command_init
  insert-lookup t name param_min param_max func k fresh =
      let c = command_init name param_min param_max func in
      rw (fresh, command_list_insert) (laws.lookup_insert t c.name k c)

  abbrev pub key_of : Bytes → Str
  key_of name = str_at null allocated name (length name)

  abbrev pub cmd_get : Command
  cmd_get = record { name = key_of (codes "GET"); param_min = 1; param_max = 1; func = get_func }

  abbrev pub cmd_ping : Command
  cmd_ping = record { name = key_of (codes "PING"); param_min = 0; param_max = 0; func = ping_func }

  get-lookup :
      (k : Str)
      → ops.lookup (command_list_insert ops ops.new (codes "GET") 1 1 get_func) k
        ≡ (if str_equal k (key_of (codes "GET")) then some cmd_get else none)
  unfolding command_list_getl command_init
  get-lookup k =
      insert-lookup ops.new (codes "GET") 1 1 get_func k
        (laws.lookup_new (str_at null borrowed (codes "GET") 3))
      ∙ ap (λ r. if str_equal k (key_of (codes "GET")) then some cmd_get else r) (laws.lookup_new k)

  load-lookup :
      (k : Str)
      → ops.lookup (command_list_load ops) k ≡ (
          if str_equal k (key_of (codes "PING"))
          then some cmd_ping
          else if str_equal k (key_of (codes "GET"))
          then some cmd_get
          else none)
  unfolding command_list_load command_list_getl command_init str_equal
  load-lookup k =
      let get = command_list_insert ops ops.new (codes "GET") 1 1 get_func in
      insert-lookup get (codes "PING") 0 0 ping_func k
        (get-lookup (str_at null borrowed (codes "PING") 4))
      ∙ ap (λ r. if str_equal k (key_of (codes "PING")) then some cmd_ping else r) (get-lookup k)

  pub getl-get :
      (text : Bytes)
      → take 3 text ≡ codes "GET"
      → command_list_getl (ops.lookup (command_list_load ops)) text 3 ≡ some cmd_get
  unfolding command_list_getl
  getl-get text e =
      let k = str_at null borrowed text 3 in
      load-lookup k
      ∙ rw
          (
            not_equal k (key_of (codes "PING")) (λ q. absurd (omega (arith, q.0))),
            (str_equal_iff k (key_of (codes "GET"))).1 (refl, e),
          )
          refl

  abbrev pub Named : Bytes → ℕ → Bytes → Type 0
  Named text len name = (len ≡ length name) × (take len text ≡ name)

  -- The list that is loaded finds GET and PING under their names, and nothing under any other name,
  -- wherever the name stands and whatever follows it there.
  pub command_list_load-getl :
      (text : Bytes) (len : ℕ)
      → let found = command_list_getl (ops.lookup (command_list_load ops)) text len in
        (Named text len (codes "GET") × (found ≡ some cmd_get))
        ⊎ ((Named text len (codes "PING") × (found ≡ some cmd_ping))
            ⊎ (¬ Named text len (codes "GET") × ¬ Named text len (codes "PING") × (found ≡ none)))
  unfolding command_list_getl
  command_list_load-getl text len =
      let k = str_at null borrowed text len in
      let get = key_of (codes "GET") in
      let ping = key_of (codes "PING") in
      elim (Bool-cases (str_equal k get)) [
        | inl t ↦
            let n = (str_equal_iff k get).0 t in
            inl (
              n,
              load-lookup k ∙ rw (not_equal k ping (λ q. absurd (omega (arith, q.0, n.0))), t) refl,
            )
        | inr f ↦ elim (Bool-cases (str_equal k ping)) [
          | inl t ↦ inr (inl ((str_equal_iff k ping).0 t, load-lookup k ∙ rw t refl))
          | inr g ↦ inr (
              inr (
                λ q. let e = (str_equal_iff k get).1 q in absurd (cc),
                λ q. let e = (str_equal_iff k ping).1 q in absurd (cc),
                load-lookup k ∙ rw (g, f) refl,
              ))
        ]
      ]
