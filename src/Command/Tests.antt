-- ===== src/Command/Tests.antt =====
-- A table that is a function, and the list of commands in it.
use ketamarouter.Base.{◌⊎◌, ℕ, ◌≡◌, refl, Option, none, some, Bytes, codes, if◌then◌else◌}
use ketamarouter.Str.{Str, str_equal}
use ketamarouter.Session.{Command}
use ketamarouter.Command.{command_list_getl}
use ketamarouter.Command.Table.{
  TableOps, IsTable, command_list_load, command_list_load-getl, cmd_get, cmd_ping, Named,
}

abbrev pub by_function : TableOps (Str → Option Command)
by_function = record {
  new = λ k. none;
  lookup = λ t k. t k;
  insert = λ t k c k'. if str_equal k' k then some c else t k';
  remove = λ t k k'. if str_equal k' k then none else t k';
}

pub by_function-IsTable : IsTable by_function
by_function-IsTable = record {
  lookup_new = λ k. refl;
  lookup_insert = λ t k k' c. refl;
  lookup_remove = λ t k k'. refl;
}

abbrev find : Bytes → ℕ → Option Command
find = command_list_getl (by_function.lookup (command_list_load by_function))

command_list_load-getl_example :
    let found = find (codes "GET 1") 3 in
    (Named by_function by_function-IsTable (codes "GET 1") 3 (codes "GET")
      × (found ≡ some (cmd_get by_function by_function-IsTable)))
    ⊎ ((Named by_function by_function-IsTable (codes "GET 1") 3 (codes "PING")
          × (found ≡ some (cmd_ping by_function by_function-IsTable)))
        ⊎ (¬ Named by_function by_function-IsTable (codes "GET 1") 3 (codes "GET")
            × ¬ Named by_function by_function-IsTable (codes "GET 1") 3 (codes "PING")
            × (found ≡ none)))
command_list_load-getl_example =
    command_list_load-getl by_function by_function-IsTable (codes "GET 1") 3
