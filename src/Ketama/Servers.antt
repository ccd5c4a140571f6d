-- ===== src/Ketama/Servers.antt =====
-- The server list: `Ketama_add_server`, `Ketama_get_server_num` and `Ketama_get_server_address`.
pub mod Holds
use ketamarouter.Base.{
  ℕ, zero, suc, ◌+◌, ◌-◌, ◌*◌, ◌%◌, ◌≤◌, ◌≡◌, refl, Bool, ◌||◌, Option, none, some, List, [], ◌∷◌,
  ◌++◌, arith, ltb, leb, ◌==◌, if◌then◌else◌, ◌>>=◌, Bytes, get_elem?, u32, u64, length, take, set,
  replicate,
}
use ketamarouter.Base.Int.{ℤ, pos, negsuc}
use ketamarouter.Base.Decimal.{print_int}
use ketamarouter.Ketama.State.{ServerInfo, Ketama, addr_size}

-- `snprintf(info->addr, sizeof(info->addr), "%s:%d", addr, port)`.
unfoldable pub server_addr : Bytes → ℤ → Bytes
server_addr addr port = take (addr_size - 1) (addr ++ b':' ∷ print_int port)

-- `realloc`: the cells that fit are kept, and new ones are not initialised.
abbrev pub realloc : ℕ → List (Option ServerInfo) → List (Option ServerInfo)
realloc n cells = take n cells ++ replicate (n - length cells) none

-- The first allocation, INIT_MAX_SERVERS cells.
unfoldable pub init_servers : Ketama → Ketama
init_servers k = elim k.servers [
  | none ↦ record k { maxservers = 1; servers = some (replicate 1 none) }
  | some _ ↦ k
]

-- The array is doubled when it is full.
unfoldable pub expand_servers : Ketama → Ketama
expand_servers k = elim k.servers [
  | none ↦ k
  | some cells ↦
      if leb k.maxservers k.numservers
      then record k {
        maxservers = k.maxservers * 2 % u32;
        servers = some (realloc (k.maxservers * 2 % u32) cells);
      }
      else k
]

-- The new entry is written behind those in use: past the array that is undefined.
unfoldable pub put_server : Ketama → ServerInfo → Option Ketama
put_server k info = do
  cells ← k.servers
  (if ltb k.numservers (length cells)
      then some (record k {
        servers = some (set cells k.numservers (some info));
        numservers = (k.numservers + 1) % u32;
        memory = (k.memory + info.memory) % u64;
      })
      else none)

-- `Ketama_add_server`; `none` is the assertion that fails, or undefined behaviour.
unfoldable pub add_server : Ketama → Bytes → ℤ → ℕ → Option Ketama
add_server k addr port weight =
    if ltb k.maxservers k.numservers
    then none
    else put_server (expand_servers (init_servers k))
        (record { addr = server_addr addr port; memory = weight })

-- `Ketama_get_server_num`, of a pointer that may be NULL.
unfoldable pub get_server_num : Option Ketama → ℕ
get_server_num none = 0
get_server_num (some k) = k.numservers

-- `Ketama_get_server_address`. Reading an entry that was not written is undefined.
unfoldable pub get_server_address : Ketama → ℤ → Option Bytes
get_server_address k (negsuc n) = some []
get_server_address k (pos i) = if leb k.numservers i then some [] else elim k.servers [
  | none ↦ some []
  | some cells ↦ elim (get_elem? cells i) [ some (some info) ↦ some info.addr | _ ↦ none ]
]
