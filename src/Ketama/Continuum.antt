-- ===== src/Ketama/Continuum.antt =====
-- The hash functions and `Ketama_create_continuum`. MD5 (src/md5.c, a third-party copy), the float
-- expression for a server's share of the circle and `qsort` are parameters.
pub mod Points
pub mod Fits
pub mod Sorted
use ketamarouter.Base.{
  ℕ, zero, suc, ◌+◌, ◌-◌, ◌*◌, ◌/◌, ◌%◌, ◌^◌, ◌≤◌, ◌≡◌, refl, Bool, ◌&&◌, Option, none, some, List,
  [], ◌∷◌, ◌++◌, arith, ltb, leb, ◌==◌, if◌then◌else◌, ◌>>=◌, Bytes, get_elem?, get_or, u32, bit_or,
  length, take,
}
use ketamarouter.Base.Int.{ℤ, pos, negsuc, to_int, pos_part}
use ketamarouter.Base.Decimal.{print_int}
use ketamarouter.Ketama.State.{Mcs, ServerInfo, Ketama, addr_size}

-- Four bytes of a digest from `i` on, the first one lowest.
unfoldable pub le_word : List ℕ → ℕ → ℕ
le_word digest i = bit_or (get_or digest (3 + i) 0 * 2 ^ 24 % u32) (
    bit_or (get_or digest (2 + i) 0 * 2 ^ 16)
      (bit_or (get_or digest (1 + i) 0 * 2 ^ 8) (get_or digest i 0)))

unfoldable pub hashi : (Bytes → List ℕ) → Bytes → ℕ
unfolding le_word
hashi digest key = le_word (digest key) 0

-- `Ketama_compare`.
unfoldable pub compare_mcs : Mcs → Mcs → ℤ
compare_mcs a b =
    if ltb a.point b.point then negsuc 0 else if ltb b.point a.point then pos 1 else pos 0

-- The text that is hashed for round `k`: `snprintf` keeps what fits `ss`.
unfoldable pub point_key : Bytes → ℕ → Bytes
point_key addr k = take (addr_size + 11 - 1) (addr ++ b'-' ∷ print_int (to_int k))

module _ (digest : Bytes → List ℕ) where
  -- Four points for each digest.
  unfoldable pub digest_points : ℕ → Bytes → ℕ → List Mcs
  digest_points i addr k =
      let d = digest (point_key addr k) in
      record { point = le_word d 0; ordinal = i }
      ∷ record { point = le_word d 4; ordinal = i }
      ∷ record { point = le_word d 8; ordinal = i }
      ∷ record { point = le_word d 12; ordinal = i }
      ∷ []

  -- `for (k = 0; k < ks; k++)`, with the rounds that are left.
  unfoldable pub server_points : ℕ → Bytes → ℕ → ℕ → List Mcs
  server_points i addr zero k = []
  server_points i addr (suc rounds) k =
      digest_points i addr k ++ server_points i addr rounds (k + 1)

-- `for (i = 0; i < ketama->numservers; i++)` from `i` on, over the cells that are left. `share` is
-- `floorf(pct * 40.0 * (float)numservers)` of the server's memory, the total and the number of
-- servers. Reading a cell that nothing was written to is undefined.
module _ (digest : Bytes → List ℕ) (share : ℕ → ℕ → ℕ → ℕ) (total numservers : ℕ) where
  unfoldable pub all_points : ℕ → ℕ → List (Option ServerInfo) → Option (List Mcs)
  all_points zero i cells = some []
  all_points (suc rounds) i [] = none
  all_points (suc rounds) i (none ∷ cells) = none
  all_points (suc rounds) i (some info ∷ cells) = do
    rest ← all_points rounds (i + 1) cells
    some (server_points digest i info.addr (share info.memory total numservers) 0 ++ rest)

-- The allocation has 160 cells for each server. The points are written to it in order, so a list
-- that is longer is written past its end, which is undefined.
abbrev pub within : ℕ → List Mcs → Option (List Mcs)
within numservers points = if leb (length points) (numservers * 160) then some points else none

abbrev pub cells_of : Ketama → List (Option ServerInfo)
cells_of k = elim k.servers [ none ↦ [] | some cells ↦ cells ]

-- `sort` is `qsort` with `compare_mcs`.
unfoldable pub create_continuum :
    (Bytes → List ℕ) → (ℕ → ℕ → ℕ → ℕ) → (List Mcs → List Mcs) → Ketama → Option Ketama
create_continuum digest share sort k = elim k.continuum [
  | some _ ↦ some k
  | none ↦ if k.numservers == 0 then some k else do
    points ← all_points digest share k.memory k.numservers k.numservers 0 (cells_of k)
    cells ← within k.numservers points
    some (record k { numpoints = length cells; continuum = some (sort cells) })
]
