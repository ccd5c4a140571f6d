-- ===== src/Ketama/Ends.antt =====
-- `Ketama_free` and `Ketama_print_continuum`.
use ketamarouter.Base.{ℕ, ◌-◌, Option, none, some, List, [], ◌∷◌, ◌++◌, Bytes, codes}
use ketamarouter.Base.Int.{to_int}
use ketamarouter.Base.Decimal.{print_nat, print_int}
use ketamarouter.Ketama.State.{Mcs, Ketama}

abbrev block_of : {A : Type 0} → Option A → ℕ
block_of none = 0
block_of (some a) = 1

-- The blocks that stay allocated, of so many: the object itself and its two arrays are freed.
unfoldable pub ketama_free : Ketama → ℕ → ℕ
ketama_free k blocks = blocks - block_of k.continuum - block_of k.servers - 1

-- `%d` of the server and `%u` of the point, for the cells that are left.
unfoldable pub print_cells : List Mcs → Bytes
print_cells [] = []
print_cells (c ∷ cells) =
    print_int (to_int c.ordinal)
    ++ b' ' ∷ b'(' ∷ print_nat c.point
    ++ b')' ∷ b'\n' ∷ print_cells cells

-- The array has `numpoints` cells.
unfoldable pub print_continuum : Ketama → Bytes
unfolding print_cells
print_continuum k =
    codes "Numpoints in continuum: "
    ++ print_int (to_int k.numpoints)
    ++ b'\n'
      ∷ (elim k.continuum [ none ↦ codes "Continuum empty\n" | some cells ↦ print_cells cells ])
