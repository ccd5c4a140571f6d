-- ===== src/Ketama/Lookup.antt =====
-- `Ketama_get_server_ordinal`: the search for the point that follows a key's hash.

pub mod Owner
pub mod Next
use ketamarouter.Base.{
  ℕ, zero, suc, ◌+◌, ◌-◌, ◌*◌, ◌/◌, ◌%◌, ◌^◌, ◌≡◌, refl, Bool, ◌&&◌, Option, none, some, List, [],
  ◌∷◌, arith, ltb, leb, ◌==◌, if◌then◌else◌, ◌>>=◌, Bytes, get_elem?, get_or, u32, bit_or,
}
use ketamarouter.Base.Int.{ℤ, pos, negsuc, to_int}
use ketamarouter.Ketama.State.{Mcs, Ketama}
use ketamarouter.Ketama.Continuum.{hashi}

-- `mcsarr[i].point` and `mcsarr[i].ordinal`: a read past the cells that were written is undefined.
abbrev pub point_at : List Mcs → ℕ → Option ℕ
point_at cells i = do c ← get_elem? cells i; some c.point

abbrev pub ordinal_at : List Mcs → ℕ → Option ℕ
ordinal_at cells i = do c ← get_elem? cells i; some c.ordinal

-- The point before `midp`, and 0 before the first.
abbrev pub previous_point : List Mcs → ℕ → Option ℕ
previous_point cells midp = if midp == 0 then some 0 else point_at cells (midp - 1)

-- How a round of the loop ends: the function returns, or the next round has new bounds.
pub data Round : Type 0 where
  return : Option ℕ → Round
  next : ℕ → ℕ → Round

-- The tests of a round on the two points that it reads.
unfoldable pub compare_points : List Mcs → ℕ → ℕ → ℕ → ℕ → ℕ → ℕ → Round
compare_points cells h lowp highp midp midval midval1 =
    if leb h midval && ltb midval1 h
    then return (ordinal_at cells midp)
    else if ltb midval h
    then (if ltb highp (midp + 1) then return (ordinal_at cells 0) else next (midp + 1) highp)
    else if ltb midp (lowp + 1)
    then return (ordinal_at cells 0)
    else next lowp (midp - 1)

-- A round of the `while (1)` loop. `lowp + highp` is an `int`: past 2 ^ 31 it is undefined. `highp`
-- is never negative when a round begins, since at `midp == 0` the round that sets it to -1 returns,
-- by the test `lowp > midp - 1`, which is written `midp < lowp + 1`.
unfoldable pub search_round : List Mcs → ℕ → ℕ → ℕ → ℕ → Round
search_round cells numpoints h lowp highp =
    let midp = (lowp + highp) / 2 in
    if leb 0x8000_0000 (lowp + highp)
    then return none
    else if midp == numpoints
    then return (ordinal_at cells 0)
    else elim (point_at cells midp) [
      | none ↦ return none
      | some midval ↦ elim (previous_point cells midp) [
        | none ↦ return none
        | some midval1 ↦ compare_points cells h lowp highp midp midval midval1
      ]
    ]

-- The loop, with fuel: `none` also where the rounds run out.
unfoldable pub search_loop : List Mcs → ℕ → ℕ → ℕ → ℕ → ℕ → Option ℕ
search_loop cells numpoints h zero lowp highp = none
search_loop cells numpoints h (suc fuel) lowp highp =
    elim (search_round cells numpoints h lowp highp) [
      | return r ↦ r
      | next lowp' highp' ↦ search_loop cells numpoints h fuel lowp' highp'
    ]

-- `digest` is the MD5 of src/md5.c. The result is the `int` returned: -1 with no continuum.
unfoldable pub get_server_ordinal : (Bytes → List ℕ) → Ketama → Bytes → Option ℤ
get_server_ordinal digest k key = elim k.continuum [
  | none ↦ some (negsuc 0)
  | some cells ↦ do
    i ← search_loop cells k.numpoints (hashi digest key) (k.numpoints + 1) 0 k.numpoints
    some (pos i)
]
