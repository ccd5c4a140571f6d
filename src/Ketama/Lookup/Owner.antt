-- ===== src/Ketama/Lookup/Owner.antt =====
-- What the search of `Ketama_get_server_ordinal` finds.
use ketamarouter.Base.{
  ℕ, zero, suc, ◌+◌, ◌-◌, ◌/◌, ◌^◌, ◌≤◌, ◌<◌, ◌≡◌, refl, false, Option, some, List, [], ◌∷◌, arith,
  ltb, leb, ◌==◌, if◌then◌else◌, ◌>>=◌, Bytes, get_or, length, get_elem?-eq-get_or, Bool-cases, inl,
  inr,
}
use ketamarouter.Base.Int.{pos}
use ketamarouter.Ketama.State.{Mcs, Ketama}
use ketamarouter.Ketama.Continuum.{hashi}
use ketamarouter.Ketama.Lookup.{
  Round, return, next, compare_points, search_round, point_at, ordinal_at, previous_point,
  search_loop, get_server_ordinal,
}

abbrev pub no_cell : Mcs
no_cell = record { point = 0; ordinal = 0 }

-- The point of a cell, for an index in range.
abbrev pub point_of : List Mcs → ℕ → ℕ
point_of cells i = (get_or cells i no_cell).point

-- Points ascend.
abbrev pub Ascends : List Mcs → Type 0
Ascends [] = Unit
Ascends (c ∷ []) = Unit
Ascends (c ∷ d ∷ cells) = (c.point ≤ d.point) × Ascends (d ∷ cells)

-- How many points stand before the first that is not below `h`.
unfoldable pub rank : List Mcs → ℕ → ℕ
rank [] h = 0
rank (c ∷ cells) h = let rest = rank cells h in if ltb c.point h then suc rest else 0

-- The point that follows `h` on the circle.
unfoldable pub owner : List Mcs → ℕ → Option ℕ
unfolding rank
owner cells h = ordinal_at cells (if rank cells h == length cells then 0 else rank cells h)

pub rank-le-length : (cells : List Mcs) (h : ℕ) → rank cells h ≤ length cells
unfolding rank
rank-le-length [] h = omega arith
rank-le-length (c ∷ cells) h = ground (arith, rank-le-length cells h)

pub point_below_rank : (cells : List Mcs) (h i : ℕ) → i < rank cells h → point_of cells i < h
unfolding rank
point_below_rank [] h i lt = absurd (omega arith)
point_below_rank (c ∷ cells) h zero lt = ground arith
point_below_rank (c ∷ cells) h (suc i) lt = ground (arith, point_below_rank cells h i)

pub head_least :
    (c : Mcs) (cells : List Mcs) (i : ℕ)
    → Ascends (c ∷ cells)
    → i < length cells
    → c.point ≤ point_of cells i
head_least c [] i a lt = absurd (omega arith)
head_least c (d ∷ cells) zero a lt = a.0
head_least c (d ∷ cells) (suc i) a lt = omega (arith, head_least d cells i a.1, a.0)

pub Ascends-tail : (c : Mcs) (cells : List Mcs) → Ascends (c ∷ cells) → Ascends cells
Ascends-tail c [] a = tt
Ascends-tail c (d ∷ cells) a = a.1

pub point_from_rank :
    (cells : List Mcs) (h i : ℕ)
    → Ascends cells
    → rank cells h ≤ i
    → i < length cells
    → h ≤ point_of cells i
unfolding rank
point_from_rank [] h i a le lt = absurd (omega arith)
point_from_rank (c ∷ cells) h zero a le lt = ground arith
point_from_rank (c ∷ cells) h (suc i) a le lt =
    ground (arith, point_from_rank cells h i (Ascends-tail c cells a), head_least c cells i a)

point_at_lem :
    (cells : List Mcs) (i : ℕ) → i < length cells → point_at cells i ≡ some (point_of cells i)
point_at_lem cells i lt = rw (get_elem?-eq-get_or cells i no_cell lt)

previous_point_lem :
    (cells : List Mcs) (i : ℕ)
    → i < length cells
    → (v : ℕ) × (previous_point cells i ≡ some v)
      × (i ≡ 0 → v ≡ 0)
      × (0 < i → v ≡ point_of cells (i - 1))
previous_point_lem cells zero lt = (0, refl, λ _. refl, λ h. absurd (omega arith))
previous_point_lem cells (suc i) lt =
    let e : suc i - 1 ≡ i = omega arith in
    (
      point_of cells i,
      rw e (ground (arith, point_at_lem cells i)),
      λ h. absurd (omega arith),
      λ _. rw e,
    )

module _ (cells : List Mcs) (h : ℕ) (a : Ascends cells) where
  -- A round returns the owner, or leaves tighter bounds around the rank.
  abbrev Keeps : ℕ → ℕ → Round → Type 0
  Keeps lowp highp (return r) = r ≡ owner cells h
  Keeps lowp highp (next lowp' highp') =
      (lowp' ≤ rank cells h)
      × (rank cells h ≤ highp')
      × (highp' ≤ length cells)
      × (highp' + lowp < highp + lowp')

  module _ (lowp highp : ℕ) (lo : lowp ≤ rank cells h) (hi : rank cells h ≤ highp)
      (fits : highp ≤ length cells) where
    compare_points-Keeps :
        (midp : ℕ)
        → (lowp + highp) / 2 ≡ midp
        → midp < length cells
        → (midval1 : ℕ) → (midp ≡ 0 → midval1 ≡ 0)
        → (0 < midp → midval1 ≡ point_of cells (midp - 1))
        → Keeps lowp highp (compare_points cells h lowp highp midp (point_of cells midp) midval1)
    unfolding compare_points owner
    compare_points-Keeps midp m lt midval1 z p = ground (
      arith,
      point_below_rank cells h midp,
      point_below_rank cells h (midp - 1),
      point_from_rank cells h midp a,
      point_from_rank cells h (midp - 1) a,
    )

    search_round-Keeps :
        length cells < 2 ^ 30 → Keeps lowp highp (search_round cells (length cells) h lowp highp)
    unfolding search_round owner
    search_round-Keeps small = elim (Bool-cases ((lowp + highp) / 2 == length cells)) [
      | inl end ↦ ground arith
      | inr inside ↦
          let midp : ℕ = (lowp + highp) / 2 in
          let lt : midp < length cells = ground arith in
          let low : leb 0x8000_0000 (lowp + highp) ≡ false = ground arith in
          let (midval1, e, z, p) = previous_point_lem cells midp lt in
          rw (low, inside, point_at_lem cells midp lt, e)
            (compare_points-Keeps midp refl lt midval1 z p)
    ]

  -- The loop after a round that keeps the bounds, given what the later rounds return.
  after_round :
      (fuel lowp highp : ℕ) (r : Round)
      → search_round cells (length cells) h lowp highp ≡ r
      → Keeps lowp highp r
      → ((lowp' highp' : ℕ)
          → lowp' ≤ rank cells h
          → rank cells h ≤ highp'
          → highp' ≤ length cells
          → highp' + lowp < highp + lowp'
          → search_loop cells (length cells) h fuel lowp' highp' ≡ owner cells h)
      → search_loop cells (length cells) h (suc fuel) lowp highp ≡ owner cells h
  unfolding search_loop
  after_round fuel lowp highp (return r) e k later = rw (e, search_loop) k
  after_round fuel lowp highp (next lowp' highp') e k later =
      rw (e, search_loop) (later lowp' highp' k.0 k.1 k.2 k.3)

  -- With a round for each value of `highp - lowp` the loop returns the owner.
  search_loop-owner :
      length cells < 2 ^ 30
      → (fuel lowp highp : ℕ) → lowp ≤ rank cells h
      → rank cells h ≤ highp
      → highp ≤ length cells
      → highp < fuel + lowp
      → search_loop cells (length cells) h fuel lowp highp ≡ owner cells h
  search_loop-owner small zero lowp highp lo hi fits m = absurd (omega arith)
  search_loop-owner small (suc fuel) lowp highp lo hi fits m =
      after_round fuel lowp highp _ refl (search_round-Keeps lowp highp lo hi fits small)
        (λ lowp' highp' lo' hi' fits' closer.
          search_loop-owner small fuel lowp' highp' lo' hi' fits' (omega arith))

  pub search-owner :
      length cells < 2 ^ 30
      → search_loop cells (length cells) h (length cells + 1) 0 (length cells) ≡ owner cells h
  search-owner small =
      search_loop-owner small (length cells + 1) 0 (length cells) (omega arith)
        (rank-le-length cells h) (omega arith) (omega arith)

-- What a ring that a search can rely on looks like: `numpoints` cells, in order, and few enough for
-- the sum of two indices to be an `int`.
pub record IsRing (k : Ketama) (cells : List Mcs) : Type 0 where
  pub built : k.continuum ≡ some cells
  pub counted : k.numpoints ≡ length cells
  pub ascends : Ascends cells
  pub small : length cells < 2 ^ 30

-- On a ring `Ketama_get_server_ordinal` ends, reads only cells that were written, and returns the
-- server of the first point that is not below the key's hash, or of the first point of all where
-- every point is below it.
pub get_server_ordinal-owner :
    (digest : Bytes → List ℕ) (k : Ketama) (cells : List Mcs) (key : Bytes)
    → IsRing k cells
    → get_server_ordinal digest k key ≡ (do i ← owner cells (hashi digest key); some (pos i))
unfolding get_server_ordinal
get_server_ordinal-owner digest k cells key r =
    rw (r.built, r.counted, search-owner cells (hashi digest key) r.ascends r.small)
