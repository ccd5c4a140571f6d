-- ===== src/Ketama/Lookup/Next.antt =====
-- The owner of a hash, told without indices: it has the least point that is not below the hash, or
-- the least point of all.
use ketamarouter.Base.{
  ℕ, zero, suc, ◌≤◌, ◌<◌, ◌≡◌, ◌⊎◌, inl, inr, refl, sym, ap, some, List, [], ◌∷◌, arith, ◌==◌,
  get_or, get_elem?-eq-get_or, length, Bool-cases,
}
use ketamarouter.Ketama.State.{Mcs}
use ketamarouter.Ketama.Lookup.Owner.{
  no_cell, Ascends, Ascends-tail, head_least, rank, owner, rank-le-length, point_below_rank,
  point_from_rank, point_of,
}

-- The cell occurs.
abbrev pub In : Mcs → List Mcs → Type 0
In c [] = ⊥
In c (d ∷ cells) = (c ≡ d) ⊎ In c cells

-- `c` follows `h` on the circle.
pub record Next (cells : List Mcs) (h : ℕ) (c : Mcs) : Type 0 where
  pub occurs : In c cells
  pub follows :
      ((h ≤ c.point) × ((d : Mcs) → In d cells → h ≤ d.point → c.point ≤ d.point))
      ⊎ (((d : Mcs) → In d cells → d.point < h) × ((d : Mcs) → In d cells → c.point ≤ d.point))

get_or-In : (cells : List Mcs) (i : ℕ) → i < length cells → In (get_or cells i no_cell) cells
get_or-In [] i lt = absurd (omega arith)
get_or-In (c ∷ cells) zero lt = inl refl
get_or-In (c ∷ cells) (suc i) lt = inr (get_or-In cells i (omega arith))

In-get_or :
    (cells : List Mcs) (c : Mcs)
    → In c cells
    → (i : ℕ) × (i < length cells) × (get_or cells i no_cell ≡ c)
In-get_or [] c h = absurd h
In-get_or (d ∷ cells) c (inl e) = (0, omega arith, sym e)
In-get_or (d ∷ cells) c (inr h) = let (i, lt, e) = In-get_or cells c h in (suc i, omega arith, e)

-- In an ascending list the later cell has the greater point.
Ascends-le :
    (cells : List Mcs) (i j : ℕ)
    → Ascends cells
    → i ≤ j
    → j < length cells
    → point_of cells i ≤ point_of cells j
Ascends-le [] i j a le lt = absurd (omega arith)
Ascends-le (c ∷ cells) zero zero a le lt = omega arith
Ascends-le (c ∷ cells) zero (suc j) a le lt = head_least c cells j a (omega arith)
Ascends-le (c ∷ cells) (suc i) zero a le lt = absurd (omega arith)
Ascends-le (c ∷ cells) (suc i) (suc j) a le lt =
    Ascends-le cells i j (Ascends-tail c cells a) (omega arith) (omega arith)

module _ (cells : List Mcs) (h : ℕ) (a : Ascends cells) where
  follows_inside : rank cells h < length cells → Next cells h (get_or cells (rank cells h) no_cell)
  follows_inside lt = record {
    occurs = get_or-In cells (rank cells h) lt;
    follows = inl (
      point_from_rank cells h (rank cells h) a (omega arith) lt,
      λ d m above. least d above (In-get_or cells d m),
    );
  }
    where
      least :
          (d : Mcs)
          → h ≤ d.point
          → (i : ℕ) × (i < length cells) × (get_or cells i no_cell ≡ d)
          → point_of cells (rank cells h) ≤ d.point
      least d above (i, lt', e) =
          let p : point_of cells i ≡ d.point = ap (λ c. c.point) e in
          ground (arith, point_below_rank cells h i, Ascends-le cells (rank cells h) i a)

  follows_around :
      rank cells h ≡ length cells → 0 < length cells → Next cells h (get_or cells 0 no_cell)
  follows_around all some_cell = record {
    occurs = get_or-In cells 0 some_cell;
    follows = inr (λ d m. below d (In-get_or cells d m), λ d m. least d (In-get_or cells d m));
  }
    where
      below : (d : Mcs) → (i : ℕ) × (i < length cells) × (get_or cells i no_cell ≡ d) → d.point < h
      below d (i, lt', e) =
          let p : point_of cells i ≡ d.point = ap (λ c. c.point) e in
          omega (arith, point_below_rank cells h i (omega arith))

      least :
          (d : Mcs)
          → (i : ℕ) × (i < length cells) × (get_or cells i no_cell ≡ d)
          → point_of cells 0 ≤ d.point
      least d (i, lt', e) =
          let p : point_of cells i ≡ d.point = ap (λ c. c.point) e in
          omega (arith, Ascends-le cells 0 i a (omega arith) lt')

  -- On a ring with a point the owner is the server of the cell that follows.
  pub owner-Next : 0 < length cells → (c : Mcs) × (owner cells h ≡ some c.ordinal) × Next cells h c
  unfolding owner
  owner-Next some_cell = elim (Bool-cases (rank cells h == length cells)) [
    | inl all ↦ (
      get_or cells 0 no_cell,
      rw (all, get_elem?-eq-get_or cells 0 no_cell some_cell),
      follows_around (ground arith) some_cell,
    )
    | inr inside ↦ (
      get_or cells (rank cells h) no_cell,
      rw (
        inside,
        get_elem?-eq-get_or cells (rank cells h) no_cell (ground (arith, rank-le-length cells h)),
      ),
      follows_inside (ground (arith, rank-le-length cells h)),
    )
  ]
