-- ===== src/Ketama/Continuum/Sorted.antt =====
-- What `Ketama_create_continuum` builds.
use mathlib.Core.List.{Permᴰ}
use ketamarouter.Base.{
  ℕ, suc, ◌-◌, ◌*◌, ◌≤◌, ◌<◌, ◌≡◌, refl, ap, sym, ◌∙◌, true, false, none, some, List, [], ◌∷◌,
  arith, Bytes, length, All, le→leb, ◌≢◌, ◌==◌, inl, inr, u64,
}
use ketamarouter.Base.Int.{leb_ℤ, pos}
use ketamarouter.Ketama.State.{Mcs, ServerInfo, Ketama}
use ketamarouter.Ketama.Continuum.{compare_mcs, within, create_continuum, cells_of}
use ketamarouter.Ketama.Continuum.Points.{
  ring_points, all_points-filled, length-ring_points, ring_points-ordinal,
}
use ketamarouter.Ketama.Continuum.Fits.{Rounds, total_share-le}
use ketamarouter.Ketama.Servers.Holds.{Holds, total_memory, filled}
use ketamarouter.Ketama.Lookup.Owner.{Ascends, IsRing}

-- Neighbours are in the order that the comparison function tells.
abbrev pub InOrder : List Mcs → Type 0
InOrder [] = Unit
InOrder (c ∷ []) = Unit
InOrder (c ∷ d ∷ cells) = (leb_ℤ (compare_mcs c d) (pos 0) ≡ true) × InOrder (d ∷ cells)

-- `qsort` of the C library: the result is a permutation of the array, in the order of the comparison
-- function. Where elements compare equal their order is not specified.
pub record Qsort : Type 0 where
  pub sort : List Mcs → List Mcs
  pub perm : (cells : List Mcs) → Permᴰ (sort cells) cells
  pub in_order : (cells : List Mcs) → InOrder (sort cells)

InOrder-Ascends : (cells : List Mcs) → InOrder cells → Ascends cells
unfolding compare_mcs
InOrder-Ascends [] h = tt
InOrder-Ascends (c ∷ []) h = tt
InOrder-Ascends (c ∷ d ∷ cells) h = (ground (arith, h.0), InOrder-Ascends (d ∷ cells) h.1)

pub length-perm : {xs ys : List Mcs} → Permᴰ xs ys → length xs ≡ length ys
length-perm Permᴰ.nil = refl
length-perm (Permᴰ.cons e p) = ap suc (length-perm p)
length-perm (Permᴰ.swap e f) = refl
length-perm (Permᴰ.trans p q) = length-perm p ∙ length-perm q

All-perm {κ} : (P : Mcs → Type κ) {xs ys : List Mcs} → Permᴰ xs ys → All P ys → All P xs
All-perm P Permᴰ.nil h = h
All-perm P (Permᴰ.cons e p) h = (rw e h.0, All-perm P p h.1)
All-perm P (Permᴰ.swap e f) h = (rw e h.1.0, (rw f h.0, h.1.1))
All-perm P (Permᴰ.trans p q) h = All-perm P p (All-perm P q h)

some_servers : (infos : List ServerInfo) → 0 < total_memory infos → 0 < length infos
some_servers [] h = h
some_servers (s ∷ infos) h = omega arith

module _ (digest : Bytes → List ℕ) (share : ℕ → ℕ → ℕ → ℕ) (q : Qsort) where
  -- The points of the registered servers, in the order in which the loops write them.
  abbrev pub points_of : List ServerInfo → List Mcs
  points_of infos = ring_points digest share (total_memory infos) (length infos) 0 infos

  -- The ring that is built from `k`.
  abbrev ring : Ketama → List ServerInfo → Ketama
  ring k infos = record k {
    numpoints = length (points_of infos);
    continuum = some (q.sort (points_of infos));
  }

  module _ (k : Ketama) (infos : List ServerInfo) (h : Holds k infos) (rounds : Rounds share)
      (some_memory : 0 < total_memory infos) (small : length infos ≤ 52428) where
    points-le : length (points_of infos) ≤ length infos * 160
    points-le = omega (
      arith,
      length-ring_points digest share (total_memory infos) (length infos) 0 infos,
      total_share-le digest share infos rounds some_memory small,
    )

    within-points : within (length infos) (points_of infos) ≡ some (points_of infos)
    within-points = rw (le→leb _ _ points-le)

    cells-filled : k.numservers ≢ 0 → (n : ℕ) × (cells_of k ≡ filled infos n)
    cells-filled some_server = elim h.stored [
      | inl (null, empty) ↦ absurd (some_server (omega (arith, h.fits, h.counted)))
      | inr (held, room) ↦ (k.maxservers - length infos, rw held)
    ]

    create_continuum-ring :
        k.continuum ≡ none
        → total_memory infos < u64
        → create_continuum digest share q.sort k ≡ some (ring k infos)
    unfolding create_continuum
    create_continuum-ring fresh fits =
        let some_server : k.numservers ≢ 0 =
          omega (arith, h.counted, some_servers infos some_memory) in
        let (n, e) = cells-filled some_server in
        let m : k.memory ≡ total_memory infos = omega (arith, h.summed) in
        let c : (k.numservers == 0) ≡ false = ground arith in
        rw (fresh, c, h.counted, m, e, all_points-filled digest share _ _ infos n 0, within-points)

    ring-IsRing : IsRing (ring k infos) (q.sort (points_of infos))
    ring-IsRing =
        let e = length-perm (q.perm (points_of infos)) in
        record {
          built = refl;
          counted = sym e;
          ascends = InOrder-Ascends _ (q.in_order (points_of infos));
          small = omega (arith, e, points-le);
        }

  -- What is built for `infos`: the same servers, and a ring of their points.
  pub record IsBuilt (infos : List ServerInfo) (k : Ketama) (cells : List Mcs) : Type 0 where
    pub is_ring : IsRing k cells
    pub holds : Holds k infos
    pub perm : Permᴰ cells (points_of infos)
    pub owned : All (λ c. c.ordinal < length infos) cells

  -- For at most 52428 servers whose weights have a positive sum below 2 ^ 64, with a share that is
  -- rounded as IEEE arithmetic rounds it, `Ketama_create_continuum` on a new object never writes past
  -- its allocation. The continuum then has the points of all servers, each as often as it was written,
  -- in ascending order; each belongs to a registered server, and the servers are kept.
  pub create_continuum-IsBuilt :
      (k : Ketama) (infos : List ServerInfo)
      → Holds k infos
      → k.continuum ≡ none
      → Rounds share
      → 0 < total_memory infos
      → total_memory infos < u64
      → length infos ≤ 52428
      → (k' : Ketama) × (cells : List Mcs) × (create_continuum digest share q.sort k ≡ some k')
        × IsBuilt infos k' cells
  create_continuum-IsBuilt k infos h fresh rounds some_memory fits small = (
    ring k infos,
    q.sort (points_of infos),
    create_continuum-ring k infos h rounds some_memory small fresh fits,
    record {
      is_ring = ring-IsRing k infos h rounds some_memory small;
      holds = record {
        counted = h.counted;
        fits = h.fits;
        tight = h.tight;
        stored = h.stored;
        summed = h.summed;
      };
      perm = q.perm (points_of infos);
      owned = All-perm _ (q.perm (points_of infos)) (
          ring_points-ordinal digest share (total_memory infos) (length infos) 0 (length infos)
            infos (omega arith));
    },
  )
