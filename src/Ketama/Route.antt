-- ===== src/Ketama/Route.antt =====
-- The whole use of a ring: servers are added, the continuum is built, and keys are looked up.
pub mod Grow
pub mod Samples
mod Tests
use mathlib.Core.List.{Permᴰ}
use ketamarouter.Base.{
  ℕ, zero, suc, ◌+◌, ◌*◌, ◌≤◌, ◌<◌, ◌≡◌, ◌≢◌, ◌⊎◌, inl, inr, refl, sym, ap, ◌∙◌, Option, none, some,
  List, [], ◌∷◌, ◌++◌, arith, ◌>>=◌, Bytes, get_elem?, get_or, get_elem?-eq-get_or, length,
  length-append, All, append-nil, append_assoc,
}
use ketamarouter.Base.Int.{ℤ, pos}
use ketamarouter.Ketama.State.{Mcs, ServerInfo, Ketama}
use ketamarouter.Ketama.Servers.{get_server_address}
use ketamarouter.Ketama.Servers.Holds.{
  Holds, total_memory, total_memory-append, address_of, no_server, get_server_address_lem,
}
use ketamarouter.Ketama.Continuum.{hashi, server_points}
use ketamarouter.Ketama.Continuum.Points.{ring_points}
use ketamarouter.Ketama.Continuum.Sorted.{Qsort, IsBuilt, points_of, length-perm}
use ketamarouter.Ketama.Lookup.{get_server_ordinal}
use ketamarouter.Ketama.Lookup.Owner.{owner, get_server_ordinal-owner}
use ketamarouter.Ketama.Lookup.Next.{In, Next, owner-Next}

pub All-In {κ} : (P : Mcs → Type κ) (cells : List Mcs) (c : Mcs) → All P cells → In c cells → P c
All-In P [] c h m = absurd m
All-In P (d ∷ cells) c h (inl e) = rw e h.0
All-In P (d ∷ cells) c h (inr m) = All-In P cells c h.1 m

module _ (digest : Bytes → List ℕ) (share : ℕ → ℕ → ℕ → ℕ) (q : Qsort) where
  -- On a built ring with a point, every key is routed to a registered server: the ordinal returned
  -- is the index of one, and the address that `command_GET` asks for with it is that server's.
  pub route_lem :
      (infos : List ServerInfo) (k : Ketama) (cells : List Mcs) (key : Bytes)
      → IsBuilt digest share q infos k cells
      → 0 < length cells
      → (i : ℕ) × (i < length infos)
        × (get_server_ordinal digest k key ≡ some (pos i))
        × (get_server_address k (pos i) ≡ some (get_or infos i no_server).addr)
  route_lem infos k cells key b some_cell =
      let (c, found, next) = owner-Next cells (hashi digest key) b.is_ring.ascends some_cell in
      let lt : c.ordinal < length infos = All-In _ cells c b.owned next.occurs in
      (
        c.ordinal,
        lt,
        rw (get_server_ordinal-owner digest k cells key b.is_ring, found),
        rw (
          get_server_address_lem k infos (pos c.ordinal) b.holds,
          address_of,
          get_elem?-eq-get_or infos c.ordinal no_server lt,
        ),
      )

-- Two points at one place belong to one server.
abbrev pub Unambiguous : List Mcs → Type 0
Unambiguous cells =
    (c d : Mcs) → In c cells → In d cells → c.point ≡ d.point → c.ordinal ≡ d.ordinal

-- A ring that has the points of another one and those of a new server leaves a key where it was, or
-- moves it to the new server.
Next-moves :
    (cells cells' : List Mcs) (h new : ℕ) (c d : Mcs)
    → Unambiguous cells'
    → ((e : Mcs) → In e cells → In e cells')
    → ((e : Mcs) → In e cells' → In e cells ⊎ (e.ordinal ≡ new))
    → Next cells h c
    → Next cells' h d
    → (d.ordinal ≡ c.ordinal) ⊎ (d.ordinal ≡ new)
Next-moves cells cells' h new c d one old split nc nd = elim (split d nd.occurs) [
  | inr e ↦ inr e
  | inl m ↦ inl (sym (one c d (old c nc.occurs) nd.occurs (same m)))
]
  where
    same : In d cells → c.point ≡ d.point
    same m = elim nc.follows [
      | inl (above, least) ↦ elim nd.follows [
        | inl (above', least') ↦ omega (arith, least d m above', least' c (old c nc.occurs) above)
        | inr (below', least') ↦ absurd (omega (arith, below' c (old c nc.occurs)))
      ]
      | inr (below, least) ↦ elim nd.follows [
        | inl (above', least') ↦ absurd (omega (arith, below d m))
        | inr (below', least') ↦ omega (arith, least d m, least' c (old c nc.occurs))
      ]
    ]
