-- ===== src/Ketama/Route/Tests.antt =====
-- Each theorem of the ring at the sample rings.
use ketamarouter.Base.{
  ℕ, ◌<◌, ◌≡◌, ◌⊎◌, inl, inr, refl, ap, some, List, [], ◌∷◌, arith, ◌>>=◌, Bytes, codes, get_or,
}
use ketamarouter.Base.Int.{pos}
use ketamarouter.Ketama.State.{Mcs, Ketama}
use ketamarouter.Ketama.Servers.{add_server, get_server_address}
use ketamarouter.Ketama.Servers.Holds.{Holds, no_server, add_server-Holds, get_server_address_lem}
use ketamarouter.Ketama.Continuum.{hashi, create_continuum}
use ketamarouter.Ketama.Continuum.Sorted.{IsBuilt, create_continuum-IsBuilt}
use ketamarouter.Ketama.Lookup.{get_server_ordinal}
use ketamarouter.Ketama.Lookup.Owner.{owner, get_server_ordinal-owner}
use ketamarouter.Ketama.Lookup.Next.{In}
use ketamarouter.Ketama.Route.{route_lem, Unambiguous}
use ketamarouter.Ketama.Route.Grow.{grow_moves}
use ketamarouter.Ketama.Route.Samples.{
  insertion, by_insertion, small_digest, one_round, one_round-Rounds, server_c, two, three, program,
  holding, two-Holds, three-Holds, cells_of_two, cells_of_three, ring_of_two, ring_of_three,
  three-IsRing, two-IsBuilt, three-IsBuilt,
}

add_server-Holds_example :
    (k' : Ketama) × (add_server (holding 2 two) (codes "127.0.0.3") (pos 6379) 100 ≡ some k')
    × Holds k' three
add_server-Holds_example =
    add_server-Holds (holding 2 two) two (codes "127.0.0.3") (pos 6379) 100 (omega arith) two-Holds

get_server_address_example : get_server_address (holding 4 three) (pos 2) ≡ some server_c.addr
get_server_address_example = get_server_address_lem (holding 4 three) three (pos 2) three-Holds

create_continuum-IsBuilt_example :
    (k' : Ketama) × (cells : List Mcs) × (create_continuum small_digest one_round insertion
        (holding 4 three)
      ≡ some k')
    × IsBuilt small_digest one_round by_insertion three k' cells
create_continuum-IsBuilt_example =
    create_continuum-IsBuilt small_digest one_round by_insertion (holding 4 three) three three-Holds
      refl one_round-Rounds (omega arith) (omega arith) (omega arith)

-- Points that ascend without a tie are unambiguous.
abbrev Rises : List Mcs → Type 0
Rises [] = Unit
Rises (c ∷ []) = Unit
Rises (c ∷ d ∷ cells) = (c.point < d.point) × Rises (d ∷ cells)

Rises-lt : (c d : Mcs) (cells : List Mcs) → Rises (c ∷ cells) → In d cells → c.point < d.point
Rises-lt c d [] r m = absurd m
Rises-lt c d (x ∷ cells) r (inl e) = rw e r.0
Rises-lt c d (x ∷ cells) r (inr m) = omega (arith, r.0, Rises-lt x d cells r.1 m)

Rises-tail : (c : Mcs) (cells : List Mcs) → Rises (c ∷ cells) → Rises cells
Rises-tail c [] r = tt
Rises-tail c (d ∷ cells) r = r.1

Rises-Unambiguous : (cells : List Mcs) → Rises cells → Unambiguous cells
Rises-Unambiguous [] r c d m n e = absurd m
Rises-Unambiguous (x ∷ cells) r c d (inl p) (inl q) e = cc
Rises-Unambiguous (x ∷ cells) r c d (inl p) (inr n) e =
    absurd (omega (arith, Rises-lt x d cells r n, ap (λ y. y.point) p))
Rises-Unambiguous (x ∷ cells) r c d (inr m) (inl q) e =
    absurd (omega (arith, Rises-lt x c cells r m, ap (λ y. y.point) q))
Rises-Unambiguous (x ∷ cells) r c d (inr m) (inr n) e =
    Rises-Unambiguous cells (Rises-tail x cells r) c d m n e

abbrev key : Bytes
key = codes "foobar42"

get_server_ordinal-owner_example :
    get_server_ordinal small_digest ring_of_three key
    ≡ (do i ← owner cells_of_three (hashi small_digest key); some (pos i))
get_server_ordinal-owner_example =
    get_server_ordinal-owner small_digest ring_of_three cells_of_three key three-IsRing

route_lem_example :
    (i : ℕ) × (i < 3)
    × (get_server_ordinal small_digest ring_of_three key ≡ some (pos i))
    × (get_server_address ring_of_three (pos i) ≡ some (get_or three i no_server).addr)
unfolding program
route_lem_example =
    route_lem small_digest one_round by_insertion three ring_of_three cells_of_three key
      three-IsBuilt (omega arith)

grow_moves_example :
    (get_server_ordinal small_digest ring_of_three key
      ≡ get_server_ordinal small_digest ring_of_two key)
    ⊎ (get_server_ordinal small_digest ring_of_three key ≡ some (pos 2))
unfolding program
grow_moves_example =
    grow_moves small_digest one_round by_insertion two server_c ring_of_two ring_of_three
      cells_of_two cells_of_three key two-IsBuilt three-IsBuilt (refl, (refl, tt))
      (Rises-Unambiguous cells_of_three (omega arith)) (omega arith)

runs : get_server_ordinal small_digest ring_of_three key ≡ some (pos 0)
unfolding program
runs = refl
