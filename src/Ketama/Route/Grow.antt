-- ===== src/Ketama/Route/Grow.antt =====
-- Consistent hashing: what happens to the keys when a server is added at the end of the list.
use mathlib.Core.List.{Permᴰ}
use ketamarouter.Base.{
  ℕ, ◌+◌, ◌<◌, ◌≡◌, ◌⊎◌, inl, inr, sym, ap, ◌∙◌, some, List, [], ◌∷◌, ◌++◌, arith, Bytes, length,
  length-append, All,
}
use ketamarouter.Base.Int.{pos}
use ketamarouter.Ketama.State.{Mcs, ServerInfo, Ketama}
use ketamarouter.Ketama.Servers.Holds.{total_memory}
use ketamarouter.Ketama.Continuum.{hashi, server_points}
use ketamarouter.Ketama.Continuum.Points.{ring_points-kept, ring_points-append, server_points-own}
use ketamarouter.Ketama.Continuum.Sorted.{Qsort, IsBuilt, points_of, length-perm}
use ketamarouter.Ketama.Lookup.{get_server_ordinal}
use ketamarouter.Ketama.Lookup.Owner.{get_server_ordinal-owner}
use ketamarouter.Ketama.Lookup.Next.{In, owner-Next}
use ketamarouter.Ketama.Route.{All-In, Unambiguous, Next-moves}

In-perm : {xs ys : List Mcs} (c : Mcs) → Permᴰ xs ys → In c xs → In c ys
In-perm c Permᴰ.nil m = m
In-perm c (Permᴰ.cons e p) (inl h) = inl (h ∙ e)
In-perm c (Permᴰ.cons e p) (inr m) = inr (In-perm c p m)
In-perm c (Permᴰ.swap e f) (inl h) = inr (inl (h ∙ e))
In-perm c (Permᴰ.swap e f) (inr (inl h)) = inl (h ∙ f)
In-perm c (Permᴰ.swap e f) (inr (inr m)) = inr (inr m)
In-perm c (Permᴰ.trans p q) m = In-perm c q (In-perm c p m)

In-perm_back : {xs ys : List Mcs} (c : Mcs) → Permᴰ xs ys → In c ys → In c xs
In-perm_back c Permᴰ.nil m = m
In-perm_back c (Permᴰ.cons e p) (inl h) = inl (h ∙ sym e)
In-perm_back c (Permᴰ.cons e p) (inr m) = inr (In-perm_back c p m)
In-perm_back c (Permᴰ.swap e f) (inl h) = inr (inl (h ∙ sym f))
In-perm_back c (Permᴰ.swap e f) (inr (inl h)) = inl (h ∙ sym e)
In-perm_back c (Permᴰ.swap e f) (inr (inr m)) = inr (inr m)
In-perm_back c (Permᴰ.trans p q) m = In-perm_back c p (In-perm_back c q m)

In-append_left : (c : Mcs) (xs ys : List Mcs) → In c xs → In c (xs ++ ys)
In-append_left c [] ys m = absurd m
In-append_left c (x ∷ xs) ys (inl e) = inl e
In-append_left c (x ∷ xs) ys (inr m) = inr (In-append_left c xs ys m)

In-append : (c : Mcs) (xs ys : List Mcs) → In c (xs ++ ys) → In c xs ⊎ In c ys
In-append c [] ys m = inr m
In-append c (x ∷ xs) ys (inl e) = inl (inl e)
In-append c (x ∷ xs) ys (inr m) = elim (In-append c xs ys m) [ inl l ↦ inl (inr l) | inr r ↦ inr r ]

module _ (digest : Bytes → List ℕ) (share : ℕ → ℕ → ℕ → ℕ) (q : Qsort) (infos : List ServerInfo)
    (s : ServerInfo) where
  abbrev grown : List ServerInfo
  grown = infos ++ s ∷ []

  -- The servers of `infos` get as many rounds in the longer list.
  abbrev pub KeepsShares : Type 0
  KeepsShares =
      All
        (λ t.
          share t.memory (total_memory (infos ++ s ∷ [])) (length (infos ++ s ∷ []))
          ≡ share t.memory (total_memory infos) (length infos))
        infos

  abbrev new_points : List Mcs
  new_points =
      server_points digest (length infos) s.addr
        (share s.memory (total_memory grown) (length grown)) 0

  points-grown :
      KeepsShares → points_of digest share q grown ≡ points_of digest share q infos ++ new_points
  points-grown kept =
      let e : 0 + length infos ≡ length infos = omega arith in
      rw (
        ring_points-append digest share _ _ 0 infos s,
        ring_points-kept digest share _ _ _ _ 0 infos kept,
        e,
      )

  module _ (cells cells' : List Mcs) (kept : KeepsShares)
      (p : Permᴰ cells (points_of digest share q infos))
      (p' : Permᴰ cells' (points_of digest share q grown)) where
    old_stay : (c : Mcs) → In c cells → In c cells'
    old_stay c m =
        In-perm_back c p' (rw (points-grown kept) (In-append_left c _ new_points (In-perm c p m)))

    new_or_old : (c : Mcs) → In c cells' → In c cells ⊎ (c.ordinal ≡ length infos)
    new_or_old c m = elim (In-append c _ new_points (rw (points-grown kept) at (In-perm c p' m))) [
      | inl old ↦ inl (In-perm_back c p old)
      | inr new ↦ inr (All-In _ new_points c (server_points-own digest share _ _ _ 0) new)
    ]

  -- Consistent hashing. Where a server is added behind others that keep their number of
  -- rounds, and no point of the circle belongs to two servers, each key stays with its server
  -- or moves to the new one.
  pub grow_moves :
      (k k' : Ketama) (cells cells' : List Mcs) (key : Bytes)
      → IsBuilt digest share q infos k cells
      → IsBuilt digest share q (infos ++ s ∷ []) k' cells'
      → KeepsShares
      → Unambiguous cells'
      → 0 < length cells
      → (get_server_ordinal digest k' key ≡ get_server_ordinal digest k key)
        ⊎ (get_server_ordinal digest k' key ≡ some (pos (length infos)))
  grow_moves k k' cells cells' key b b' kept one some_cell =
      let h = hashi digest key in
      let (c, found, next) = owner-Next cells h b.is_ring.ascends some_cell in
      let (d, found', next') = owner-Next cells' h b'.is_ring.ascends some_cell' in
      let lookup = get_server_ordinal-owner digest k cells key b.is_ring in
      let lookup' = get_server_ordinal-owner digest k' cells' key b'.is_ring in
      elim (Next-moves cells cells' h (length infos) c d one
        (old_stay cells cells' kept b.perm b'.perm) (new_or_old cells cells' kept b.perm b'.perm)
        next next') [
          | inl e ↦ inl (rw (lookup, lookup', found, found', e))
          | inr e ↦ inr (rw (lookup', found', e))
        ]
    where
      some_cell' : 0 < length cells'
      some_cell' = omega (
        arith,
        length-perm b.perm,
        length-perm b'.perm,
        ap length (points-grown kept),
        length-append (points_of digest share q infos) new_points,
      )
