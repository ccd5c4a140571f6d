-- ===== src/Ketama/Continuum/Points.antt =====
-- The points of the circle, read off the list of servers.
use ketamarouter.Base.{
  ℕ, zero, suc, ◌+◌, ◌*◌, ◌≤◌, ◌<◌, ◌≡◌, refl, some, List, [], ◌∷◌, ◌++◌, arith, Bytes, length,
  length-append, All, All-append, append-nil, append_assoc,
}
use ketamarouter.Ketama.State.{Mcs, ServerInfo}
use ketamarouter.Ketama.Continuum.{digest_points, server_points, all_points}
use ketamarouter.Ketama.Servers.Holds.{filled}

module _ (digest : Bytes → List ℕ) (share : ℕ → ℕ → ℕ → ℕ) (total n : ℕ) where
  -- Server `i` and those after it have their points, in order.
  unfoldable pub ring_points : ℕ → List ServerInfo → List Mcs
  ring_points i [] = []
  ring_points i (s ∷ infos) =
      server_points digest i s.addr (share s.memory total n) 0 ++ ring_points (i + 1) infos

  -- The rounds that all servers get.
  abbrev pub total_share : List ServerInfo → ℕ
  total_share [] = 0
  total_share (s ∷ infos) = share s.memory total n + total_share infos

  pub all_points-filled :
      (infos : List ServerInfo) (rest i : ℕ)
      → all_points digest share total n (length infos) i (filled infos rest)
        ≡ some (ring_points i infos)
  unfolding all_points ring_points
  all_points-filled [] rest i = refl
  all_points-filled (s ∷ infos) rest i = rw (all_points-filled infos rest (i + 1))

module _ (digest : Bytes → List ℕ) where
  length-server_points :
      (i : ℕ) (addr : Bytes) (rounds k : ℕ)
      → length (server_points digest i addr rounds k) ≡ 4 * rounds
  unfolding server_points digest_points
  length-server_points i addr zero k = refl
  length-server_points i addr (suc rounds) k =
      omega (arith, length-server_points i addr rounds (k + 1))

  server_points-ordinal :
      (n i : ℕ) (addr : Bytes) (rounds k : ℕ)
      → i < n
      → All (λ c. c.ordinal < n) (server_points digest i addr rounds k)
  unfolding server_points digest_points
  server_points-ordinal n i addr zero k h = tt
  server_points-ordinal n i addr (suc rounds) k h =
      (h, (h, (h, (h, server_points-ordinal n i addr rounds (k + 1) h))))

module _ (digest : Bytes → List ℕ) (share : ℕ → ℕ → ℕ → ℕ) (total n : ℕ) where
  pub length-ring_points :
      (i : ℕ) (infos : List ServerInfo)
      → length (ring_points digest share total n i infos)
        ≡ 4 * total_share digest share total n infos
  unfolding ring_points
  length-ring_points i [] = refl
  length-ring_points i (s ∷ infos) = omega (
    arith,
    length-append (server_points digest i s.addr (share s.memory total n) 0)
        (ring_points digest share total n (i + 1) infos),
    length-server_points digest i s.addr (share s.memory total n) 0,
    length-ring_points (i + 1) infos,
  )

  -- Every point belongs to a server of the list.
  pub ring_points-ordinal :
      (i m : ℕ) (infos : List ServerInfo)
      → i + length infos ≤ m
      → All (λ c. c.ordinal < m) (ring_points digest share total n i infos)
  unfolding ring_points
  ring_points-ordinal i m [] h = tt
  ring_points-ordinal i m (s ∷ infos) h =
      All-append _ (server_points digest i s.addr (share s.memory total n) 0) _
        (server_points-ordinal digest m i s.addr (share s.memory total n) 0 (omega arith))
        (ring_points-ordinal (i + 1) m infos (omega arith))

module _ (digest : Bytes → List ℕ) (share : ℕ → ℕ → ℕ → ℕ) where
  -- The points do not change as long as each server keeps its rounds.
  pub ring_points-kept :
      (total n total' n' i : ℕ) (infos : List ServerInfo)
      → All (λ s. share s.memory total' n' ≡ share s.memory total n) infos
      → ring_points digest share total' n' i infos ≡ ring_points digest share total n i infos
  unfolding ring_points
  ring_points-kept total n total' n' i [] h = refl
  ring_points-kept total n total' n' i (s ∷ infos) h =
      rw (h.0, ring_points-kept total n total' n' (i + 1) infos h.1)

  pub ring_points-append :
      (total n i : ℕ) (infos : List ServerInfo) (s : ServerInfo)
      → ring_points digest share total n i (infos ++ s ∷ [])
        ≡ ring_points digest share total n i infos
          ++ server_points digest (i + length infos) s.addr (share s.memory total n) 0
  unfolding ring_points
  ring_points-append total n i [] s = let e : i + 0 ≡ i = omega arith in rw (e, append-nil)
  ring_points-append total n i (t ∷ infos) s =
      let e : i + suc (length infos) ≡ i + 1 + length infos = omega arith in
      rw (ring_points-append total n (i + 1) infos s, e, append_assoc)

  -- All points of a server bear its index.
  pub server_points-own :
      (i : ℕ) (addr : Bytes) (rounds k : ℕ)
      → All (λ c. c.ordinal ≡ i) (server_points digest i addr rounds k)
  unfolding server_points digest_points
  server_points-own i addr zero k = tt
  server_points-own i addr (suc rounds) k =
      (refl, (refl, (refl, (refl, server_points-own i addr rounds (k + 1)))))
