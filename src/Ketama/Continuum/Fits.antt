-- ===== src/Ketama/Continuum/Fits.antt =====
-- The number of points, and the memory that is allocated for them.
use ketamarouter.Base.{ℕ, ◌+◌, ◌*◌, ◌^◌, ◌≤◌, ◌<◌, List, [], ◌∷◌, arith, Bytes, length}
use native.Mathlib.Decide.{dec_le}
use ketamarouter.Ketama.State.{ServerInfo}
use ketamarouter.Ketama.Continuum.Points.{total_share}
use ketamarouter.Ketama.Servers.Holds.{total_memory}

mul_mono : (a b t : ℕ) → a ≤ b → a * t ≤ b * t
mul_mono a b t h = grind arith

-- IEEE arithmetic: with round to nearest the single-precision share is at most the exact share, but
-- for a relative error. Three roundings of 2 ^ -24 and two of 2 ^ -53 stay below 2 ^ -21, and
-- `floorf` is exact.
abbrev pub Rounds : (ℕ → ℕ → ℕ → ℕ) → Type 0
Rounds share =
    (w total n : ℕ)
    → 0 < total
    → w ≤ total
    → n < 2 ^ 24
    → share w total n * total * 2 ^ 21 ≤ w * 40 * n * (2 ^ 21 + 1)

module _ (digest : Bytes → List ℕ) (share : ℕ → ℕ → ℕ → ℕ) (rounds : Rounds share) (total n : ℕ)
    (some_memory : 0 < total) (small : n < 2 ^ 24) where
  total_share-bound :
      (infos : List ServerInfo)
      → total_memory infos ≤ total
      → total_share digest share total n infos * total * 2 ^ 21
        ≤ total_memory infos * 40 * n * (2 ^ 21 + 1)
  total_share-bound [] h = omega arith
  total_share-bound (s ∷ infos) h = omega (
    arith,
    rounds s.memory total n some_memory (omega arith) small,
    total_share-bound infos (omega arith),
  )

-- Cancelling the total, where the error is less than one round.
cancel_total :
    (s t n : ℕ) → 0 < t → n ≤ 52428 → s * t * 2 ^ 21 ≤ t * 40 * n * (2 ^ 21 + 1) → s ≤ 40 * n
cancel_total s t n pos small h = elim (dec_le s (40 * n)) [
  | yes le ↦ le
  | no gt ↦
      let product : (40 * n + 1) * t ≤ s * t = mul_mono (40 * n + 1) s t (omega arith) in
      let error : n * t ≤ 52428 * t = mul_mono n 52428 t small in absurd (omega arith)
]

-- Each server's rounds sum up to no more than 40 for each server, so that four points a round fit
-- 160 cells a server.
pub total_share-le :
    (digest : Bytes → List ℕ) (share : ℕ → ℕ → ℕ → ℕ) (infos : List ServerInfo)
    → Rounds share
    → 0 < total_memory infos
    → length infos ≤ 52428
    → total_share digest share (total_memory infos) (length infos) infos ≤ 40 * length infos
total_share-le digest share infos rounds pos small =
    cancel_total _ (total_memory infos) (length infos) pos small (
      total_share-bound digest share rounds (total_memory infos) (length infos) pos (omega arith)
        infos (omega arith))
