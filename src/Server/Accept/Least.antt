-- ===== src/Server/Accept/Least.antt =====
-- Which worker `server_get_least_connection_worker` finds.
use ketamarouter.Base.{
  ℕ, zero, suc, ◌+◌, ◌≤◌, ◌<◌, ◌≡◌, ◌⊎◌, inl, inr, refl, some, List, [], ◌∷◌, ltb, arith, length,
  get_or, All, Bool-cases,
}
use ketamarouter.Server.Accept.{Worker, worker_init, least_loop, least_connection_worker}

abbrev pub count_at : List Worker → ℕ → ℕ
count_at workers i = (get_or workers i worker_init).num_client

abbrev pub AtLeast : ℕ → List Worker → Type 0
AtLeast n = All (λ w. n ≤ w.num_client)

-- The index `r` is the first with the fewest clients.
abbrev pub IsLeast : List Worker → ℕ → Type 0
IsLeast workers r =
    (r < length workers)
    × AtLeast (count_at workers r) workers
    × ((m : ℕ) → m < r → count_at workers r < count_at workers m)

AtLeast-mono : (n k : ℕ) (workers : List Worker) → k ≤ n → AtLeast n workers → AtLeast k workers
AtLeast-mono n k [] h a = tt
AtLeast-mono n k (w ∷ workers) h a = (omega (arith, a.0), AtLeast-mono n k workers h a.1)

IsLeast-suc :
    (x : Worker) (workers : List Worker) (j : ℕ)
    → count_at workers j < x.num_client
    → IsLeast workers j
    → IsLeast (x ∷ workers) (suc j)
IsLeast-suc x workers j h least = (omega (arith, least.0), (omega arith, least.1), before)
  where
    before : (m : ℕ) → m < suc j → count_at workers j < count_at (x ∷ workers) m
    before zero lt = h
    before (suc m) lt = least.2 m (omega arith)

least_loop_lem :
    (i w n : ℕ) (workers : List Worker)
    → ((least_loop i w n workers ≡ w) × AtLeast n workers)
      ⊎ ((j : ℕ) × (least_loop i w n workers ≡ i + j)
          × (count_at workers j < n)
          × IsLeast workers j)
unfolding least_loop
least_loop_lem i w n [] = inl (refl, tt)
least_loop_lem i w n (x ∷ workers) = elim (Bool-cases (ltb x.num_client n)) [
  | inl t ↦
      let lt : x.num_client < n = ground arith in
      elim (least_loop_lem (i + 1) i x.num_client workers) [
        | inl (e, a) ↦ inr (
          0,
          rw t (omega (arith, e)),
          lt,
          (omega arith, (omega arith, a), λ m h. absurd (omega arith)),
        )
        | inr (j, e, less, least) ↦ inr (
          suc j,
          rw t (omega (arith, e)),
          omega (arith, less),
          IsLeast-suc x workers j less least,
        )
      ]
  | inr f ↦
      let le : n ≤ x.num_client = ground arith in
      elim (least_loop_lem (i + 1) w n workers) [
        | inl (e, a) ↦ inl (rw f e, (le, a))
        | inr (j, e, less, least) ↦ inr (
          suc j,
          rw f (omega (arith, e)),
          less,
          IsLeast-suc x workers j (omega (arith, less)) least,
        )
      ]
]

-- Where there is a worker, the loop yields the index of the first of those with the fewest clients.
pub least_connection_worker-IsLeast :
    (workers : List Worker)
    → 0 < length workers
    → (r : ℕ) × (least_connection_worker workers ≡ some r) × IsLeast workers r
unfolding least_connection_worker
least_connection_worker-IsLeast [] h = absurd (omega arith)
least_connection_worker-IsLeast (w ∷ workers) h = elim (least_loop_lem 1 0 w.num_client workers) [
  | inl (e, a) ↦ (0, rw e refl, (omega arith, (omega arith, a), λ m h. absurd (omega arith)))
  | inr (j, e, less, least) ↦
      let n : 1 + j ≡ suc j = omega arith in
      (suc j, rw (e, n) refl, IsLeast-suc w workers j less least)
]
