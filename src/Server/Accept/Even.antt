-- ===== src/Server/Accept/Even.antt =====
-- How `server_event_accept` spreads connections over the workers.
use ketamarouter.Base.{
  ℕ, zero, suc, ◌+◌, ◌≤◌, ◌<◌, ◌≡◌, ◌⊎◌, inl, inr, refl, sym, subst, Bool, some, List, [], ◌∷◌,
  Bytes, u32, arith, length, get_or, length-set,
}
use ketamarouter.Response.{Rows}
use ketamarouter.Server.Accept.{
  Worker, Server, worker_init, worker_increase_count, at_worker, Accepted, refused, taken_by,
  server_event_accept,
}
use ketamarouter.Server.Accept.Least.{count_at, AtLeast, IsLeast}
use ketamarouter.Server.Accept.Limit.{
  total_clients, count_at-total, Outcome, server_event_accept-Outcome,
}

-- The counts of any two workers differ by one at most.
abbrev pub IsEven : List Worker → Type 0
IsEven workers =
    (i j : ℕ)
    → i < length workers
    → j < length workers
    → count_at workers i ≤ count_at workers j + 1

count_at-increase :
    (workers : List Worker) (r i : ℕ)
    → r < length workers
    → count_at workers r + 1 < u32
    → let c = count_at (at_worker worker_increase_count r workers) i in
      ((count_at workers i ≡ count_at workers r) × (c ≡ count_at workers r + 1))
      ⊎ (c ≡ count_at workers i)
unfolding worker_increase_count
count_at-increase [] r i h b = absurd (omega arith)
count_at-increase (w ∷ workers) zero zero h b = inl (refl, omega arith)
count_at-increase (w ∷ workers) zero (suc i) h b = inr refl
count_at-increase (w ∷ workers) (suc r) zero h b = inr refl
count_at-increase (w ∷ workers) (suc r) (suc i) h b = count_at-increase workers r i (omega arith) b

AtLeast-count_at :
    (n : ℕ) (workers : List Worker) (i : ℕ)
    → AtLeast n workers
    → i < length workers
    → n ≤ count_at workers i
AtLeast-count_at n [] i a h = absurd (omega arith)
AtLeast-count_at n (w ∷ workers) zero a h = a.0
AtLeast-count_at n (w ∷ workers) (suc i) a h = AtLeast-count_at n workers i a.1 (omega arith)

-- Where the counts of any two workers differ by one at most and stay below 2 ^ 32 - 1, they still do
-- when the first of the workers with the fewest clients takes a connection.
pub at_worker-IsEven :
    (workers : List Worker) (r : ℕ)
    → IsEven workers
    → IsLeast workers r
    → count_at workers r + 1 < u32
    → IsEven (at_worker worker_increase_count r workers)
at_worker-IsEven workers r even least b i j hi hj =
    let len : length (at_worker worker_increase_count r workers) ≡ length workers =
      length-set workers r (worker_increase_count (get_or workers r worker_init)) in
    let a = count_at-increase workers r i least.0 b in
    let c = count_at-increase workers r j least.0 b in
    let low = AtLeast-count_at (count_at workers r) workers j least.1 (omega (arith, len)) in
    let top = even i r (omega (arith, len)) least.0 in
    let near = even i j (omega (arith, len)) (omega (arith, len)) in
    ground (arith, a, c, low, top, near)

-- Where the counts of any two workers differ by one at most, they still do after
-- `server_event_accept`, for a server with a worker, a limit below 2 ^ 32 and no more connections
-- than that.
pub server_event_accept-IsEven :
    (write_ok : Rows → Bytes → Bool) (s : Server)
    → 0 < length s.workers
    → s.max_connections < u32
    → total_clients s.workers ≤ s.max_connections
    → IsEven s.workers
    → (a : Accepted) × (t : Server) × (server_event_accept write_ok s ≡ some (a, t))
      × IsEven t.workers
server_event_accept-IsEven write_ok s some_worker m le even =
    let (a, t, e, bound, out) = server_event_accept-Outcome write_ok s some_worker m le in
    (a, t, e, even_after a t bound out)
  where
    even_after :
        (a : Accepted) (t : Server)
        → total_clients t.workers ≤ s.max_connections
        → Outcome write_ok s t a
        → IsEven t.workers
    even_after (refused rows) t bound out = subst IsEven (sym out.1) even
    even_after (taken_by w) t bound out =
        let c = count_at-total s.workers w out.0.0 in
        subst IsEven (sym out.1)
          (at_worker-IsEven s.workers w even out.0 (omega (arith, c, bound, out.2, m)))
