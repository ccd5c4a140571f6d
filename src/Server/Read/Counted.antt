-- ===== src/Server/Read/Counted.antt =====
-- How the requests of a client add up in the counters.
use ketamarouter.Base.{ℕ, ◌+◌, ◌*◌, ◌%◌, u64, ◌≡◌, arith}
use ketamarouter.Session.{Requests, increase_req_ok, increase_req_err}
use ketamarouter.Server.Read.Answers.{Kind, served, failed, refused, counted}
use ketamarouter.Server.Read.Requests.{ones}

-- The requests are counted modulo 2 ^ 64: those that fail once in all and twice as in order with the
-- client, once with the worker and once with the server, which counts no other.
abbrev pub Counted : ℕ × ℕ × ℕ → Requests × Requests × ℕ → Requests × Requests × ℕ → Type 0
Counted (ok, bad, err) (c, w, n) (c', w', n') =
    (c'.req_all % u64 ≡ (c.req_all + (ok + bad + err)) % u64)
    × (c'.req_ok % u64 ≡ (c.req_ok + (ok + 2 * bad)) % u64)
    × (c'.req_err % u64 ≡ (c.req_err + err) % u64)
    × (w'.req_all % u64 ≡ (w.req_all + (ok + bad + err)) % u64)
    × (w'.req_ok % u64 ≡ (w.req_ok + (ok + bad)) % u64)
    × (w'.req_err % u64 ≡ (w.req_err + err) % u64)
    × (n' % u64 ≡ (n + bad) % u64)

pub counted-Counted : (k : Kind) (c : Requests × Requests × ℕ) → Counted (ones k) c (counted k c)
unfolding counted increase_req_ok increase_req_err
counted-Counted served c = ground arith
counted-Counted failed c = ground arith
counted-Counted refused c = ground arith

pub Counted-none : (c : Requests × Requests × ℕ) → Counted (0, 0, 0) c c
Counted-none c = ground arith

pub Counted-trans :
    (m n : ℕ × ℕ × ℕ) (c d e : Requests × Requests × ℕ)
    → Counted m c d
    → Counted n d e
    → Counted (m.0 + n.0, m.1 + n.1, m.2 + n.2) c e
Counted-trans m n c d e h g = ground arith
