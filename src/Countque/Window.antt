-- ===== src/Countque/Window.antt =====
-- The events that lie in the window of a queue.
use ketamarouter.Base.{
  ℕ, ◌+◌, ◌*◌, ◌^◌, ◌≤◌, ◌<◌, ◌≡◌, Bool, List, [], ◌∷◌, ◌++◌, arith, ltb, leb, if◌then◌else◌, u32,
  length,
}
use ketamarouter.Base.Int.{pos, leb_ℤ, to_int}
use ketamarouter.Pabuf.Owns.{Owns}
use ketamarouter.Countque.{Tic, Countque, minus, get_ttl_time}

-- The length of the window, in seconds.
abbrev pub window : Countque → ℕ
window cq = cq.tic_per_sec * cq.tic_max_cnt

-- An event of bucket `e` lies in the window of bucket `b`.
abbrev pub is_live : ℕ → ℕ → ℕ → Bool
is_live w b e = ltb b (e + w)

-- How many of the buckets lie in the window.
abbrev pub live : ℕ → ℕ → List ℕ → ℕ
live w b [] = 0
live w b (e ∷ events) = (if is_live w b e then 1 else 0) + live w b events

-- The same, of the tics.
abbrev pub live_tics : ℕ → ℕ → List Tic → ℕ
live_tics w b [] = 0
live_tics w b (t ∷ tics) = (if is_live w b t.time then t.count else 0) + live_tics w b tics

abbrev pub total : List Tic → ℕ
total [] = 0
total (t ∷ tics) = t.count + total tics

-- Times ascend, up to `b`.
abbrev pub UpTo : ℕ → List Tic → Type 0
UpTo b [] = Unit
UpTo b (t ∷ []) = t.time ≤ b
UpTo b (t ∷ u ∷ tics) = (t.time ≤ u.time) × UpTo b (u ∷ tics)

abbrev pub addrs : List Tic → List ℕ
addrs [] = []
addrs (t ∷ tics) = t.addr ∷ addrs tics

expired_iff :
    (w time base : ℕ) → w < 2 ^ 31 → leb_ℤ (pos time) (minus base (to_int w)) ≡ leb (time + w) base
expired_iff w time base small = ground arith

-- A tic is dropped where its window has passed.
pub get_ttl_time_lem :
    (time base per max : ℕ)
    → per * max < 2 ^ 31
    → leb_ℤ (pos time) (get_ttl_time base per max) ≡ leb (time + per * max) base
unfolding get_ttl_time
get_ttl_time_lem time base per max small = expired_iff (per * max) time base small

-- What is known of the queue: the buckets of the events so far, and who else holds tics.
pub record Tracks (cq : Countque) (events others : List ℕ) (b : ℕ) : Type 0 where
  pub small : window cq < 2 ^ 31
  pub few : length events < u32
  pub agree : (x : ℕ) → b ≤ x → live_tics (window cq) x cq.tics ≡ live (window cq) x events
  pub summed : cq.count ≡ total cq.tics
  pub sum_bound : total cq.tics ≤ length events
  pub ordered : UpTo b cq.tics
  pub owned : Owns cq.tic_buffer (addrs cq.tics ++ others)

pub UpTo-tail : (b : ℕ) (t : Tic) (tics : List Tic) → UpTo b (t ∷ tics) → UpTo b tics
UpTo-tail b t [] o = tt
UpTo-tail b t (u ∷ tics) o = o.1
