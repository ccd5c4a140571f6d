-- ===== src/Countque.antt =====
-- src/countque.h and src/countque.c: a counter of the events of a sliding window, in buckets of
-- `tic_per_sec` seconds. `time(NULL)` is an argument; times are not negative, and `tic_per_sec` is
-- positive, since the code divides by it. The queue is the list from `first` to `last`, so `last` is
-- NULL where it is empty; the two pools stand in the record of the queue that uses them.
pub mod Window
pub mod Drop
pub mod Tics
pub mod Count
mod Tests
use ketamarouter.Base.{
  ℕ, zero, suc, ◌+◌, ◌-◌, ◌*◌, ◌%◌, ◌≤◌, ◌≡◌, Bool, true, false, Option, none, some, List, [], ◌∷◌,
  ◌++◌, arith, ltb, leb, ◌==◌, if◌then◌else◌, u32, u64,
}
use ketamarouter.Base.Int.{ℤ, pos, negsuc, sub_ℕ, leb_ℤ, to_int}
use ketamarouter.Pabuf.{Pabuf, pabuf_get, pabuf_back, inc32, add64, sub64}

pub record Tic : Type 0 where
  pub addr : ℕ
  pub count : ℕ
  pub time : ℕ

pub record Countque : Type 0 where
  pub addr : ℕ
  pub count : ℕ
  pub tic_per_sec : ℕ
  pub tic_max_cnt : ℕ
  pub tics : List Tic
  pub tic_buffer : Pabuf
  pub item_buffer : Pabuf

abbrev pub get_base_time_by_time : ℕ → ℕ → ℕ
get_base_time_by_time term t = t - t % term

-- `get_base_time`, with the time that `time(NULL)` gives.
abbrev pub get_base_time : ℕ → ℕ → ℕ
get_base_time term now = get_base_time_by_time term now

abbrev minus : ℕ → ℤ → ℤ
minus a (pos b) = sub_ℕ a b
minus a (negsuc b) = pos (a + b + 1)

-- The product is an `int`.
unfoldable pub get_ttl_time : ℕ → ℕ → ℕ → ℤ
get_ttl_time base_time tic_per_sec tic_max_cnt =
    minus base_time (to_int (tic_per_sec * tic_max_cnt))

-- `cq_tic_init`; the caller sets the time.
unfoldable pub cq_tic_init : Countque → ℕ → Tic × Countque
cq_tic_init cq time =
    let (addr, buffer) = pabuf_get cq.tic_buffer in
    (record { addr = addr; count = 0; time = time }, record cq { tic_buffer = buffer })

unfoldable pub cq_tic_free : Countque → Tic → Countque
cq_tic_free cq tic = record cq { tic_buffer = pabuf_back cq.tic_buffer tic.addr }

-- The `while` loop of `cq_adjust`, over the tics from `first` on.
unfoldable pub drop_tics : ℤ → List Tic → Countque → Countque
drop_tics ttl [] cq = record cq { tics = [] }
drop_tics ttl (tic ∷ tics) cq =
    let rest = drop_tics ttl tics (record cq {
      count = sub64 cq.count tic.count;
      tic_buffer = pabuf_back cq.tic_buffer tic.addr;
    }) in
    if leb_ℤ (pos tic.time) ttl then rest else record cq { tics = tic ∷ tics }

unfoldable pub cq_adjust : Countque → ℕ → Countque
cq_adjust cq base_time = drop_tics (get_ttl_time base_time cq.tic_per_sec cq.tic_max_cnt) cq.tics cq

unfoldable pub cq_count : Countque → ℕ → ℕ × Countque
cq_count cq now = let cq' = cq_adjust cq (get_base_time cq.tic_per_sec now) in (cq'.count, cq')

unfoldable pub cq_init : ℕ → ℕ → Pabuf → Pabuf → Countque
cq_init tic_per_sec tic_max_cnt item_buffer tic_buffer =
    let (addr, items) = pabuf_get item_buffer in
    record {
      addr = addr;
      count = 0;
      tic_per_sec = tic_per_sec;
      tic_max_cnt = tic_max_cnt;
      tics = [];
      tic_buffer = tic_buffer;
      item_buffer = items;
    }

-- `cqi->last`.
abbrev pub last : List Tic → Option Tic
last [] = none
last (t ∷ []) = some t
last (t ∷ u ∷ tics) = last (u ∷ tics)

-- `cqi->last->count++`.
abbrev pub inc_last : List Tic → List Tic
inc_last [] = []
inc_last (t ∷ []) = record t { count = inc32 t.count } ∷ []
inc_last (t ∷ u ∷ tics) = t ∷ inc_last (u ∷ tics)

-- A new tic with one event, behind the others.
unfoldable pub add_tic : Countque → ℕ → Countque
add_tic cq base_time =
    let (tic, cq') = cq_tic_init cq base_time in
    record cq' { tics = cq'.tics ++ record tic { count = inc32 tic.count } ∷ [] }

-- The tic that counts an event at `base_time`.
unfoldable pub count_event : Countque → ℕ → Countque
count_event cq base_time = elim (last cq.tics) [
  | none ↦ add_tic cq base_time
  | some tic ↦
      if tic.time == base_time then record cq { tics = inc_last cq.tics } else add_tic cq base_time
]

unfoldable pub cq_tic_time : Countque → ℕ → ℕ × Countque
cq_tic_time cq t =
    let base_time = get_base_time_by_time cq.tic_per_sec t in
    let counted = count_event cq base_time in
    let cq' = cq_adjust (record counted { count = add64 counted.count 1 }) base_time in
    (cq'.count, cq')

unfoldable pub cq_tic : Countque → ℕ → ℕ × Countque
cq_tic cq now = cq_tic_time cq now

-- The `while` loop of `cq_free`.
unfoldable pub free_tics : List Tic → Pabuf → Pabuf
free_tics [] buffer = buffer
free_tics (tic ∷ tics) buffer = free_tics tics (pabuf_back buffer tic.addr)

-- The two pools, behind the queue's memory.
unfoldable pub cq_free : Countque → Pabuf × Pabuf
cq_free cq = (free_tics cq.tics cq.tic_buffer, pabuf_back cq.item_buffer cq.addr)
