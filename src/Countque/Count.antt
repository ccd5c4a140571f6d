-- ===== src/Countque/Count.antt =====
-- `cq_tic_time`, `cq_count` and `cq_free` on a queue with events.
use ketamarouter.Base.{
  ℕ, ◌+◌, ◌-◌, ◌*◌, ◌^◌, ◌≤◌, ◌<◌, ◌≡◌, refl, ap₂, ◌∙◌, Option, none, some, List, [], ◌∷◌, ◌++◌,
  arith, ◌==◌, if◌then◌else◌, u32, length, length-append, Bool-cases, inl, inr,
}
use ketamarouter.Pabuf.{Pabuf, pabuf_get, inc32}
use ketamarouter.Pabuf.Owns.{Owns, Owns-reorder}
use ketamarouter.Pabuf.Get.{pabuf_get-Owns}
use ketamarouter.Pabuf.Back.{pabuf_back-Owns}
use ketamarouter.Countque.{
  Tic, Countque, get_base_time_by_time, cq_adjust, last, inc_last, add_tic, count_event,
  cq_tic_init, cq_tic_time, cq_count, cq_free, free_tics, cq_init,
}
use ketamarouter.Countque.Window.{window, is_live, live, live_tics, total, UpTo, addrs, Tracks}
use ketamarouter.Countque.Drop.{cq_adjust-Dropped}
use ketamarouter.Countque.Tics.{
  live_tics-inc_last, live_tics-append, live-append, total-inc_last, addrs-inc_last, UpTo-inc_last,
  UpTo-mono, UpTo-append, total-append, occurs-append_tic, length-append_tic,
}

-- One more event at `b`, not yet in the queue's count.
record Counted (w b : ℕ) (others : List ℕ) (cq cq' : Countque) : Type 0 where
  rate : (cq'.tic_per_sec ≡ cq.tic_per_sec) × (cq'.tic_max_cnt ≡ cq.tic_max_cnt)
  same : cq'.count ≡ cq.count
  agree :
      (x : ℕ) → live_tics w x cq'.tics ≡ live_tics w x cq.tics + (if is_live w x b then 1 else 0)
  summed : total cq'.tics ≡ total cq.tics + 1
  ordered : UpTo b cq'.tics
  owned : Owns cq'.tic_buffer (addrs cq'.tics ++ others)

module _ (cq : Countque) (b₀ b : ℕ) (others : List ℕ) (later : b₀ ≤ b) (ordered : UpTo b₀ cq.tics)
    (own : Owns cq.tic_buffer (addrs cq.tics ++ others)) where
  add_tic-Counted : (w : ℕ) → Counted w b others cq (add_tic cq b)
  unfolding add_tic cq_tic_init
  add_tic-Counted w =
      let t : Tic = record { addr = (pabuf_get cq.tic_buffer).0; count = inc32 0; time = b } in
      record {
        rate = (refl, refl);
        same = refl;
        agree = λ x. ground (arith, live_tics-append w x b cq.tics (t ∷ []));
        summed = omega (arith, total-append cq.tics (t ∷ []));
        ordered = UpTo-append b₀ b cq.tics t later refl ordered;
        owned =
            Owns-reorder _ (t.addr ∷ addrs cq.tics ++ others) _ (pabuf_get-Owns _ _ own)
              (length-append_tic others cq.tics t) (λ a. occurs-append_tic a others cq.tics t);
      }

  inc_last-Counted :
      (w : ℕ) (l : Tic)
      → last cq.tics ≡ some l
      → l.time ≡ b
      → total cq.tics < u32 - 1
      → Counted w b others cq (record cq { tics = inc_last cq.tics })
  inc_last-Counted w l e t few = record {
    rate = (refl, refl);
    same = refl;
    agree = λ x. live_tics-inc_last w x b cq.tics l e t few;
    summed = total-inc_last cq.tics l e few;
    ordered = UpTo-mono b₀ b _ later (UpTo-inc_last b₀ cq.tics ordered);
    owned = rw (addrs-inc_last cq.tics) own;
  }

  count_event-Counted : (w : ℕ) → total cq.tics < u32 - 1 → Counted w b others cq (count_event cq b)
  unfolding count_event
  count_event-Counted w few = go (last cq.tics) refl
    where
      go : (o : Option Tic) → last cq.tics ≡ o → Counted w b others cq (count_event cq b)
      go none e = rw (e, count_event) (add_tic-Counted w)
      go (some l) e = elim (Bool-cases (l.time == b)) [
        | inl t ↦ rw (e, count_event, t) (inc_last-Counted w l e (ground arith) few)
        | inr n ↦ rw (e, count_event, n) (add_tic-Counted w)
      ]

-- A call of `cq_adjust` on a queue whose tics agree with the events: its count is the number of
-- events in the window.
adjusted :
    (cq : Countque) (events others : List ℕ) (b w : ℕ)
    → window cq ≡ w
    → w < 2 ^ 31
    → length events < u32
    → ((x : ℕ) → b ≤ x → live_tics w x cq.tics ≡ live w x events)
    → cq.count ≡ total cq.tics
    → total cq.tics ≤ length events
    → UpTo b cq.tics
    → Owns cq.tic_buffer (addrs cq.tics ++ others)
    → ((cq_adjust cq b).count ≡ live w b events) × Tracks (cq_adjust cq b) events others b
adjusted cq events others b w e small few agree summed bound ordered own =
    let d = cq_adjust-Dropped cq b others (omega arith) summed (omega arith) ordered own in
    let v : window (cq_adjust cq b) ≡ w = ap₂ (λ m n. m * n) d.rate.0 d.rate.1 ∙ e in
    let d_agree = rw e at d.agree in
    (
      omega (arith, d.summed, rw e at d.alive, d_agree b (omega arith), agree b (omega arith)),
      record {
        small = omega arith;
        few = few;
        agree = λ x h. rw v (d_agree x h ∙ agree x h);
        summed = d.summed;
        sum_bound = omega (arith, d.sum_bound);
        ordered = d.ordered;
        owned = d.owned;
      },
    )

module _ (cq : Countque) (events others : List ℕ) (b₀ t : ℕ) (tr : Tracks cq events others b₀) where
  -- An event at time `t`, in a bucket that is not before the last one. `cq_tic_time` returns how
  -- many of the events so far, this one included, lie in the window that ends with its bucket; the
  -- queue goes on keeping track of them, and its pool of the tics.
  pub cq_tic_time-live :
      b₀ ≤ get_base_time_by_time cq.tic_per_sec t
      → length events < u32 - 1
      → let b = get_base_time_by_time cq.tic_per_sec t in
        ((cq_tic_time cq t).0 ≡ live (window cq) b (events ++ b ∷ []))
        × Tracks (cq_tic_time cq t).1 (events ++ b ∷ []) others b
  unfolding cq_tic_time
  cq_tic_time-live later few =
      let b : ℕ = get_base_time_by_time cq.tic_per_sec t in
      let c =
        count_event-Counted cq b₀ b others later tr.ordered tr.owned (window cq)
          (omega (arith, tr.sum_bound)) in
      let n = length-append events (b ∷ []) in
      adjusted _ (events ++ b ∷ []) others b (window cq) (ap₂ (λ m n. m * n) c.rate.0 c.rate.1)
        tr.small (omega arith)
        (λ x h.
          omega
            (arith, c.agree x, tr.agree x (omega arith), live-append (window cq) x events (b ∷ [])))
        (omega (arith, c.same, c.summed, tr.summed, tr.sum_bound))
        (omega (arith, c.summed, tr.sum_bound)) c.ordered c.owned

  -- `cq_count` at a time that is not before the last event returns how many events lie in the window
  -- that ends with that time's bucket.
  pub cq_count-live :
      b₀ ≤ get_base_time_by_time cq.tic_per_sec t
      → let b = get_base_time_by_time cq.tic_per_sec t in
        ((cq_count cq t).0 ≡ live (window cq) b events) × Tracks (cq_count cq t).1 events others b
  unfolding cq_count
  cq_count-live later =
      let b : ℕ = get_base_time_by_time cq.tic_per_sec t in
      adjusted cq events others b (window cq) refl tr.small tr.few (λ x h. tr.agree x (omega arith))
        tr.summed tr.sum_bound (UpTo-mono b₀ b cq.tics later tr.ordered) tr.owned

free_tics-Owns :
    (tics : List Tic) (buffer : Pabuf) (others : List ℕ)
    → Owns buffer (addrs tics ++ others)
    → Owns (free_tics tics buffer) others
unfolding free_tics
free_tics-Owns [] buffer others own = own
free_tics-Owns (t ∷ tics) buffer others own =
    free_tics-Owns tics _ others (pabuf_back-Owns buffer t.addr (addrs tics ++ others) own)

-- `cq_free` gives every tic of the queue back to its pool, and the queue to the pool of queues.
pub cq_free-Owns :
    (cq : Countque) (events others items : List ℕ) (b₀ : ℕ)
    → Tracks cq events others b₀
    → Owns cq.item_buffer (cq.addr ∷ items)
    → Owns (cq_free cq).0 others × Owns (cq_free cq).1 items
unfolding cq_free
cq_free-Owns cq events others items b₀ tr own =
    (free_tics-Owns cq.tics cq.tic_buffer others tr.owned, pabuf_back-Owns _ cq.addr items own)

-- A new queue tracks no event.
pub cq_init-Tracks :
    (per max b₀ : ℕ) (items tics : Pabuf) (others : List ℕ)
    → per * max < 2 ^ 31
    → Owns tics others
    → Tracks (cq_init per max items tics) [] others b₀
unfolding cq_init
cq_init-Tracks per max b₀ items tics others small own = record {
  small = small;
  few = omega arith;
  agree = λ x h. refl;
  summed = refl;
  sum_bound = omega arith;
  ordered = tt;
  owned = own;
}
