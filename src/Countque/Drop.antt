-- ===== src/Countque/Drop.antt =====
-- The tics that `cq_adjust` drops.
use ketamarouter.Base.{
  ℕ, ◌+◌, ◌^◌, ◌≤◌, ◌<◌, ◌≡◌, refl, ◌∙◌, List, [], ◌∷◌, ◌++◌, arith, leb, u64, Bool-cases, inl, inr,
}
use ketamarouter.Base.Int.{ℤ, pos, leb_ℤ}
use ketamarouter.Pabuf.{pabuf_back, sub64}
use ketamarouter.Pabuf.Owns.{Owns}
use ketamarouter.Pabuf.Back.{pabuf_back-Owns}
use ketamarouter.Countque.{Tic, Countque, get_ttl_time, drop_tics, cq_adjust}
use ketamarouter.Countque.Window.{
  window, live_tics, total, UpTo, UpTo-tail, addrs, get_ttl_time_lem,
}

module _ (w b : ℕ) where
  -- The oldest tic lives, so all do.
  live_tics-all :
      (t : Tic) (tics : List Tic)
      → UpTo b (t ∷ tics)
      → b < t.time + w
      → live_tics w b (t ∷ tics) ≡ total (t ∷ tics)
  live_tics-all t [] o h = ground arith
  live_tics-all t (u ∷ tics) o h = ground (arith, live_tics-all u tics o.1)

module _ (w b : ℕ) (others : List ℕ) where
  -- What dropping the old ones of `tics` leaves.
  pub record Dropped (cq cq' : Countque) (tics : List Tic) : Type 0 where
    pub rate : (cq'.tic_per_sec ≡ cq.tic_per_sec) × (cq'.tic_max_cnt ≡ cq.tic_max_cnt)
    pub agree : (x : ℕ) → b ≤ x → live_tics w x cq'.tics ≡ live_tics w x tics
    pub summed : cq'.count ≡ total cq'.tics
    pub sum_bound : total cq'.tics ≤ total tics
    pub ordered : UpTo b cq'.tics
    pub alive : live_tics w b cq'.tics ≡ total cq'.tics
    pub owned : Owns cq'.tic_buffer (addrs cq'.tics ++ others)

  drop_old :
      (t : Tic) (tics : List Tic) (cq cq' cq'' : Countque)
      → t.time + w ≤ b
      → (cq'.tic_per_sec ≡ cq.tic_per_sec) × (cq'.tic_max_cnt ≡ cq.tic_max_cnt)
      → Dropped cq' cq'' tics
      → Dropped cq cq'' (t ∷ tics)
  drop_old t tics cq cq' cq'' old r d = record {
    rate = (d.rate.0 ∙ r.0, d.rate.1 ∙ r.1);
    agree = λ x h. ground (arith, d.agree x h);
    summed = d.summed;
    sum_bound = omega (arith, d.sum_bound);
    ordered = d.ordered;
    alive = d.alive;
    owned = d.owned;
  }

  keep_young :
      (t : Tic) (tics : List Tic) (cq : Countque)
      → b < t.time + w
      → cq.count ≡ total (t ∷ tics)
      → UpTo b (t ∷ tics)
      → Owns cq.tic_buffer (addrs (t ∷ tics) ++ others)
      → Dropped cq (record cq { tics = t ∷ tics }) (t ∷ tics)
  keep_young t tics cq young summed o own = record {
    rate = (refl, refl);
    agree = λ x h. refl;
    summed = summed;
    sum_bound = omega arith;
    ordered = o;
    alive = live_tics-all w b t tics o young;
    owned = own;
  }

  module _ (ttl : ℤ) (expires : (time : ℕ) → leb_ℤ (pos time) ttl ≡ leb (time + w) b) where
    pub drop_tics-Dropped :
        (tics : List Tic) (cq : Countque)
        → cq.count ≡ total tics
        → total tics < u64
        → UpTo b tics
        → Owns cq.tic_buffer (addrs tics ++ others)
        → Dropped cq (drop_tics ttl tics cq) tics
    unfolding drop_tics
    drop_tics-Dropped [] cq summed bound o own = record {
      rate = (refl, refl);
      agree = λ x h. refl;
      summed = summed;
      sum_bound = omega arith;
      ordered = tt;
      alive = refl;
      owned = own;
    }
    drop_tics-Dropped (t ∷ tics) cq summed bound o own =
        let freed : Countque = record cq {
          count = sub64 cq.count t.count;
          tic_buffer = pabuf_back cq.tic_buffer t.addr;
        } in
        elim (Bool-cases (leb (t.time + w) b)) [
          | inl old ↦
              rw (expires t.time, old)
                (drop_old t tics cq freed _ (ground arith) (refl, refl)
                  (drop_tics-Dropped tics freed (omega arith) (omega arith) (UpTo-tail b t tics o)
                    (pabuf_back-Owns cq.tic_buffer t.addr (addrs tics ++ others) own)))
          | inr young ↦
              rw (expires t.time, young) (keep_young t tics cq (ground arith) summed o own)
        ]

-- The whole of `cq_adjust`.
pub cq_adjust-Dropped :
    (cq : Countque) (b : ℕ) (others : List ℕ)
    → window cq < 2 ^ 31
    → cq.count ≡ total cq.tics
    → total cq.tics < u64
    → UpTo b cq.tics
    → Owns cq.tic_buffer (addrs cq.tics ++ others)
    → Dropped (window cq) b others cq (cq_adjust cq b) cq.tics
unfolding cq_adjust
cq_adjust-Dropped cq b others small =
    drop_tics-Dropped (window cq) b others (get_ttl_time b cq.tic_per_sec cq.tic_max_cnt)
      (λ time. get_ttl_time_lem time b cq.tic_per_sec cq.tic_max_cnt small) cq.tics cq
