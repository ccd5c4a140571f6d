-- ===== src/Countque/Tics.antt =====
-- Lists of tics: one more event in the last tic, and one more tic at the end.
use ketamarouter.Base.{
  ℕ, ◌+◌, ◌-◌, ◌≤◌, ◌<◌, ◌≡◌, refl, ap, some, List, [], ◌∷◌, ◌++◌, arith, if◌then◌else◌, u32,
  length,
}
use ketamarouter.Pabuf.Owns.{occurs}
use ketamarouter.Countque.{Tic, last, inc_last}
use ketamarouter.Countque.Window.{is_live, live, live_tics, total, UpTo, addrs}

module _ (w x b : ℕ) where
  pub live_tics-inc_last :
      (tics : List Tic) (l : Tic)
      → last tics ≡ some l
      → l.time ≡ b
      → total tics < u32 - 1
      → live_tics w x (inc_last tics) ≡ live_tics w x tics + (if is_live w x b then 1 else 0)
  live_tics-inc_last [] l e t h = cc
  live_tics-inc_last (c ∷ []) l e t h = ground arith
  live_tics-inc_last (c ∷ d ∷ tics) l e t h =
      omega (arith, live_tics-inc_last (d ∷ tics) l e t (omega arith))

  pub live_tics-append :
      (tics tics' : List Tic)
      → live_tics w x (tics ++ tics') ≡ live_tics w x tics + live_tics w x tics'
  live_tics-append [] tics' = omega arith
  live_tics-append (t ∷ tics) tics' = omega (arith, live_tics-append tics tics')

pub live-append : (w x : ℕ) (xs ys : List ℕ) → live w x (xs ++ ys) ≡ live w x xs + live w x ys
live-append w x [] ys = omega arith
live-append w x (e ∷ xs) ys = omega (arith, live-append w x xs ys)

pub total-inc_last :
    (tics : List Tic) (l : Tic)
    → last tics ≡ some l
    → total tics < u32 - 1
    → total (inc_last tics) ≡ total tics + 1
total-inc_last [] l e h = cc
total-inc_last (c ∷ []) l e h = omega arith
total-inc_last (c ∷ d ∷ tics) l e h = omega (arith, total-inc_last (d ∷ tics) l e (omega arith))

pub addrs-inc_last : (tics : List Tic) → addrs (inc_last tics) ≡ addrs tics
addrs-inc_last [] = refl
addrs-inc_last (c ∷ []) = refl
addrs-inc_last (c ∷ d ∷ tics) = ap (λ l. c.addr ∷ l) (addrs-inc_last (d ∷ tics))

pub UpTo-inc_last : (b : ℕ) (tics : List Tic) → UpTo b tics → UpTo b (inc_last tics)
UpTo-inc_last b [] o = tt
UpTo-inc_last b (c ∷ []) o = o
UpTo-inc_last b (c ∷ d ∷ []) o = o
UpTo-inc_last b (c ∷ d ∷ e ∷ tics) o = (o.0, UpTo-inc_last b (d ∷ e ∷ tics) o.1)

pub UpTo-mono : (b b' : ℕ) (tics : List Tic) → b ≤ b' → UpTo b tics → UpTo b' tics
UpTo-mono b b' [] le o = tt
UpTo-mono b b' (c ∷ []) le o = omega arith
UpTo-mono b b' (c ∷ d ∷ tics) le o = (o.0, UpTo-mono b b' (d ∷ tics) le o.1)

pub UpTo-append :
    (b b' : ℕ) (tics : List Tic) (t : Tic)
    → b ≤ b'
    → t.time ≡ b'
    → UpTo b tics
    → UpTo b' (tics ++ t ∷ [])
UpTo-append b b' [] t le e o = omega arith
UpTo-append b b' (c ∷ []) t le e o = (omega arith, omega arith)
UpTo-append b b' (c ∷ d ∷ tics) t le e o = (o.0, UpTo-append b b' (d ∷ tics) t le e o.1)

pub total-append : (xs ys : List Tic) → total (xs ++ ys) ≡ total xs + total ys
total-append [] ys = omega arith
total-append (x ∷ xs) ys = omega (arith, total-append xs ys)

module _ (a : ℕ) (others : List ℕ) where
  pub occurs-append_tic :
      (tics : List Tic) (t : Tic)
      → occurs a (t.addr ∷ addrs tics ++ others) ≡ occurs a (addrs (tics ++ t ∷ []) ++ others)
  occurs-append_tic [] t = refl
  occurs-append_tic (c ∷ tics) t = omega (arith, occurs-append_tic tics t)

pub length-append_tic :
    (others : List ℕ) (tics : List Tic) (t : Tic)
    → length (t.addr ∷ addrs tics ++ others) ≡ length (addrs (tics ++ t ∷ []) ++ others)
length-append_tic others [] t = refl
length-append_tic others (c ∷ tics) t = omega (arith, length-append_tic others tics t)
