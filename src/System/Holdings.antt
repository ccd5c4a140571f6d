-- ===== src/System/Holdings.antt =====
-- What the clients of one worker have out of its pools, and how many they are.
use ketamarouter.Base.{
  ℕ, zero, suc, ◌+◌, ◌<◌, ◌≡◌, ◌≢◌, refl, sym, ap, ◌∙◌, subst, Option, List, [], ◌∷◌, ◌++◌, ◌==◌,
  if◌then◌else◌, true, false, Bool, arith, length, get_or, All, ==_iff,
}
use ketamarouter.Message.Keeps.Uses.{Uses, Same, BufOwns, BufOwns-Same, with_row, uses_maybe}
use ketamarouter.Message.Keeps.Adds.{
  Adds, Adds-id, Adds-after, Adds-with_row, Adds-uses_maybe, Adds-swap, Adds-keeps,
}
use ketamarouter.Message.Keeps.Reorder.{Same-refl, Same-trans}
use ketamarouter.Message.Buf.{MsgBuf}
use ketamarouter.Message.Ops.{Msg}
use ketamarouter.Server.Read.Keeps.{lost_rows}
use ketamarouter.Server.Accept.{Worker, worker_init, at_worker}
use ketamarouter.Server.Accept.Limit.{total_clients}
use ketamarouter.Client.{Client}

-- The client is one of the worker `i`.
abbrev pub one_of : ℕ → Client → ℕ
one_of i c = if c.worker == i then 1 else 0

abbrev pub clients_of : ℕ → List Client → ℕ
clients_of i [] = 0
clients_of i (c ∷ clients) = one_of i c + clients_of i clients

abbrev pub uses_client : ℕ → Client → Uses → Uses
uses_client i c u = if c.worker == i then uses_maybe c.msg u else u

abbrev pub uses_clients : ℕ → List Client → Uses → Uses
uses_clients i [] u = u
uses_clients i (c ∷ clients) u = uses_client i c (uses_clients i clients u)

Adds-if : (b : Bool) (f : Uses → Uses) → Adds f → Adds (λ u. if b then f u else u)
Adds-if true f h = h
Adds-if false f h = Adds-id

Adds-uses_client : (i : ℕ) (c : Client) → Adds (uses_client i c)
Adds-uses_client i c = Adds-if (c.worker == i) (uses_maybe c.msg) (Adds-uses_maybe c.msg)

pub Adds-uses_clients : (i : ℕ) (clients : List Client) → Adds (uses_clients i clients)
Adds-uses_clients i [] = Adds-id
Adds-uses_clients i (c ∷ clients) =
    Adds-after (uses_client i c) (uses_clients i clients) (Adds-uses_client i c)
      (Adds-uses_clients i clients)

pub Adds-lost_rows : (n : ℕ) → Adds (lost_rows n)
Adds-lost_rows zero = Adds-id
Adds-lost_rows (suc n) = Adds-after (lost_rows n) with_row (Adds-lost_rows n) Adds-with_row

pub Same-sym : (u v : Uses) → Same u v → Same v u
Same-sym u v s = record {
  msgs = (sym s.msgs.0, λ a. sym (s.msgs.1 a));
  cmds = (sym s.cmds.0, λ a. sym (s.cmds.1 a));
  strs = (sym s.strs.0, λ a. sym (s.strs.1 a));
  params = (sym s.params.0, λ a. sym (s.params.1 a));
  kvs = (sym s.kvs.0, λ a. sym (s.kvs.1 a));
  blocks = sym s.blocks;
}

-- A client anywhere in the list is told first.
pub uses_clients-middle :
    (i : ℕ) (before : List Client) (c : Client) (behind : List Client) (u : Uses)
    → Same
        (uses_clients i (before ++ c ∷ behind) u)
        (uses_client i c (uses_clients i (before ++ behind) u))
uses_clients-middle i [] c behind u = Same-refl (uses_client i c (uses_clients i behind u))
uses_clients-middle i (d ∷ before) c behind u =
    let others = uses_clients i (before ++ behind) u in
    Same-trans (uses_clients i (d ∷ before ++ c ∷ behind) u)
      (uses_client i d (uses_client i c others)) (uses_client i c (uses_client i d others))
      (Adds-keeps (uses_client i d) (Adds-uses_client i d) _ _
        (uses_clients-middle i before c behind u))
      (Adds-swap (uses_client i d) (uses_client i c) (Adds-uses_client i d) (Adds-uses_client i c)
        others)

pub clients_of-middle :
    (i : ℕ) (before : List Client) (c : Client) (behind : List Client)
    → clients_of i (before ++ c ∷ behind) ≡ one_of i c + clients_of i (before ++ behind)
clients_of-middle i [] c behind = refl
clients_of-middle i (d ∷ before) c behind = omega (arith, clients_of-middle i before c behind)

pub length-middle :
    (before : List Client) (c : Client) (behind : List Client)
    → length (before ++ c ∷ behind) ≡ suc (length (before ++ behind))
length-middle [] c behind = refl
length-middle (d ∷ before) c behind = ap suc (length-middle before c behind)

-- The predicate of each client, with one told apart.
module _ (P : Client → Type 0) where
  pub All-middle :
      (before : List Client) (c : Client) (behind : List Client)
      → All P (before ++ c ∷ behind)
      → P c × All P (before ++ behind)
  All-middle [] c behind h = h
  All-middle (d ∷ before) c behind h = let r = All-middle before c behind h.1 in (r.0, (h.0, r.1))

  pub All-insert :
      (before : List Client) (c : Client) (behind : List Client)
      → P c
      → All P (before ++ behind)
      → All P (before ++ c ∷ behind)
  All-insert [] c behind p h = (p, h)
  All-insert (d ∷ before) c behind p h = (h.0, All-insert before c behind p h.1)

-- One worker changed.
pub get_or-at_worker_self :
    (f : Worker → Worker) (workers : List Worker) (i : ℕ)
    → i < length workers
    → get_or (at_worker f i workers) i worker_init ≡ f (get_or workers i worker_init)
get_or-at_worker_self f [] i h = absurd (omega arith)
get_or-at_worker_self f (w ∷ workers) zero h = refl
get_or-at_worker_self f (w ∷ workers) (suc i) h = get_or-at_worker_self f workers i (omega arith)

pub get_or-at_worker_other :
    (f : Worker → Worker) (workers : List Worker) (i j : ℕ)
    → i ≢ j
    → get_or (at_worker f i workers) j worker_init ≡ get_or workers j worker_init
get_or-at_worker_other f [] i j n = refl
get_or-at_worker_other f (w ∷ workers) zero zero n = absurd (n refl)
get_or-at_worker_other f (w ∷ workers) zero (suc j) n = refl
get_or-at_worker_other f (w ∷ workers) (suc i) zero n = refl
get_or-at_worker_other f (w ∷ workers) (suc i) (suc j) n =
    get_or-at_worker_other f workers i j (λ e. n (ap suc e))

pub at_worker-twice :
    (f g : Worker → Worker) (workers : List Worker) (i : ℕ)
    → at_worker f i (at_worker g i workers) ≡ at_worker (λ w. f (g w)) i workers
at_worker-twice f g [] i = refl
at_worker-twice f g (w ∷ workers) zero = refl
at_worker-twice f g (w ∷ workers) (suc i) = ap (λ l. w ∷ l) (at_worker-twice f g workers i)

pub total_clients-at_worker :
    (f : Worker → Worker) (workers : List Worker) (i : ℕ)
    → ((w : Worker) → (f w).num_client ≡ w.num_client)
    → total_clients (at_worker f i workers) ≡ total_clients workers
total_clients-at_worker f [] i h = refl
total_clients-at_worker f (w ∷ workers) zero h = omega (arith, h w)
total_clients-at_worker f (w ∷ workers) (suc i) h =
    omega (arith, total_clients-at_worker f workers i h)

pub lost_rows-add : (k n : ℕ) (u : Uses) → lost_rows n (lost_rows k u) ≡ lost_rows (k + n) u
lost_rows-add zero n u = let e : n ≡ 0 + n = omega arith in ap (λ m. lost_rows m u) e
lost_rows-add (suc k) n u =
    let e : suc (k + n) ≡ suc k + n = omega arith in
    lost_rows-add k n (with_row u) ∙ ap (λ m. lost_rows m u) e

-- One client told apart, in the pools of its worker and of another.
module _ (i : ℕ) (before : List Client) (c : Client) (behind : List Client) (u : Uses)
    (b : MsgBuf) where
  abbrev all : Uses
  all = uses_clients i (before ++ c ∷ behind) u

  abbrev rest : Uses
  rest = uses_clients i (before ++ behind) u

  first-Same : c.worker ≡ i → Same all (uses_maybe c.msg rest)
  first-Same e =
      let own : (c.worker == i) ≡ true = (==_iff c.worker i).1 e in
      rw own at (uses_clients-middle i before c behind u)

  without-Same : c.worker ≢ i → Same all rest
  without-Same n =
      let other : (c.worker == i) ≡ false = ground arith in
      rw other at (uses_clients-middle i before c behind u)

  pub tell_first : c.worker ≡ i → BufOwns b all → BufOwns b (uses_maybe c.msg rest)
  tell_first e = BufOwns-Same b all (uses_maybe c.msg rest) (first-Same e)

  pub tell_inside : c.worker ≡ i → BufOwns b (uses_maybe c.msg rest) → BufOwns b all
  tell_inside e =
      BufOwns-Same b (uses_maybe c.msg rest) all
        (Same-sym all (uses_maybe c.msg rest) (first-Same e))

  pub leave_out : c.worker ≢ i → BufOwns b all → BufOwns b rest
  leave_out n = BufOwns-Same b all rest (without-Same n)

  pub put_in : c.worker ≢ i → BufOwns b rest → BufOwns b all
  put_in n = BufOwns-Same b rest all (Same-sym all rest (without-Same n))

  pub clients_of_own :
      c.worker ≡ i → clients_of i (before ++ c ∷ behind) ≡ 1 + clients_of i (before ++ behind)
  clients_of_own e =
      let own : (c.worker == i) ≡ true = (==_iff c.worker i).1 e in
      rw own at (clients_of-middle i before c behind)

  pub clients_of_other :
      c.worker ≢ i → clients_of i (before ++ c ∷ behind) ≡ clients_of i (before ++ behind)
  clients_of_other n =
      let other : (c.worker == i) ≡ false = ground arith in
      let m = rw other at (clients_of-middle i before c behind) in omega (arith, m)

-- The rows that the lines of a read event lose may be told with those lost before it.
pub lose_more :
    (i : ℕ) (clients : List Client) (m : Option Msg) (k n : ℕ) (u : Uses) (b : MsgBuf)
    → BufOwns b (uses_maybe m (lost_rows n (uses_clients i clients (lost_rows k u))))
    → BufOwns b (uses_maybe m (uses_clients i clients (lost_rows (k + n) u)))
lose_more i clients m k n u b o =
    let held = uses_clients i clients in
    let swap = Adds-keeps (uses_maybe m) (Adds-uses_maybe m) _ _ (
      Adds-swap (lost_rows n) held (Adds-lost_rows n) (Adds-uses_clients i clients)
        (lost_rows k u)) in
    subst (λ v. BufOwns b (uses_maybe m (held v))) (lost_rows-add k n u) (BufOwns-Same b _ _ swap o)
