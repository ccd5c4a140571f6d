-- ===== src/Pabuf/Get.antt =====
-- `pabuf_get` and the objects that are out.
use ketamarouter.Base.{
  ℕ, suc, ◌+◌, ◌*◌, ◌%◌, ◌≤◌, ◌<◌, ◌≡◌, refl, ap, ◌∙◌, List, [], ◌∷◌, arith, leb, ◌==◌,
  if◌then◌else◌, u64, length, Bool-cases, inl, inr,
}
use ketamarouter.Pabuf.{Shell, Pabuf, null, shell_size, inc32, dec32, add64, sub64, pabuf_get}
use ketamarouter.Pabuf.Owns.{occurs, occurs_in, Owns}

module _ (p : Pabuf) (used : List ℕ) (o : Owns p used) where
  -- The pool is empty: a new object.
  get_new : Pabuf
  get_new = record p {
    memory = add64 p.memory p.obj_size;
    count = inc32 p.count;
    fresh = p.fresh + 1;
  }

  get_new-eq : p.first ≡ [] → pabuf_get p ≡ (p.fresh, get_new)
  unfolding pabuf_get get_new
  get_new-eq e = let z : p.remain_count ≡ 0 = o.remain ∙ ap length e in ground arith

  get_new-Owns : p.first ≡ [] → Owns get_new (p.fresh ∷ used)
  unfolding get_new
  get_new-Owns e = record {
    sized = o.sized;
    limited = o.limited;
    remain = o.remain;
    remain_bound = o.remain_bound;
    eshell = o.eshell;
    eshell_bound = o.eshell_bound;
    counted = omega (arith, o.counted);
    measured = omega (arith, o.measured);
    shells = o.shells;
    once = λ a. ground (arith, o.once a, o.allocated a);
    allocated = λ a h. ground (arith, o.allocated a);
    nonnull = ground (arith, o.nonnull);
    no_fault = o.no_fault;
  }

  -- An object is kept: it comes from the head of the list, and its shell is kept or freed.
  module _ (shell : Shell) (rest : List Shell) (e : p.first ≡ shell ∷ rest) where
    get_kept : Pabuf
    get_kept = record p {
      first = rest;
      remain_count = dec32 p.remain_count;
      first_eshell = record shell { obj = null } ∷ p.first_eshell;
      eshell_count = inc32 p.eshell_count;
    }

    get_freed : Pabuf
    get_freed = record p {
      first = rest;
      remain_count = dec32 p.remain_count;
      shell_memory = sub64 p.shell_memory shell_size;
    }

    get_head-eq :
        pabuf_get p
        ≡ (shell.obj, if leb p.max_eshell_count p.eshell_count then get_freed else get_kept)
    unfolding pabuf_get get_freed get_kept
    get_head-eq =
        let z : p.remain_count ≡ suc (length rest) = o.remain ∙ ap length e in ground arith

    once_head : (a : ℕ) → occurs a used + ((if a == shell.obj then 1 else 0) + occurs_in a rest) ≤ 1
    once_head a = rw e at (o.once a)

    allocated_head :
        (a : ℕ)
        → p.fresh ≤ a
        → occurs a used + ((if a == shell.obj then 1 else 0) + occurs_in a rest) ≡ 0
    allocated_head a h = rw e at (o.allocated a h)

    nonnull_head :
        occurs null used + ((if null == shell.obj then 1 else 0) + occurs_in null rest) ≡ 0
    nonnull_head = rw e at o.nonnull.1

    size_head : length p.first ≡ suc (length rest)
    size_head = ap length e

    measured_head : p.memory ≡ p.obj_size * (suc (length used) + length rest) % u64
    measured_head = o.measured ∙ ap (λ n. p.obj_size * n % u64) (omega (arith, size_head))

    get_kept-Owns : p.eshell_count < p.max_eshell_count → Owns get_kept (shell.obj ∷ used)
    unfolding get_kept
    get_kept-Owns room = record {
      sized = o.sized;
      limited = o.limited;
      remain = omega (arith, o.remain, size_head, o.remain_bound, o.limited.0);
      remain_bound = omega (arith, size_head, o.remain_bound);
      eshell = omega (arith, o.eshell, o.limited.1);
      eshell_bound = omega (arith, o.eshell);
      counted = omega (arith, o.counted, size_head);
      measured = measured_head;
      shells = omega (arith, o.shells, size_head);
      once = λ a. omega (arith, once_head a);
      allocated = λ a h. omega (arith, allocated_head a h);
      nonnull = (o.nonnull.0, omega (arith, nonnull_head));
      no_fault = o.no_fault;
    }

    get_freed-Owns : Owns get_freed (shell.obj ∷ used)
    unfolding get_freed
    get_freed-Owns = record {
      sized = o.sized;
      limited = o.limited;
      remain = omega (arith, o.remain, size_head, o.remain_bound, o.limited.0);
      remain_bound = omega (arith, size_head, o.remain_bound);
      eshell = o.eshell;
      eshell_bound = o.eshell_bound;
      counted = omega (arith, o.counted, size_head);
      measured = measured_head;
      shells = omega (arith, o.shells, size_head);
      once = λ a. omega (arith, once_head a);
      allocated = λ a h. omega (arith, allocated_head a h);
      nonnull = (o.nonnull.0, omega (arith, nonnull_head));
      no_fault = o.no_fault;
    }

    get_head-Owns : Owns (pabuf_get p).1 ((pabuf_get p).0 ∷ used)
    get_head-Owns = elim (Bool-cases (leb p.max_eshell_count p.eshell_count)) [
      | inl full ↦ rw (get_head-eq, full) get_freed-Owns
      | inr room ↦ rw (get_head-eq, room) (get_kept-Owns (ground arith))
    ]

-- `pabuf_get` hands out an object that is neither out nor kept, is not NULL, and never reads through
-- a NULL list head. The counters stay in step with the lists.
pub pabuf_get-Owns :
    (p : Pabuf) (used : List ℕ) → Owns p used → Owns (pabuf_get p).1 ((pabuf_get p).0 ∷ used)
pabuf_get-Owns p used o = go p.first refl
  where
    go : (l : List Shell) → p.first ≡ l → Owns (pabuf_get p).1 ((pabuf_get p).0 ∷ used)
    go [] e = rw (get_new-eq p used o e) (get_new-Owns p used o e)
    go (shell ∷ rest) e = get_head-Owns p used o shell rest e
