-- ===== src/Pabuf/Back.antt =====
-- `pabuf_back` and the objects that are out.
use native.Mathlib.Decide.{dec_lt}
use ketamarouter.Base.{ℕ, suc, ◌+◌, ◌≤◌, ◌<◌, ◌≡◌, refl, ap, ◌∙◌, List, [], ◌∷◌, arith, length}
use ketamarouter.Pabuf.{Shell, Pabuf, shell_size, inc32, dec32, add64, sub64, pabuf_back}
use ketamarouter.Pabuf.Owns.{Owns}

module _ (p : Pabuf) (obj : ℕ) (used : List ℕ) (o : Owns p (obj ∷ used)) where
  -- The pool is full: the object is freed.
  back_freed : Pabuf
  back_freed = record p { memory = sub64 p.memory p.obj_size; count = dec32 p.count }

  back_freed-Owns : Owns back_freed used
  unfolding back_freed
  back_freed-Owns = record {
    sized = o.sized;
    limited = o.limited;
    remain = o.remain;
    remain_bound = o.remain_bound;
    eshell = o.eshell;
    eshell_bound = o.eshell_bound;
    counted = omega (arith, o.counted);
    measured = omega (arith, o.measured, o.sized);
    shells = o.shells;
    once = λ a. omega (arith, o.once a);
    allocated = λ a h. omega (arith, o.allocated a h);
    nonnull = (o.nonnull.0, omega (arith, o.nonnull.1));
    no_fault = o.no_fault;
  }

  back_freed-eq : p.max_remain_count ≤ length p.first → pabuf_back p obj ≡ back_freed
  unfolding pabuf_back back_freed
  back_freed-eq full = ground (arith, o.remain)

  -- The object is kept in a new shell.
  back_new : Pabuf
  back_new = record p {
    first = record { addr = p.fresh; obj = obj } ∷ p.first;
    remain_count = inc32 p.remain_count;
    shell_memory = add64 p.shell_memory shell_size;
    fresh = p.fresh + 1;
  }

  back_new-eq :
      length p.first < p.max_remain_count → p.first_eshell ≡ [] → pabuf_back p obj ≡ back_new
  unfolding pabuf_back back_new
  back_new-eq room e =
      let z : p.eshell_count ≡ 0 = o.eshell ∙ ap length e in ground (arith, o.remain)

  count_kept : length used + suc (length p.first) ≡ suc (length used) + length p.first
  count_kept = omega arith

  back_new-Owns : length p.first < p.max_remain_count → Owns back_new used
  unfolding back_new
  back_new-Owns room = record {
    sized = o.sized;
    limited = o.limited;
    remain = omega (arith, o.remain, o.limited.0);
    remain_bound = room;
    eshell = o.eshell;
    eshell_bound = o.eshell_bound;
    counted = omega (arith, o.counted);
    measured = rw count_kept o.measured;
    shells = omega (arith, o.shells);
    once = λ a. omega (arith, o.once a);
    allocated = λ a h. omega (arith, o.allocated a (omega arith));
    nonnull = (omega arith, omega (arith, o.nonnull.1));
    no_fault = o.no_fault;
  }

  -- The object is kept in an empty shell.
  module _ (shell : Shell) (rest : List Shell) (e : p.first_eshell ≡ shell ∷ rest) where
    back_reused : Pabuf
    back_reused = record p {
      first = record shell { obj = obj } ∷ p.first;
      remain_count = inc32 p.remain_count;
      first_eshell = rest;
      eshell_count = dec32 p.eshell_count;
    }

    back_reused-eq : length p.first < p.max_remain_count → pabuf_back p obj ≡ back_reused
    unfolding pabuf_back back_reused
    back_reused-eq room =
        let z : p.eshell_count ≡ suc (length rest) = o.eshell ∙ ap length e in
        ground (arith, o.remain)

    size_eshell : length p.first_eshell ≡ suc (length rest)
    size_eshell = ap length e

    back_reused-Owns : length p.first < p.max_remain_count → Owns back_reused used
    unfolding back_reused
    back_reused-Owns room = record {
      sized = o.sized;
      limited = o.limited;
      remain = omega (arith, o.remain, o.limited.0);
      remain_bound = room;
      eshell = omega (arith, o.eshell, size_eshell, o.eshell_bound, o.limited.1);
      eshell_bound = omega (arith, size_eshell, o.eshell_bound);
      counted = omega (arith, o.counted);
      measured = rw count_kept o.measured;
      shells = omega (arith, o.shells, size_eshell);
      once = λ a. omega (arith, o.once a);
      allocated = λ a h. omega (arith, o.allocated a h);
      nonnull = (o.nonnull.0, omega (arith, o.nonnull.1));
      no_fault = o.no_fault;
    }

-- `pabuf_back` of an object that is out takes it back: it is kept or freed, and the counters stay in
-- step with the lists. No NULL is read through.
pub pabuf_back-Owns :
    (p : Pabuf) (obj : ℕ) (used : List ℕ) → Owns p (obj ∷ used) → Owns (pabuf_back p obj) used
pabuf_back-Owns p obj used o = elim (dec_lt (length p.first) p.max_remain_count) [
  | yes room ↦ go room p.first_eshell refl
  | no full ↦ rw (back_freed-eq p obj used o (omega arith)) (back_freed-Owns p obj used o)
]
  where
    go :
        length p.first < p.max_remain_count
        → (l : List Shell) → p.first_eshell ≡ l
        → Owns (pabuf_back p obj) used
    go room [] e = rw (back_new-eq p obj used o room e) (back_new-Owns p obj used o room)
    go room (shell ∷ rest) e =
        rw (back_reused-eq p obj used o shell rest e room)
          (back_reused-Owns p obj used o shell rest e room)
